-- ===== src/Inference/Yolo/Scale/Fill.antt =====
-- The loops over the picture find every pixel and every place in the tensor.
use native.Mathlib.Nat.{mul-le-mul_right}
use mathlib.Core.Option
use my_tiny_network_library.Base.{
  ℕ, zero, suc, ◌+◌, ◌-◌, ◌*◌, ◌≤◌, ◌<◌, ◌≡◌, refl, sym, ap, ◌∙◌, subst, arith, ℤ, pos, negsuc,
  true, List, [], ◌∷◌, ◌++◌, Option, some, ltb, get_elem?, length, take, drop, min, length-append,
  length-take, length-drop,
}
use my_tiny_network_library.Inference.Yolo.{Floats}
use my_tiny_network_library.Inference.Yolo.Scale.{
  Rounding, ◌>>=◌, input_size, tensor_size, repeat, clamp, assign, source, pixel, sampled, fill_one,
  fill,
}

-- there is an element below the length
get_elem?-some :
    {A : Type 0} (xs : List A) (i : ℕ) → i < length xs → (a : A) × (get_elem? xs i ≡ some a)
get_elem?-some [] i h = absurd (omega arith)
get_elem?-some (x ∷ xs) zero h = (x, refl)
get_elem?-some (x ∷ xs) (suc i) h = get_elem?-some xs i (omega arith)

clamp_bounds : (size : ℕ) (i : ℤ) → 1 ≤ size → clamp size i < size
clamp_bounds size (pos n) h = omega arith
clamp_bounds size (negsuc n) h = h

-- a row below the height and a column below the width
flat_bounds :
    (height width y x c : ℕ)
    → y < height
    → x < width
    → c < 3
    → (y * width + x) * 3 + c < width * height * 3
flat_bounds height width y x c hy hx hc =
    let rows : suc y * width ≤ height * width = mul-le-mul_right width hy in omega arith

assign-length :
    {Real : Type 0} (i : ℕ) (value : Real) (tensor : List Real)
    → i < length tensor
    → (t : List Real) × (assign i value tensor ≡ some t) × (length t ≡ length tensor)
assign-length i value tensor h =
    let inside : ltb i (length tensor) ≡ true = ground (arith, h) in
    let total : length (take i tensor ++ value ∷ drop (suc i) tensor) ≡ length tensor =
      length-append (take i tensor) (value ∷ drop (suc i) tensor)
      ∙ omega (arith, length-take i tensor, length-drop (suc i) tensor, h) in
    (_, rw inside refl, total)

bind-some :
    {A B : Type 0} {o : Option A} {k : A → Option B}
    → (a : A) × (o ≡ some a)
    → ((a : A) → (b : B) × (k a ≡ some b))
    → (b : B) × ((o >>= k) ≡ some b)
unfolding ◌>>=◌
bind-some x h = ((h x.0).0, rw x.1 (h x.0).1)

-- a loop keeps what each of its rounds keeps
repeat-keeps :
    {A : Type 0} (P : A → Type 0) (body : ℕ → A → Option A) (bound count start : ℕ) (a : A)
    → ((i : ℕ) (a : A) → i < bound → P a → (b : A) × (body i a ≡ some b) × P b)
    → start + count ≤ bound
    → P a
    → (b : A) × (repeat body count start a ≡ some b) × P b
unfolding repeat ◌>>=◌
repeat-keeps P body bound zero start a step h p = (a, refl, p)
repeat-keeps P body bound (suc count) start a step h p =
    let one = step start a (omega arith) p in
    let rest = repeat-keeps P body bound count (suc start) one.0 step (omega arith) one.2 in
    (rest.0, rw one.1 rest.1, rest.2)

module _ {Real : Type 0} (f : Floats Real) (rounding : Rounding Real) where
  module _ (scale : Real) (pixels : List ℕ) (width height : ℕ) (wide : 1 ≤ width)
      (high : 1 ≤ height) (enough : length pixels ≡ width * height * 3) where
    pixel-some :
        (y x c : ℕ)
        → y < height
        → x < width
        → c < 3
        → (r : Real) × (pixel f rounding scale pixels width height y x c ≡ some r)
    pixel-some y x c hy hx hc =
        let there = get_elem?-some pixels ((y * width + x) * 3 + c) (
          subst (λ n. (y * width + x) * 3 + c < n) (sym enough)
            (flat_bounds height width y x c hy hx hc)) in
        (f.number there.0 0, ap (Option.map (λ p. f.number p 0)) there.1)

    sampled-some :
        (y x c : ℕ)
        → c < 3
        → (r : Real) × (sampled f rounding scale pixels width height y x c ≡ some r)
    sampled-some y x c hc = bind-some (pixel-some _ _ c y0 x0 hc) (λ a.
        bind-some (pixel-some _ _ c y0 x1 hc) (λ b.
          bind-some (pixel-some _ _ c y1 x0 hc)
            (λ d. bind-some (pixel-some _ _ c y1 x1 hc) (λ e. (_, refl)))))
      where
        y0 : clamp height (rounding.floor_int (source f rounding scale y)) < height
        y0 = clamp_bounds height _ high

        x0 : clamp width (rounding.floor_int (source f rounding scale x)) < width
        x0 = clamp_bounds width _ wide

        y1 :
            min (height - 1) (clamp height (rounding.floor_int (source f rounding scale y)) + 1)
            < height
        y1 = omega (arith, high)

        x1 :
            min (width - 1) (clamp width (rounding.floor_int (source f rounding scale x)) + 1)
            < width
        x1 = omega (arith, wide)

    -- the tensor has all its elements
    abbrev pub Whole : List Real → Type 0
    Whole tensor = length tensor ≡ tensor_size

    fill_one-Whole :
        (pad_top pad_left y x c : ℕ) (tensor : List Real)
        → pad_top + y < input_size
        → pad_left + x < input_size
        → c < 3
        → Whole tensor
        → (t : List Real) × (fill_one f rounding scale pixels width height pad_top pad_left y x c
              tensor
            ≡ some t)
          × Whole t
    unfolding ◌>>=◌ tensor_size
    fill_one-Whole pad_top pad_left y x c tensor hy hx hc whole =
        let value = sampled-some y x c hc in
        let place_bounds : ((pad_top + y) * input_size + pad_left + x) * 3 + c < length tensor =
          omega (arith, whole, hy, hx, hc) in
        let written = assign-length _ value.0 tensor place_bounds in
        (written.0, rw value.1 written.1, written.2 ∙ whole)

    pub fill-Whole :
        (pad_top pad_left resized_width resized_height : ℕ) (tensor : List Real)
        → pad_top + resized_height ≤ input_size
        → pad_left + resized_width ≤ input_size
        → Whole tensor
        → (t : List Real) × (fill f rounding scale pixels width height pad_top pad_left
              resized_width resized_height tensor
            ≡ some t)
          × Whole t
    unfolding fill
    fill-Whole pad_top pad_left resized_width resized_height tensor hy hx whole =
        repeat-keeps Whole _ resized_height resized_height 0 tensor
          (λ y t y_in whole_t.
            repeat-keeps Whole _ resized_width resized_width 0 t
              (λ x u x_in whole_u.
                repeat-keeps Whole _ 3 3 0 u
                  (λ c v c_in whole_v.
                    fill_one-Whole pad_top pad_left y x c v (omega arith) (omega arith) c_in
                      whole_v)
                  (omega arith) whole_u)
              (omega arith) whole_t)
          (omega arith) whole
