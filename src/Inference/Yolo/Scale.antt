-- ===== src/Inference/Yolo/Scale.antt =====
-- `preprocess` of src/inference/YoloV8Processor.cc: the picture is scaled into the middle of a square.
-- What stb_image does is an argument, and so is the rounding of `float`. Every element of an array is
-- looked up, so that one outside of it would be seen. An image has fewer than 2 ^ 31 bytes.
pub mod Fill
pub mod Inside
use mathlib.Core.Option
use my_tiny_network_library.Base.{
  ℕ, zero, suc, ◌+◌, ◌-◌, ◌*◌, ◌/◌, ℤ, pos, negsuc, Bool, true, false, not, ◌&&◌, ◌||◌, List, [],
  ◌∷◌, ◌++◌, Option, none, some, if◌then◌else◌, ltb, leb, ◌==◌, Bytes, codes, is_empty, get_elem?,
  length, replicate, take, drop, min,
}
use my_tiny_network_library.Inference.Types.{ImageData}
use my_tiny_network_library.Inference.Yolo.{Floats, PreprocessedImage, min_float}

-- the functions of stb_image, and what it says about a failure
pub record Decoder : Type 0 where
  pub info : Bytes → Option (ℕ × ℕ)
  pub load : Bytes → Option (List ℕ × ℕ × ℕ)
  pub failure_reason : Option Bytes

-- `round` and the cast of a number that is not negative, `floor`, and the cast of its result
pub record Rounding (Real : Type 0) : Type 0 where
  pub round : Real → ℕ
  pub floor : Real → Real
  pub floor_int : Real → ℤ

pub data Outcome (Real : Type 0) : Type 0 where
  done : PreprocessedImage Real → Outcome Real
  failed : Bytes → Outcome Real
  outside : Outcome Real

abbrev pub input_size : ℕ
input_size = 640

-- the elements of the tensor
unfoldable pub tensor_size : ℕ
tensor_size = input_size * input_size * 3

infixl 5 ◌>>=◌
unfoldable pub ◌>>=◌ : {A B : Type 0} → Option A → (A → Option B) → Option B
none >>= k = none
some a >>= k = k a

-- `for (int i = start; …; ++i)`, `count` times
unfoldable pub repeat : {A : Type 0} → (ℕ → A → Option A) → (count start : ℕ) → A → Option A
repeat body zero i a = some a
repeat body (suc count) i a = do a' ← body i a; repeat body count (suc i) a'

-- `std::max(0, std::min(size - 1, i))`
abbrev pub clamp : ℕ → ℤ → ℕ
clamp size (pos n) = min (size - 1) n
clamp size (negsuc n) = 0

abbrev pub too_large : ℕ → ℕ → Bool
too_large width height =
    width == 0 || height == 0 || ltb 8192 width || ltb 8192 height || ltb 40000000 (width * height)

-- `tensor[i] = value`
abbrev pub assign : {Real : Type 0} → ℕ → Real → List Real → Option (List Real)
assign i value tensor =
    if ltb i (length tensor) then some (take i tensor ++ value ∷ drop (suc i) tensor) else none

module _ {Real : Type 0} (f : Floats Real) (rounding : Rounding Real) where
  -- `(i + 0.5f) / scale - 0.5f`
  abbrev pub source : Real → ℕ → Real
  source scale i = f.sub (f.div (f.add (f.number i 0) (f.number 5 1)) scale) (f.number 5 1)

  -- `a * (1.0f - t) + b * t`
  abbrev pub mix : Real → Real → Real → Real
  mix a b t = f.add (f.mul a (f.sub (f.number 1 0) t)) (f.mul b t)

  abbrev pub fraction : Real → Real
  fraction a = f.sub a (rounding.floor a)

  module _ (scale : Real) (pixels : List ℕ) (width height : ℕ) where
    abbrev pub pixel : ℕ → ℕ → ℕ → Option Real
    pixel y x c = Option.map (λ p. f.number p 0) (get_elem? pixels ((y * width + x) * 3 + c))

    -- the four pixels around a place, mixed
    abbrev pub sampled : ℕ → ℕ → ℕ → Option Real
    sampled y x c =
        let source_y = source scale y in
        let y0 = clamp height (rounding.floor_int source_y) in
        let y1 = min (height - 1) (y0 + 1) in
        let source_x = source scale x in
        let x0 = clamp width (rounding.floor_int source_x) in
        let x1 = min (width - 1) (x0 + 1) in
        let fx = fraction source_x in
        do
          a ← pixel y0 x0 c
          b ← pixel y0 x1 c
          c' ← pixel y1 x0 c
          d ← pixel y1 x1 c
          some (f.div (mix (mix a b fx) (mix c' d fx) (fraction source_y)) (f.number 255 0))

    abbrev pub place : ℕ → ℕ → ℕ → ℕ → ℕ → ℕ
    place pad_top pad_left y x c = ((pad_top + y) * input_size + pad_left + x) * 3 + c

    abbrev pub fill_one : ℕ → ℕ → ℕ → ℕ → ℕ → List Real → Option (List Real)
    fill_one pad_top pad_left y x c tensor = do
      value ← sampled y x c
      assign (place pad_top pad_left y x c) value tensor

    -- the three loops
    unfoldable pub fill : ℕ → ℕ → ℕ → ℕ → List Real → Option (List Real)
    fill pad_top pad_left resized_width resized_height tensor =
        repeat (λ y. repeat (λ x. repeat (fill_one pad_top pad_left y x) 3 0) resized_width 0)
          resized_height 0 tensor

  -- `std::min(640.0f / width, 640.0f / height)`
  abbrev pub scale_of : ℕ → ℕ → Real
  scale_of width height =
      min_float f (f.div (f.number input_size 0) (f.number width 0))
        (f.div (f.number input_size 0) (f.number height 0))

  abbrev pub resized : Real → ℕ → ℕ
  resized scale size = rounding.round (f.mul (f.number size 0) scale)

  -- what is left on one side; a side that is longer than the square counts as outside
  abbrev pub pad : ℕ → Option ℕ
  pad size = if leb size input_size then some ((input_size - size) / 2) else none

  abbrev pub filled :
      PreprocessedImage Real → ℕ → ℕ → Real → ℕ → ℕ → Option (List Real) → Outcome Real
  filled before width height scale pad_left pad_top none = outside
  filled before width height scale pad_left pad_top (some tensor) = done (record {
    tensor = tensor;
    original_width = width;
    original_height = height;
    scale = scale;
    pad_x = f.number pad_left 0;
    pad_y = f.number pad_top 0;
  })

  abbrev pub padded : PreprocessedImage Real → List ℕ → ℕ → ℕ → Option ℕ → Option ℕ → Outcome Real
  padded before pixels width height (some pad_left) (some pad_top) =
      let scale = scale_of width height in
      filled before width height scale pad_left pad_top (
        fill scale pixels width height pad_top pad_left (resized scale width) (resized scale height)
          (replicate tensor_size (f.div (f.number 114 0) (f.number 255 0))))
  padded before pixels width height _ _ = outside

  abbrev pub or_failed : Option Bytes → Bytes
  or_failed none = codes "image decode failed"
  or_failed (some text) = text

  abbrev pub loaded : Decoder → PreprocessedImage Real → Option (List ℕ × ℕ × ℕ) → Outcome Real
  loaded decoder before none = failed (or_failed decoder.failure_reason)
  loaded decoder before (some (pixels, width, height)) =
      let scale = scale_of width height in
      padded before pixels width height (pad (resized scale width)) (pad (resized scale height))

  abbrev pub measured : Decoder → Bytes → PreprocessedImage Real → Option (ℕ × ℕ) → Outcome Real
  measured decoder bytes before none =
      failed (codes "invalid image or image dimensions exceed limits")
  measured decoder bytes before (some (width, height)) =
      if too_large width height
      then failed (codes "invalid image or image dimensions exceed limits")
      else loaded decoder before (decoder.load bytes)

  abbrev pub encoded : Decoder → Option Bytes → PreprocessedImage Real → Outcome Real
  encoded decoder none before = failed (codes "encoded image is empty")
  encoded decoder (some bytes) before =
      if is_empty bytes
      then failed (codes "encoded image is empty")
      else measured decoder bytes before (decoder.info bytes)

  -- `*output` is what it was where the image fails.
  unfoldable pub preprocess : Decoder → ImageData → PreprocessedImage Real → Outcome Real
  preprocess decoder image before = encoded decoder image.encoded before
