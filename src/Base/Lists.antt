-- ===== src/Base/Lists.antt =====
-- Lists with native lengths and indices: C++ vectors and byte ranges.
use Prim.Native.Nat.{ℕ, zero, suc, ◌+◌, ◌-◌, ◌≤◌, min}
use mathlib.Core.Path.{◌≡◌, refl, ap}
use mathlib.Core.List.{List, [], ◌∷◌, ◌++◌}
use mathlib.Core.Option.{Option, none, some}
use native.Mathlib.Omega.{arith}

-- a predicate at every element
abbrev pub All {ℓ κ} : {A : Type ℓ} → (A → Type κ) → List A → Type κ
All P [] = Unit
All P (x ∷ xs) = P x × All P xs

pub All-map {ℓ κ} :
    {A : Type ℓ} (P Q : A → Type κ) → ((x : A) → P x → Q x) → (xs : List A) → All P xs → All Q xs
All-map P Q f [] h = h
All-map P Q f (x ∷ xs) h = (f x h.0, All-map P Q f xs h.1)

pub All-append {ℓ κ} :
    {A : Type ℓ} (P : A → Type κ) (xs ys : List A) → All P xs → All P ys → All P (xs ++ ys)
All-append P [] ys h k = k
All-append P (x ∷ xs) ys h k = (h.0, All-append P xs ys h.1 k)

module _ {ℓ} {A : Type ℓ} where
  abbrev pub length : List A → ℕ
  length [] = 0
  length (_ ∷ xs) = suc (length xs)

  abbrev pub get_elem? : List A → ℕ → Option A
  get_elem? [] _ = none
  get_elem? (x ∷ _) zero = some x
  get_elem? (_ ∷ xs) (suc i) = get_elem? xs i

  abbrev pub take : ℕ → List A → List A
  take zero _ = []
  take (suc n) [] = []
  take (suc n) (x ∷ xs) = x ∷ take n xs

  abbrev pub drop : ℕ → List A → List A
  drop zero xs = xs
  drop (suc n) [] = []
  drop (suc n) (x ∷ xs) = drop n xs

  abbrev pub replicate : ℕ → A → List A
  replicate zero _ = []
  replicate (suc n) x = x ∷ replicate n x

  pub length-append : (xs ys : List A) → length (xs ++ ys) ≡ length xs + length ys
  length-append [] ys = omega arith
  length-append (x ∷ xs) ys = omega (arith, length-append xs ys)

  pub length-replicate : (n : ℕ) (x : A) → length (replicate n x) ≡ n
  length-replicate zero x = refl
  length-replicate (suc n) x = ap suc (length-replicate n x)

  pub length-take : (n : ℕ) (xs : List A) → length (take n xs) ≡ min n (length xs)
  length-take zero xs = omega arith
  length-take (suc n) [] = omega arith
  length-take (suc n) (x ∷ xs) = omega (arith, length-take n xs)

  pub length-drop : (n : ℕ) (xs : List A) → length (drop n xs) ≡ length xs - n
  length-drop zero xs = omega arith
  length-drop (suc n) [] = omega arith
  length-drop (suc n) (x ∷ xs) = omega (arith, length-drop n xs)

  pub take-all : (n : ℕ) (xs : List A) → length xs ≤ n → take n xs ≡ xs
  take-all zero [] h = refl
  take-all zero (x ∷ xs) h = absurd (omega arith)
  take-all (suc n) [] h = refl
  take-all (suc n) (x ∷ xs) h = ap (◌∷◌ x) (take-all n xs (omega arith))

  pub drop-all : (n : ℕ) (xs : List A) → length xs ≤ n → drop n xs ≡ []
  drop-all zero [] h = refl
  drop-all zero (x ∷ xs) h = absurd (omega arith)
  drop-all (suc n) [] h = refl
  drop-all (suc n) (x ∷ xs) h = drop-all n xs (omega arith)
