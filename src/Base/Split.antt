-- ===== src/Base/Split.antt =====
-- Taking a list apart at an index and putting it together again: slices and overwritten ranges.
use Prim.Native.Nat.{ℕ, zero, suc, ◌+◌, ◌-◌, ◌≤◌}
use mathlib.Core.Path.{◌≡◌, refl, sym, ap, ◌∙◌}
use mathlib.Core.List.{List, [], ◌∷◌, ◌++◌, append_assoc}
use native.Mathlib.Omega.{arith}
use my_tiny_network_library.Base.Lists.{
  length, take, drop, length-append, length-take, length-drop, take-all,
}

module _ {ℓ} {A : Type ℓ} where
  -- `n` elements from index `i` on
  abbrev pub slice : ℕ → ℕ → List A → List A
  slice i n xs = take n (drop i xs)

  -- `std::copy` of `ds` to index `i`; the caller keeps the range inside the list
  abbrev pub splice : List A → ℕ → List A → List A
  splice xs i ds = take i xs ++ (ds ++ drop (i + length ds) xs)

  pub take-append_eq : (xs ys : List A) (n : ℕ) → length xs ≡ n → take n (xs ++ ys) ≡ xs
  take-append_eq [] ys zero h = refl
  take-append_eq [] ys (suc n) h = absurd (omega arith)
  take-append_eq (x ∷ xs) ys zero h = absurd (omega arith)
  take-append_eq (x ∷ xs) ys (suc n) h = ap (◌∷◌ x) (take-append_eq xs ys n (omega arith))

  pub drop-append_eq : (xs ys : List A) (n : ℕ) → length xs ≡ n → drop n (xs ++ ys) ≡ ys
  drop-append_eq [] ys zero h = refl
  drop-append_eq [] ys (suc n) h = absurd (omega arith)
  drop-append_eq (x ∷ xs) ys zero h = absurd (omega arith)
  drop-append_eq (x ∷ xs) ys (suc n) h = drop-append_eq xs ys n (omega arith)

  pub take-append_le : (xs ys : List A) (n : ℕ) → n ≤ length xs → take n (xs ++ ys) ≡ take n xs
  take-append_le xs ys zero h = refl
  take-append_le [] ys (suc n) h = absurd (omega arith)
  take-append_le (x ∷ xs) ys (suc n) h = ap (◌∷◌ x) (take-append_le xs ys n (omega arith))

  pub drop-append_le :
      (xs ys : List A) (n : ℕ) → n ≤ length xs → drop n (xs ++ ys) ≡ drop n xs ++ ys
  drop-append_le xs ys zero h = refl
  drop-append_le [] ys (suc n) h = absurd (omega arith)
  drop-append_le (x ∷ xs) ys (suc n) h = drop-append_le xs ys n (omega arith)

  pub take-drop : (n : ℕ) (xs : List A) → take n xs ++ drop n xs ≡ xs
  take-drop zero xs = refl
  take-drop (suc n) [] = refl
  take-drop (suc n) (x ∷ xs) = ap (◌∷◌ x) (take-drop n xs)

  drop-nil : (n : ℕ) → drop {A = A} n [] ≡ []
  drop-nil zero = refl
  drop-nil (suc n) = refl

  pub drop-drop : (m n : ℕ) (xs : List A) → drop m (drop n xs) ≡ drop (n + m) xs
  drop-drop m zero xs = ap (λ k. drop k xs) (omega arith)
  drop-drop m (suc n) [] = drop-nil m ∙ sym (drop-nil (suc n + m))
  drop-drop m (suc n) (x ∷ xs) =
      drop-drop m n xs
      ∙ (let e : suc n + m ≡ suc (n + m) = omega arith in ap (λ k. drop k (x ∷ xs)) (sym e))

  pub drop-take : (m n : ℕ) (xs : List A) → drop m (take n xs) ≡ take (n - m) (drop m xs)
  drop-take zero n xs = ap (λ k. take k xs) (omega arith)
  drop-take (suc m) zero xs =
      (let e : 0 ≡ zero - suc m = omega arith in ap (λ k. take k (drop (suc m) xs)) e)
  drop-take (suc m) (suc n) [] = sym (take-all (suc n - suc m) [] (omega arith))
  drop-take (suc m) (suc n) (x ∷ xs) =
      drop-take m n xs
      ∙ (let e : n - m ≡ suc n - suc m = omega arith in ap (λ k. take k (drop m xs)) e)

  pub length-slice : (i n : ℕ) (xs : List A) → i + n ≤ length xs → length (slice i n xs) ≡ n
  length-slice i n xs h = omega (arith, length-take n (drop i xs), length-drop i xs)

  pub length-splice :
      (xs : List A) (i : ℕ) (ds : List A)
      → i + length ds ≤ length xs
      → length (splice xs i ds) ≡ length xs
  length-splice xs i ds h = omega (
    arith,
    length-append (take i xs) (ds ++ drop (i + length ds) xs),
    length-append ds (drop (i + length ds) xs),
    length-take i xs,
    length-drop (i + length ds) xs,
  )

  -- What was written is read back, behind the slice that stood in front of it.
  pub slice-splice :
      (xs : List A) (r w : ℕ) (ds : List A)
      → r ≤ w
      → w ≤ length xs
      → slice r (w - r + length ds) (splice xs w ds) ≡ slice r (w - r) xs ++ ds
  slice-splice xs r w ds h k =
      ap (take (w - r + length ds)) (
        drop-append_le (take w xs) _ r (omega (arith, length-take w xs))
        ∙ ap (λ t. t ++ (ds ++ drop (w + length ds) xs)) (drop-take r w xs)
        ∙ sym (append_assoc (slice r (w - r) xs) ds (drop (w + length ds) xs)))
      ∙ take-append_eq (slice r (w - r) xs ++ ds) _ _
          (omega (arith, length-append (slice r (w - r) xs) ds, length-slice r (w - r) xs))

  -- Growing the list behind a slice does not change the slice.
  pub slice-append_le :
      (xs ys : List A) (i n : ℕ) → i + n ≤ length xs → slice i n (xs ++ ys) ≡ slice i n xs
  slice-append_le xs ys i n h =
      ap (take n) (drop-append_le xs ys i (omega arith))
      ∙ take-append_le (drop i xs) ys n (omega (arith, length-drop i xs))

  -- What was written is read back.
  pub slice-splice_self :
      (xs : List A) (i n : ℕ) (ds : List A)
      → i ≤ length xs
      → length ds ≡ n
      → slice i n (splice xs i ds) ≡ ds
  slice-splice_self xs i n ds h k =
      ap (take n) (drop-append_eq (take i xs) _ i (omega (arith, length-take i xs)))
      ∙ take-append_eq ds _ n k

  pub take-take : (m n : ℕ) (xs : List A) → m ≤ n → take m xs ≡ take m (take n xs)
  take-take zero n xs h = refl
  take-take (suc m) zero xs h = absurd (omega arith)
  take-take (suc m) (suc n) [] h = refl
  take-take (suc m) (suc n) (x ∷ xs) h = ap (◌∷◌ x) (take-take m n xs (omega arith))
