-- ===== src/Base/Find.antt =====
-- What a search for a text finds, and what it finds when the text is extended.
use Prim.Native.Nat.{ℕ, zero, suc, ◌+◌, ◌≤◌, ◌<◌}
use mathlib.Core.Path.{◌≡◌, refl, sym, ap}
use mathlib.Core.Logic.{inl, inr}
use mathlib.Core.Bool.{true, false, ◌&&◌}
use mathlib.Core.List.{[], ◌∷◌, ◌++◌}
use mathlib.Core.Option.{Option, none, some}
use mathlib.Core.Option
use native.Mathlib.Omega.{arith}
use my_tiny_network_library.Base.Tests.{◌==◌, Bool-cases}
use my_tiny_network_library.Base.Lists.{length, drop}
use my_tiny_network_library.Base.Text.{Bytes, starts_with, find}

-- Whether a text begins with a key is decided by as many characters as the key has.
pub starts_with-append :
    (key xs ys : Bytes) → length key ≤ length xs → starts_with key (xs ++ ys) ≡ starts_with key xs
unfolding starts_with
starts_with-append [] xs ys h = refl
starts_with-append (k ∷ key) [] ys h = absurd (omega arith)
starts_with-append (k ∷ key) (x ∷ xs) ys h =
    ap (λ b. k == x && b) (starts_with-append key xs ys (omega arith))

pub length-starts_with : (key xs : Bytes) → starts_with key xs ≡ true → length key ≤ length xs
unfolding starts_with
length-starts_with [] xs h = omega arith
length-starts_with (k ∷ key) [] h = cc
length-starts_with (k ∷ key) (x ∷ xs) h = ground (arith, length-starts_with key xs)

map-suc-some :
    (o : Option ℕ) (i : ℕ) → Option.map suc o ≡ some i → (j : ℕ) × (o ≡ some j) × (i ≡ suc j)
map-suc-some none i h = cc
map-suc-some (some j) i h = (j, refl, cc)

-- An occurrence lies inside the text.
pub find_bound : (key xs : Bytes) (i : ℕ) → find key xs ≡ some i → i + length key ≤ length xs
unfolding find
find_bound [] [] i h = ground arith
find_bound (k ∷ key) [] i h = cc
find_bound key (x ∷ xs) i h = elim (Bool-cases (starts_with key (x ∷ xs))) [
  | inl e ↦ ground (arith, length-starts_with key (x ∷ xs) e)
  | inr e ↦
      let (j, found, below) = map-suc-some (find key xs) i (rw e at h) in
      omega (arith, find_bound key xs j found)
]

-- What is found stays found, at the same place, when the text is extended.
pub find-append : (key xs ys : Bytes) (i : ℕ) → find key xs ≡ some i → find key (xs ++ ys) ≡ some i
unfolding find
find-append [] [] [] i h = h
find-append [] [] (y ∷ ys) i h = h
find-append (k ∷ key) [] ys i h = cc
find-append key (x ∷ xs) ys i h = elim (Bool-cases (starts_with key (x ∷ xs))) [
  | inl e ↦
      rw (starts_with-append key (x ∷ xs) ys (length-starts_with key (x ∷ xs) e), e) (rw e at h)
  | inr e ↦
      let (j, found, below) = map-suc-some (find key xs) i (rw e at h) in
      rw
        (
          starts_with-append key (x ∷ xs) ys (omega (arith, find_bound key xs j found)),
          e,
          find-append key xs ys j found,
        )
        (ap some (sym below))
]

-- The first occurrence is an occurrence.
pub starts_with-find :
    (key xs : Bytes) (i : ℕ) → find key xs ≡ some i → starts_with key (drop i xs) ≡ true
unfolding find
starts_with-find [] [] i h = refl
starts_with-find (k ∷ key) [] i h = cc
starts_with-find key (x ∷ xs) i h = elim (Bool-cases (starts_with key (x ∷ xs))) [
  | inl e ↦ let here : i ≡ 0 = ground (arith, rw e at h) in rw here e
  | inr e ↦
      let (j, found, below) = map-suc-some (find key xs) i (rw e at h) in
      rw below (starts_with-find key xs j found)
]

-- Nothing stands before the first occurrence.
pub find_first :
    (key xs : Bytes) (i j : ℕ) → find key xs ≡ some i → j < i → starts_with key (drop j xs) ≡ false
unfolding find
find_first [] [] i j h lt = absurd (ground arith)
find_first (k ∷ key) [] i j h lt = cc
find_first key (x ∷ xs) i zero h lt = elim (Bool-cases (starts_with key (x ∷ xs))) [
  | inl e ↦ absurd (ground (arith, rw e at h))
  | inr e ↦ e
]
find_first key (x ∷ xs) i (suc j) h lt = elim (Bool-cases (starts_with key (x ∷ xs))) [
  | inl e ↦ absurd (ground (arith, rw e at h))
  | inr e ↦
      let (k, found, below) = map-suc-some (find key xs) i (rw e at h) in
      find_first key xs k j found (omega arith)
]

-- Where nothing is found, nothing is there.
pub find-none : (key xs : Bytes) (j : ℕ) → find key xs ≡ none → starts_with key (drop j xs) ≡ false
unfolding find
find-none [] [] j h = cc
find-none (k ∷ key) [] zero h = refl
find-none (k ∷ key) [] (suc j) h = refl
find-none key (x ∷ xs) zero h = elim (Bool-cases (starts_with key (x ∷ xs))) [
  | inl e ↦ cc (rw e at h)
  | inr e ↦ e
]
find-none key (x ∷ xs) (suc j) h = elim (Bool-cases (starts_with key (x ∷ xs))) [
  | inl e ↦ cc (rw e at h)
  | inr e ↦ find-none key xs j (ground (arith, rw e at h))
]
