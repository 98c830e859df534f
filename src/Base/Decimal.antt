-- ===== src/Base/Decimal.antt =====
-- The decimal text of a number: `%d` and `%zd` of `snprintf` for a number that is not negative.
use Prim.Native.Nat.{ℕ, zero, suc, ◌+◌, ◌*◌, ◌/◌, ◌%◌, ◌-◌, ◌<◌, ◌≤◌}
use mathlib.Core.Path.{◌≡◌, refl}
use mathlib.Core.Logic.{inl, inr}
use mathlib.Core.Bool.{true}
use mathlib.Core.List.{[], ◌∷◌, ◌++◌}
use native.Mathlib.Omega.{arith}
use my_tiny_network_library.Base.Tests.{ltb, if◌then◌else◌, ltb→le, Bool-cases}
use my_tiny_network_library.Base.Lists.{length, length-append}
use my_tiny_network_library.Base.Text.{Bytes}

-- The digits, with a round of fuel for each.
unfoldable pub digits : ℕ → ℕ → Bytes
digits zero n = []
digits (suc fuel) n =
    let high = digits fuel (n / 10) in
    if ltb n 10 then (48 + n) ∷ [] else high ++ (48 + n % 10) ∷ []

unfoldable pub decimal : ℕ → Bytes
decimal n = digits (n + 1) n

-- the number that a text of digits stands for, read behind another
unfoldable pub number_from : ℕ → Bytes → ℕ
number_from n [] = n
number_from n (c ∷ text) = number_from (n * 10 + (c - 48)) text

number_from-append :
    (n c : ℕ) (text : Bytes) → number_from n (text ++ c ∷ []) ≡ number_from n text * 10 + (c - 48)
unfolding number_from
number_from-append n c [] = refl
number_from-append n c (d ∷ text) = number_from-append (n * 10 + (d - 48)) c text

number_from-digits : (fuel n : ℕ) → n < fuel → number_from 0 (digits fuel n) ≡ n
unfolding digits number_from
number_from-digits zero n h = absurd (omega arith)
number_from-digits (suc fuel) n h = elim (Bool-cases (ltb n 10)) [
  | inl e ↦ rw e (omega arith)
  | inr e ↦
      rw
        (
          e,
          number_from-append 0 (48 + n % 10) (digits fuel (n / 10)),
          number_from-digits fuel (n / 10) (omega (arith, ltb→le n 10 e)),
        )
        (omega arith)
]

-- The text of a number reads back as the number.
pub number_from-decimal : (n : ℕ) → number_from 0 (decimal n) ≡ n
unfolding decimal
number_from-decimal n = number_from-digits (n + 1) n (omega arith)

-- ten, `k` times over
abbrev pub ten_times : ℕ → ℕ
ten_times zero = 10
ten_times (suc k) = 10 * ten_times k

-- how many digits a number has
pub length-digits : (k fuel num : ℕ) → num < ten_times k → length (digits fuel num) ≤ suc k
unfolding digits
length-digits k zero num h = omega arith
length-digits zero (suc fuel) num h =
    let small : ltb num 10 ≡ true = ground (arith, h) in rw small (omega arith)
length-digits (suc k) (suc fuel) num h = elim (Bool-cases (ltb num 10)) [
  | inl e ↦ rw e (omega arith)
  | inr e ↦ rw e (
      omega (
        arith,
        length-append (digits fuel (num / 10)) ((48 + num % 10) ∷ []),
        length-digits k fuel (num / 10) (omega (arith, h)),
      ))
]
