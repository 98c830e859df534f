-- ===== src/Main/Config/Written.antt =====
-- Numbers that are written in a variable.
use my_tiny_network_library.Base.{
  ℕ, ◌<◌, ◌≡◌, ◌≢◌, refl, arith, true, false, not, ◌&&◌, [], ◌∷◌, ◌++◌, Option, some, if◌then◌else◌,
  leb, Bytes, codes, decimal, size_mod, Bool-cases, inl, inr,
}
use my_tiny_network_library.Http.Chars.Numbers.{strtoull-decimal, decimal-nonempty}
use my_tiny_network_library.Main.Config.{set, wrong, given, is_refused, positive_environment}

given-nonempty : (text : Bytes) → text ≢ [] → given (some text) ≡ some text
given-nonempty [] ne = absurd (ne refl)
given-nonempty (c ∷ text) ne = refl

in_range-is_refused :
    (maximum n : ℕ)
    → is_refused maximum (record { moved = true; value = n; range_error = false; rest = [] })
      ≡ not (leb 1 n && leb n maximum)
in_range-is_refused maximum n = ground arith

-- A variable that holds the decimal text of a number below 2 ^ 64 sets that number where it is from 1 to
-- the maximum, and is refused with the range where it is not.
pub positive_environment-decimal :
    (getenv : Bytes → Option Bytes) (name : Bytes) (fallback maximum n : ℕ)
    → getenv name ≡ some (decimal n)
    → n < size_mod
    → positive_environment getenv name fallback maximum ≡ (
        if leb 1 n && leb n maximum
        then set n
        else wrong (name ++ codes " must be an integer between 1 and " ++ decimal maximum))
unfolding positive_environment
positive_environment-decimal getenv name fallback maximum n h small =
    elim (Bool-cases (leb 1 n && leb n maximum)) [
      | inl e ↦
          rw
            (
              h,
              given-nonempty _ (decimal-nonempty n),
              strtoull-decimal n small,
              in_range-is_refused maximum n,
              e,
            )
            refl
      | inr e ↦
          rw
            (
              h,
              given-nonempty _ (decimal-nonempty n),
              strtoull-decimal n small,
              in_range-is_refused maximum n,
              e,
            )
            refl
    ]
