-- ===== src/Http/Chars/Numbers.antt =====
-- `strtoull` reads the decimal text of a number.
use my_tiny_network_library.Base.{
  ℕ, zero, suc, ◌+◌, ◌-◌, ◌*◌, ◌/◌, ◌%◌, ◌<◌, ◌≡◌, ◌≢◌, refl, sym, ap, ◌∙◌, subst, arith, true,
  false, [], ◌∷◌, ◌++◌, leb, ltb, ◌==◌, length, Bytes, All, All-append, size_mod, Bool-cases, inl,
  inr, digits, decimal, number_from, number_from-decimal,
}
use my_tiny_network_library.Http.Chars.{
  is_digit, is_space, skip, scan_digits, convert, signed_digits, strtoull,
}

abbrev IsDigit : ℕ → Type 0
IsDigit c = is_digit c ≡ true

digits-IsDigit : (fuel n : ℕ) → All IsDigit (digits fuel n)
unfolding digits
digits-IsDigit zero n = tt
digits-IsDigit (suc fuel) n = elim (Bool-cases (ltb n 10)) [
  | inl e ↦ rw e (ground (arith, e), tt)
  | inr e ↦ rw e (
      All-append IsDigit (digits fuel (n / 10)) _ (digits-IsDigit fuel (n / 10)) (ground arith, tt))
]

scan_digits-IsDigit :
    (n acc : ℕ) (text : Bytes)
    → All IsDigit text
    → scan_digits n acc text ≡ (n + length text, number_from acc text, [])
unfolding scan_digits number_from
scan_digits-IsDigit n acc [] h = grind arith
scan_digits-IsDigit n acc (c ∷ text) h =
    let rest = scan_digits-IsDigit (n + 1) (acc * 10 + (c - 48)) text h.1 in
    let same : n + 1 + length text ≡ n + suc (length text) = omega arith in
    rw h.0 (rest ∙ ap (λ k. (k, number_from (acc * 10 + (c - 48)) text, [])) same)

-- the text of a number has a digit at least
digits-nonempty : (fuel n : ℕ) → digits (suc fuel) n ≢ []
unfolding digits
digits-nonempty fuel n = elim (Bool-cases (ltb n 10)) [
  | inl e ↦ rw e (λ h. cc h)
  | inr e ↦ rw e (behind (digits fuel (n / 10)) (48 + n % 10))
]
  where
    behind : (text : Bytes) (c : ℕ) → text ++ c ∷ [] ≢ []
    behind [] c = λ h. cc h
    behind (d ∷ text) c = λ h. cc h

pub decimal-nonempty : (n : ℕ) → decimal n ≢ []
unfolding decimal
decimal-nonempty n =
    let same : suc n ≡ n + 1 = omega arith in
    subst (λ k. digits k n ≢ []) same (digits-nonempty n n)

-- no blank and no sign before a digit
strtoull-convert :
    (text : Bytes) → text ≢ [] → All IsDigit text → strtoull text ≡ convert false text text
unfolding strtoull skip signed_digits
strtoull-convert [] ne h = absurd (ne refl)
strtoull-convert (c ∷ text) ne h =
    let no_space : is_space c ≡ false = ground (arith, h.0) in
    let no_minus : (c == b'-') ≡ false = ground (arith, h.0) in
    let no_plus : (c == b'+') ≡ false = ground (arith, h.0) in rw (no_space, no_minus, no_plus) refl

convert-digits :
    (text : Bytes)
    → text ≢ []
    → All IsDigit text
    → number_from 0 text < size_mod
    → convert false text text
      ≡ record { moved = true; value = number_from 0 text; range_error = false; rest = [] }
unfolding convert
convert-digits [] ne h small = absurd (ne refl)
convert-digits (c ∷ text) ne h small =
    let some_digit : (0 + length (c ∷ text) == 0) ≡ false = ground arith in
    let fits : leb size_mod (number_from 0 (c ∷ text)) ≡ false = ground (arith, small) in
    rw (scan_digits-IsDigit 0 0 (c ∷ text) h, some_digit, fits) refl

-- `strtoull` reads the decimal text of a number below 2 ^ 64 as the number, to the end of the text.
pub strtoull-decimal :
    (n : ℕ)
    → n < size_mod
    → strtoull (decimal n) ≡ record { moved = true; value = n; range_error = false; rest = [] }
unfolding decimal
strtoull-decimal n small =
    let text = digits (n + 1) n in
    let ds = digits-IsDigit (n + 1) n in
    let ne : text ≢ [] = decimal-nonempty n in
    let number : number_from 0 text ≡ n = number_from-decimal n in
    strtoull-convert text ne ds
    ∙ convert-digits text ne ds (subst (λ k. k < size_mod) (sym number) small)
    ∙ ap (λ k. record { moved = true; value = k; range_error = false; rest = [] }) number
