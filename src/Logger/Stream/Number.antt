-- ===== src/Logger/Stream/Number.antt =====
-- An integer in the log is its decimal text.
use my_tiny_network_library.Base.{
  ℕ, zero, suc, ◌+◌, ◌-◌, ◌/◌, ◌%◌, ◌<◌, ◌≤◌, ◌≡◌, refl, sym, ap, ◌∙◌, subst, arith, Bool, true,
  false, [], ◌∷◌, ◌++◌, ltb, leb, ◌==◌, Bytes, codes, length, get_elem?, take, drop, length-append,
  length-take, length-drop, take-append_eq, digits, decimal, length-digits, Bool-cases, inl, inr,
}
use my_tiny_network_library.Logger.Fixed.{FixedBuffer, IsFixed, avail, written}
use my_tiny_network_library.Logger.Stream.{
  max_numeric_size, digit_table, or_zero, digit_at, low_digits, reverse, number_text,
  format_integer,
}

table_back : (r : ℕ) → r < 10 → or_zero (get_elem? digit_table (9 - r)) ≡ 48 + r
table_back zero h = refl
table_back (suc zero) h = refl
table_back (suc (suc zero)) h = refl
table_back (suc (suc (suc zero))) h = refl
table_back (suc (suc (suc (suc zero)))) h = refl
table_back (suc (suc (suc (suc (suc zero))))) h = refl
table_back (suc (suc (suc (suc (suc (suc zero)))))) h = refl
table_back (suc (suc (suc (suc (suc (suc (suc zero))))))) h = refl
table_back (suc (suc (suc (suc (suc (suc (suc (suc zero)))))))) h = refl
table_back (suc (suc (suc (suc (suc (suc (suc (suc (suc zero))))))))) h = refl
table_back (suc (suc (suc (suc (suc (suc (suc (suc (suc (suc n)))))))))) h =
    absurd (omega (arith, h))

table_on : (r : ℕ) → r < 10 → or_zero (get_elem? digit_table (9 + r)) ≡ 48 + r
table_on zero h = refl
table_on (suc zero) h = refl
table_on (suc (suc zero)) h = refl
table_on (suc (suc (suc zero))) h = refl
table_on (suc (suc (suc (suc zero)))) h = refl
table_on (suc (suc (suc (suc (suc zero))))) h = refl
table_on (suc (suc (suc (suc (suc (suc zero)))))) h = refl
table_on (suc (suc (suc (suc (suc (suc (suc zero))))))) h = refl
table_on (suc (suc (suc (suc (suc (suc (suc (suc zero)))))))) h = refl
table_on (suc (suc (suc (suc (suc (suc (suc (suc (suc zero))))))))) h = refl
table_on (suc (suc (suc (suc (suc (suc (suc (suc (suc (suc n)))))))))) h = absurd (omega (arith, h))

digit_at-eq : (negative : Bool) (r : ℕ) → r < 10 → digit_at negative r ≡ 48 + r
unfolding digit_at
digit_at-eq true r h = table_back r h
digit_at-eq false r h = table_on r h

reverse-low_digits :
    (negative : Bool) (fuel n : ℕ) → reverse (low_digits negative fuel n) ≡ digits fuel n
unfolding low_digits digits
reverse-low_digits negative zero n = refl
reverse-low_digits negative (suc fuel) n = elim (Bool-cases (ltb n 10)) [
  | inl e ↦
      let one : (n / 10 == 0) ≡ true = ground (arith, e) in
      let last : digit_at negative (n % 10) ≡ 48 + n =
        digit_at-eq negative (n % 10) (omega arith) ∙ ground (arith, e) in
      rw (e, one, last) refl
  | inr e ↦
      let more : (n / 10 == 0) ≡ false = ground (arith, e) in
      let last : digit_at negative (n % 10) ≡ 48 + n % 10 =
        digit_at-eq negative (n % 10) (omega arith) in
      rw (e, more, last, reverse-low_digits negative fuel (n / 10)) refl
]

reverse-append : (text : Bytes) (c : ℕ) → reverse (text ++ c ∷ []) ≡ c ∷ reverse text
reverse-append [] c = refl
reverse-append (d ∷ text) c = ap (λ l. l ++ d ∷ []) (reverse-append text c)

-- the decimal text of an integer, given by its sign and its size
abbrev pub signed_decimal : Bool → ℕ → Bytes
signed_decimal true num = codes "-" ++ decimal num
signed_decimal false num = decimal num

number_text-decimal :
    (negative : Bool) (num : ℕ) → number_text negative num ≡ signed_decimal negative num
unfolding number_text decimal
number_text-decimal true num =
    reverse-append (low_digits true (num + 1) num) 45
    ∙ ap (λ l. 45 ∷ l) (reverse-low_digits true (num + 1) num)
number_text-decimal false num = reverse-low_digits false (num + 1) num

length-signed_decimal :
    (negative : Bool) (num : ℕ)
    → num ≤ 18446744073709551616
    → length (signed_decimal negative num) ≤ 21
unfolding decimal
length-signed_decimal true num h = omega (arith, length-digits 19 (num + 1) num (omega (arith, h)))
length-signed_decimal false num h = omega (arith, length-digits 19 (num + 1) num (omega (arith, h)))

format_integer-room :
    (negative : Bool) (num : ℕ) (b : FixedBuffer)
    → max_numeric_size ≤ avail b
    → let text = number_text negative num in
      format_integer negative num b ≡ (record {
        data_ = (take b.cur b.data_ ++ text) ++ 0 ∷ drop (b.cur + length text + 1) b.data_;
        cur = b.cur + length text;
      })
unfolding format_integer
format_integer-room negative num b h =
    let fits : leb max_numeric_size (avail b) ≡ true = ground (arith, h) in rw fits refl

-- Where 48 bytes are free, `formatInteger` adds exactly the decimal text of the number, its sign in
-- front, behind what the buffer holds, and the array keeps its size; for every integer of 64 bits,
-- signed or not.
pub format_integer-signed_decimal :
    (size : ℕ) (negative : Bool) (num : ℕ) (b : FixedBuffer)
    → IsFixed size b
    → max_numeric_size ≤ avail b
    → num ≤ 18446744073709551616
    → IsFixed size (format_integer negative num b)
      × (written (format_integer negative num b) ≡ written b ++ signed_decimal negative num)
unfolding avail
format_integer-signed_decimal size negative num b v room small =
    let text = number_text negative num in
    let same = number_text-decimal negative num in
    let short : length text ≤ 21 =
      subst (λ t. length t ≤ 21) (sym same) (length-signed_decimal negative num small) in
    let front : length (take b.cur b.data_ ++ text) ≡ b.cur + length text = omega (
      arith,
      length-append (take b.cur b.data_) text,
      length-take b.cur b.data_,
      v.sized,
      v.within,
    ) in
    let rest = drop (b.cur + length text + 1) b.data_ in
    subst (λ a. IsFixed size a × (written a ≡ written b ++ signed_decimal negative num))
      (sym (format_integer-room negative num b room))
      (
        record {
          sized = omega (
            arith,
            front,
            room,
            short,
            v.sized,
            length-append (take b.cur b.data_ ++ text) (0 ∷ rest),
            length-drop (b.cur + length text + 1) b.data_,
          );
          within = omega (arith, room, short, v.sized, v.within);
        },
        take-append_eq (take b.cur b.data_ ++ text) (0 ∷ rest) (b.cur + length text) front
            ∙ ap (λ t. take b.cur b.data_ ++ t) same,
      )
