-- ===== src/Logger/Stream.antt =====
-- src/logger/LogStream.h and LogStream.cc: how integers and texts go into the buffer of a line. An
-- integer is its sign with its size.
pub mod Number
use my_tiny_network_library.Base.{
  ℕ, zero, suc, ◌+◌, ◌-◌, ◌/◌, ◌%◌, Bool, true, false, List, [], ◌∷◌, ◌++◌, Option, none, some,
  if◌then◌else◌, leb, ◌==◌, Bytes, codes, length, take, drop, get_elem?,
}
use my_tiny_network_library.Logger.Fixed.{FixedBuffer, avail, append}

abbrev pub max_numeric_size : ℕ
max_numeric_size = 48

-- the table `digits`, which also serves negative remainders
abbrev pub digit_table : Bytes
digit_table = codes "9876543210123456789"

abbrev pub or_zero : Option ℕ → ℕ
or_zero none = 0
or_zero (some c) = c

-- `zero[remainder]`, where the remainder has the sign of the number
unfoldable pub digit_at : Bool → ℕ → ℕ
digit_at negative remainder =
    or_zero (get_elem? digit_table (if negative then 9 - remainder else 9 + remainder))

-- the digits from the last to the first, with a round of fuel for each
unfoldable pub low_digits : Bool → ℕ → ℕ → Bytes
low_digits negative zero num = []
low_digits negative (suc fuel) num =
    let more = low_digits negative fuel (num / 10) in
    digit_at negative (num % 10) ∷ (if num / 10 == 0 then [] else more)

-- `std::reverse`
abbrev pub reverse : Bytes → Bytes
reverse [] = []
reverse (c ∷ text) = reverse text ++ c ∷ []

unfoldable pub number_text : Bool → ℕ → Bytes
number_text negative num =
    let low = low_digits negative (num + 1) num in
    reverse (if negative then low ++ codes "-" else low)

-- The text and the zero behind it stand in the array, and the pointer moves behind the text.
unfoldable pub format_integer : Bool → ℕ → FixedBuffer → FixedBuffer
format_integer negative num b =
    let text = number_text negative num in
    if leb max_numeric_size (avail b)
    then record {
      data_ = (take b.cur b.data_ ++ text) ++ 0 ∷ drop (b.cur + length text + 1) b.data_;
      cur = b.cur + length text;
    }
    else b

-- `operator<<` of a pointer to characters, and of a character
unfoldable pub put_text : Option Bytes → FixedBuffer → FixedBuffer
put_text none b = append (codes "(null)") b
put_text (some text) b = append text b

unfoldable pub put_char : ℕ → FixedBuffer → FixedBuffer
put_char c b = append (c ∷ []) b
