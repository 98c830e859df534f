-- ===== src/Http/Chars.antt =====
-- What the HTTP code uses of the C and C++ libraries: character classes, trimming, `std::string`'s
-- searches with a start, and `strtoull`.
pub mod Numbers
use mathlib.Core.Option
use my_tiny_network_library.Base.{
  ℕ, ◌+◌, ◌-◌, ◌*◌, Bool, true, false, not, ◌&&◌, ◌||◌, [], ◌∷◌, map, Option, none, if◌then◌else◌,
  leb, ◌==◌, length, drop, Bytes, is_empty, find, break_at, size_mod,
}

abbrev pub within : ℕ → ℕ → ℕ → Bool
within lo hi c = leb lo c && leb c hi

-- `std::tolower` in the "C" locale
abbrev pub to_lower : ℕ → ℕ
to_lower c = if within b'A' b'Z' c then c + 32 else c

unfoldable pub lower : Bytes → Bytes
lower = map to_lower

-- `isspace` in the "C" locale: tab, newline, vertical tab, form feed, carriage return, blank
abbrev pub is_space : ℕ → Bool
is_space c = within 9 13 c || c == b' '

-- `" \t\r\n"`, the set of `trim`
abbrev pub is_blank : ℕ → Bool
is_blank c = c == b' ' || c == 9 || c == 13 || c == 10

-- drop the first characters of a class, then the last ones
unfoldable pub skip : (ℕ → Bool) → Bytes → Bytes
skip p [] = []
skip p (x ∷ xs) = if p x then skip p xs else x ∷ xs

unfoldable pub strip_end : (ℕ → Bool) → Bytes → Bytes
strip_end p [] = []
strip_end p (x ∷ xs) = let rest = strip_end p xs in if is_empty rest && p x then [] else x ∷ rest

-- `trim` of HttpContext.cc
unfoldable pub trim : Bytes → Bytes
trim value = strip_end is_blank (skip is_blank value)

-- `text.find(key, pos)`
unfoldable pub find_from : Bytes → ℕ → Bytes → Option ℕ
find_from key pos text =
    if leb pos (length text) then Option.map (◌+◌ pos) (find key (drop pos text)) else none

-- `value.c_str()`, as far as a C function reads it
unfoldable pub c_string : Bytes → Bytes
c_string value = (break_at 0 value).0

abbrev pub is_digit : ℕ → Bool
is_digit = within b'0' b'9'

-- The digits at the front: their number, what they denote, and what follows.
unfoldable pub scan_digits : ℕ → ℕ → Bytes → ℕ × ℕ × Bytes
scan_digits n acc [] = (n, acc, [])
scan_digits n acc (c ∷ cs) =
    let rest = scan_digits (n + 1) (acc * 10 + (c - b'0')) cs in
    if is_digit c then rest else (n, acc, c ∷ cs)

-- What `strtoull(text, &end, 10)` reports: whether it converted anything (`end` moved), its value,
-- `errno`, and the text from `end` on.
pub record Converted : Type 0 where
  pub moved : Bool
  pub value : ℕ
  pub range_error : Bool
  pub rest : Bytes

-- A minus sign negates the value as a 64-bit word.
unfoldable pub convert : Bool → Bytes → Bytes → Converted
convert negative whole digits =
    let (n, value, rest) = scan_digits 0 0 digits in
    if n == 0
    then record { moved = false; value = 0; range_error = false; rest = whole }
    else if leb size_mod value
    then record { moved = true; value = size_mod - 1; range_error = true; rest = rest }
    else record {
      moved = true;
      value = (if negative && not (value == 0) then size_mod - value else value);
      range_error = false;
      rest = rest;
    }

unfoldable pub signed_digits : Bytes → Bytes → Converted
signed_digits whole [] = convert false whole []
signed_digits whole (c ∷ cs) =
    if c == b'-'
    then convert true whole cs
    else if c == b'+'
    then convert false whole cs
    else convert false whole (c ∷ cs)

unfoldable pub strtoull : Bytes → Converted
strtoull text = signed_digits text (skip is_space text)
