-- ===== src/Base/Text.antt =====
-- Byte strings: `std::string` and ranges of `char`, as lists of byte values.
use Prim.Native.Nat.{ℕ, suc}
use Prim.Native.Char.{code}
use Prim.Native.String.{String}
use mathlib.Core.Path.{◌≡◌, refl}
use mathlib.Core.Logic.{◌↔◌}
use mathlib.Core.Bool.{Bool, true, false, ◌&&◌}
use mathlib.Core.List.{List, [], ◌∷◌}
use native.Mathlib.Omega.{arith}
use mathlib.Core.Option
use mathlib.Core.Option.{Option, none, some}
use my_tiny_network_library.Base.Tests.{◌==◌, if◌then◌else◌}

abbrev pub Bytes : Type 0
Bytes = List ℕ

-- the bytes of an ASCII literal
abbrev pub codes : String → Bytes
codes String.[] = []
codes (String.◌∷◌ c s) = code c ∷ codes s

-- `empty()`
abbrev pub is_empty : Bytes → Bool
is_empty [] = true
is_empty (_ ∷ _) = false

pub is_empty_iff : (text : Bytes) → (is_empty text ≡ true) ↔ (text ≡ [])
is_empty_iff [] = ground arith
is_empty_iff (_ ∷ _) = ground arith

-- `==` of two strings
unfoldable pub equal : Bytes → Bytes → Bool
equal [] text = is_empty text
equal (_ ∷ _) [] = false
equal (c ∷ rest) (d ∷ text) = if c == d then equal rest text else false

pub equal_iff : (left right : Bytes) → (equal left right ≡ true) ↔ (left ≡ right)
unfolding equal
equal_iff [] [] = ground arith
equal_iff [] (_ ∷ _) = ground arith
equal_iff (_ ∷ _) [] = ground arith
equal_iff (c ∷ rest) (d ∷ text) = let same = equal_iff rest text in ground arith

pub equal_refl : (a : Bytes) → equal a a ≡ true
equal_refl a = (equal_iff a a).1 refl

pub equal_comm : (a b : Bytes) → equal a b ≡ equal b a
equal_comm a b = ground (arith, equal_iff a b, equal_iff b a)

-- does the second string begin with the first?
unfoldable pub starts_with : Bytes → Bytes → Bool
starts_with [] ys = true
starts_with (x ∷ xs) [] = false
starts_with (x ∷ xs) (y ∷ ys) = x == y && starts_with xs ys

-- `std::search` and `std::string::find` with a string: the offset of the first occurrence
unfoldable pub find : Bytes → Bytes → Option ℕ
unfolding starts_with
find key [] = if is_empty key then some 0 else none
find key (x ∷ xs) = if starts_with key (x ∷ xs) then some 0 else Option.map suc (find key xs)

-- `std::find` for one character: what stands before it, and what follows it if it is there
unfoldable pub break_at : ℕ → Bytes → Bytes × Option Bytes
break_at c [] = ([], none)
break_at c (x ∷ xs) =
    if x == c then ([], some xs) else (let (before, after) = break_at c xs in (x ∷ before, after))
