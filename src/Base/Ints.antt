-- ===== src/Base/Ints.antt =====
-- Signed numbers (`int`) over the native ℕ; the source only compares them and stores them.
use Prim.Native.Nat.{ℕ}
use mathlib.Core.Path.{◌≡◌}
use mathlib.Core.Bool.{Bool, true, false}
use native.Mathlib.Omega.{arith}
use my_tiny_network_library.Base.Tests.{ltb, ◌==◌}

-- `negsuc n` is −(n + 1)
pub data ℤ : Type 0 where
  pos negsuc : ℕ → ℤ

-- `a < b`
unfoldable pub less : ℤ → ℤ → Bool
less (pos a) (pos b) = ltb a b
less (pos a) (negsuc b) = false
less (negsuc a) (pos b) = true
less (negsuc a) (negsuc b) = ltb b a

-- `==` of two `int`s
unfoldable pub same_int : ℤ → ℤ → Bool
same_int (pos a) (pos b) = a == b
same_int (negsuc a) (negsuc b) = a == b
same_int _ _ = false

pub less_irrefl : (a : ℤ) → less a a ≡ false
unfolding less
less_irrefl (pos a) = ground arith
less_irrefl (negsuc a) = ground arith

pub less_trans : (a b c : ℤ) → less a b ≡ true → less b c ≡ true → less a c ≡ true
unfolding less
less_trans (pos a) (pos b) (pos c) h k = ground arith
less_trans (pos a) (pos b) (negsuc c) h k = ground arith
less_trans (pos a) (negsuc b) c h k = ground arith
less_trans (negsuc a) (pos b) (pos c) h k = ground arith
less_trans (negsuc a) (pos b) (negsuc c) h k = ground arith
less_trans (negsuc a) (negsuc b) (pos c) h k = ground arith
less_trans (negsuc a) (negsuc b) (negsuc c) h k = ground arith

-- what `a` does not beat is beaten by all that `a` is beaten by
pub less_mixed : (a b c : ℤ) → less a b ≡ false → less a c ≡ true → less b c ≡ true
unfolding less
less_mixed (pos a) (pos b) (pos c) h k = ground arith
less_mixed (pos a) (negsuc b) (pos c) h k = ground arith
less_mixed (pos a) b (negsuc c) h k = ground arith
less_mixed (negsuc a) (pos b) c h k = ground arith
less_mixed (negsuc a) (negsuc b) (pos c) h k = ground arith
less_mixed (negsuc a) (negsuc b) (negsuc c) h k = ground arith
