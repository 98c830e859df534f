-- ===== src/Base/Words.antt =====
-- `size_t` arithmetic: 64-bit words with their wrap-around.
use Prim.Native.Nat.{ℕ, ◌+◌, ◌-◌, ◌%◌, ◌^◌, ◌≤◌, ◌<◌}
use mathlib.Core.Path.{◌≡◌}
use native.Mathlib.Omega.{arith}

abbrev pub size_mod : ℕ
size_mod = 2 ^ 64

-- the most bytes that a `std::vector<char>` can hold
abbrev pub max_size : ℕ
max_size = 2 ^ 63 - 1

unfoldable pub add_size : ℕ → ℕ → ℕ
add_size a b = (a + b) % size_mod

unfoldable pub sub_size : ℕ → ℕ → ℕ
sub_size a b = (a + size_mod - b) % size_mod

pub add_size-eq : (a b : ℕ) → a + b < size_mod → add_size a b ≡ a + b
unfolding add_size
add_size-eq a b h = omega arith

pub sub_size-eq : (a b : ℕ) → b ≤ a → a < size_mod → sub_size a b ≡ a - b
unfolding sub_size
sub_size-eq a b h k = omega arith
