-- ===== src/Base/Maps.antt =====
-- Maps and stores as functions from numbers, with one place set.
use Prim.Native.Nat.{ℕ}
use mathlib.Core.Path.{◌≡◌}
use mathlib.Core.Logic.{◌≢◌}
use native.Mathlib.Omega.{arith}
use my_tiny_network_library.Base.Tests.{◌==◌, if◌then◌else◌}

module _ {ℓ} {A : Type ℓ} where
  unfoldable pub set : ℕ → A → (ℕ → A) → ℕ → A
  set place new old at = if at == place then new else old at

  pub set_here : (place : ℕ) (new : A) (old : ℕ → A) → set place new old place ≡ new
  unfolding set
  set_here place new old = ground arith

  pub set_elsewhere :
      (place at : ℕ) (new : A) (old : ℕ → A) → at ≢ place → set place new old at ≡ old at
  unfolding set
  set_elsewhere place at new old h = ground arith
