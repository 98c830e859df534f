-- ===== src/Base.antt =====
-- The names that every module shares: those of the libraries, and the children's helpers on tests,
-- lists, texts and words.
mod Tests
mod Lists
mod Split
mod Find
mod Text
mod Words
mod Ints
mod Maps
mod Decimal
pub use Tests.*
pub use Lists.*
pub use Split.*
pub use Find.*
unfoldable pub use Text.*
unfoldable pub use Words.*
unfoldable pub use Ints.*
unfoldable pub use Maps.*
unfoldable pub use Decimal.*
pub use Prim.Native.Nat.{ℕ, zero, suc, ◌+◌, ◌-◌, ◌*◌, ◌/◌, ◌%◌, ◌^◌, ◌≤◌, ◌<◌, min, max}
pub use mathlib.Core.Path.{◌≡◌, refl, sym, ap, ap₂, ◌∙◌, subst, fun_ext}
pub use mathlib.Core.Logic.{◌≢◌, ◌↔◌, ◌⊎◌, inl, inr}
pub use mathlib.Core.Bool.{Bool, true, false, not, ◌&&◌, ◌||◌}
pub use mathlib.Core.Option.{Option, none, some}
pub use mathlib.Core.List.{List, [], ◌∷◌, ◌++◌, map, append-nil, append_assoc}
pub use native.Mathlib.Omega.{arith}
