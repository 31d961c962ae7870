-- ===== src/Base.antt =====
-- Names shared by every module: the libraries', passed on, and those of the children. `Words` has
-- the machine integers that the contracts compute with, `Maps` the key-value maps of the ledger.
mod Tests
mod Lists
mod Int
mod Words
mod Maps
pub use Tests.*
pub use Lists.*
pub use Int.*
pub use Words.*
unfoldable pub use Words.{checked_add_i128, checked_mul_i128, checked_sub_i128}
pub use Maps.*
pub use Prim.Native.Nat.{ℕ, zero, suc, ◌+◌, ◌-◌, ◌*◌, ◌/◌, ◌%◌, ◌^◌, ◌≤◌, ◌<◌, min, max}
pub use Prim.Native.String.{String}
pub use mathlib.Core.Path.{◌≡◌, refl, sym, ap, ◌∙◌}
pub use mathlib.Core.Logic.{◌≢◌, ◌↔◌, ◌⊎◌, inl, inr}
pub use mathlib.Core.Bool.{Bool, true, false, ◌&&◌, ◌||◌, not}
pub use mathlib.Core.Option.{Option, none, some}
pub use mathlib.Core.List.{List, [], ◌∷◌, ◌++◌}
pub use native.Mathlib.Omega.{arith}
