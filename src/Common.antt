-- ===== src/Common.antt =====
-- Names that every part shares: the libraries' and those of the children, passed on.
mod Tests
mod Lists
mod Int
pub mod Maps
pub use Tests.*
unfoldable pub use Tests.{all_below}
unfoldable pub use Lists.{any, filter_by, eq_list}
pub use Lists.*
pub use Int.*
unfoldable pub use Int.{sub_ℕ, ◌+ℤ◌, ◌-ℤ◌}
pub use Prim.Native.Nat.{ℕ, zero, suc, ◌+◌, ◌-◌, ◌*◌, ◌/◌, ◌%◌, ◌^◌, ◌≤◌, ◌<◌, min, max}
pub use mathlib.Core.Path.{◌≡◌, refl, sym, ap, ◌∙◌}
pub use mathlib.Core.Logic.{◌≢◌, ◌↔◌, ◌⊎◌, inl, inr}
pub use mathlib.Core.Bool.{Bool, true, false, ◌&&◌, ◌||◌}
pub use mathlib.Core.Option.{Option, none, some}
pub use mathlib.Core.List.{List, [], ◌∷◌, ◌++◌, map, append_assoc, append-nil}
pub use native.Mathlib.Omega.{arith}
