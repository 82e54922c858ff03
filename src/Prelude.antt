-- ===== src/Prelude.antt =====
-- The names that the other modules share: the libraries', passed on, and those of the children.
mod Tests
mod Lists
mod Cuts
mod Kept
mod Results
mod Texts
mod Ints
pub mod Sorting
pub use Tests.*
pub use Lists.*
pub use Cuts.*
pub use Kept.*
pub use Results.*
pub use Ints.*
unfoldable pub use Texts.{text_eq, lookup, insert}
pub use Texts.{
  Text, codes, text_eq_iff, text_eq_refl, text_eq_comm, Distinct, Distinct-update_where,
  Distinct-keep, Distinct-append, find_unique, lookup-insert,
}
pub use Prim.Native.Nat.{ℕ, zero, suc, ◌+◌, ◌-◌, ◌*◌, ◌/◌, ◌%◌, ◌^◌, ◌≤◌, ◌<◌}
pub use mathlib.Core.Path.{◌≡◌, refl, sym, ap, ◌∙◌}
pub use mathlib.Core.Logic.{◌≢◌, ◌↔◌, ◌⊎◌, inl, inr}
pub use mathlib.Core.Bool.{Bool, true, false, not, ◌&&◌, ◌||◌}
pub use mathlib.Core.Option.{Option, none, some}
pub use mathlib.Core.List.{List, [], ◌∷◌, ◌++◌, map, append-nil, append_assoc}
pub use native.Mathlib.Omega.{arith}
