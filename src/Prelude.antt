-- ===== src/Prelude.antt =====
-- The names that the other modules share: the libraries', passed on, and those of the children.
mod Tests
mod Lists
mod Texts
mod Split
mod Maps
mod Results
mod Rows
mod Distinct
pub use Tests.*
pub use Lists.*
pub use Texts.*
pub use Split.*
pub use Maps.*
pub use Results.*
pub use Rows.*
pub use Distinct.*
unfoldable pub use Split.{split, join, trim}
unfoldable pub use Maps.{find, set}
unfoldable pub use Lists.{take, drop}
unfoldable pub use Texts.{text_eq}
unfoldable pub use Distinct.{is_seen}
unfoldable pub use Rows.{rows_where, count_where, first_where, delete_where, update_where}
pub use Prim.Native.Nat.{ℕ, zero, suc, ◌+◌, ◌-◌, ◌*◌, ◌/◌, ◌≤◌, ◌<◌, min}
pub use Prim.Native.String.{String}
pub use mathlib.Core.Path.{◌≡◌, refl, sym, ap, ◌∙◌, subst}
pub use mathlib.Core.Logic.{◌≢◌, ◌↔◌, ◌⊎◌, inl, inr}
pub use mathlib.Core.Bool.{Bool, true, false, not, ◌&&◌, ◌||◌}
pub use mathlib.Core.Option.{Option, none, some}
pub use mathlib.Core.List.{List, [], ◌∷◌, ◌++◌, map, Memᴰ}
pub use native.Mathlib.Omega.{arith}
