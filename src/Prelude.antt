-- ===== src/Prelude.antt =====
-- The names that the other modules share: the libraries', passed on, and the tests, lists and
-- tables of the children.
mod Tests
mod Lists
mod Table
mod Int
pub mod TextOrder
mod TextSets
pub use Tests.*
pub use Lists.*
pub use Table.*
unfoldable pub use TextSets.{insert_text, sorted_set, insert_sorted_text, sorted_texts}
pub use TextSets.{Above, Ascending, sorted_set-Ascending, Member-sorted_set, Ascending-unique}
pub use Int.*
pub use Prim.Native.Nat.{ℕ, zero, suc, ◌+◌, ◌-◌, ◌*◌, ◌≤◌, ◌<◌}
pub use Prim.Native.String.{String}
pub use mathlib.Core.Path.{◌≡◌, refl, sym, subst, ap, ◌∙◌}
pub use mathlib.Core.Logic.{◌≢◌, ◌↔◌, ◌⊎◌, inl, inr}
pub use mathlib.Core.Bool.{Bool, true, false, not, ◌&&◌, ◌||◌}
pub use mathlib.Core.Option.{Option, none, some}
pub use mathlib.Core.List.{List, [], ◌∷◌, ◌++◌, map}
pub use native.Mathlib.Omega.{arith}
