-- ===== src/Base.antt =====
-- The names that the other modules share: the libraries', passed on, and those of the children.
mod Tests
mod Lists
mod Int
mod Text
mod Maps
mod Outcomes
pub use Tests.*
pub use Lists.*
pub use Int.*
unfoldable pub use Text.{◌==◌, split, has_prefix, trim_slashes, join}
pub use Text.{Str, text, slash, eq_iff, eq_refl, eq-cases, ne_of_false}
unfoldable pub use Maps.{lookup, insert, delete, contains}
pub use Maps.{
  Dict, keys, lookup-insert, lookup-delete, IsMap, insert-IsMap, delete-IsMap, ne_swap, dict_laws,
  contains-lookup, contains-insert, contains-delete, lookup-insert_self,
}
pub use Outcomes.*
pub use Prim.Native.Nat.{ℕ, zero, suc, ◌+◌, ◌-◌, ◌*◌, ◌/◌, ◌%◌, ◌^◌, ◌≤◌, ◌<◌}
pub use mathlib.Core.Path.{◌≡◌, refl, sym, ap, ap₂, ◌∙◌, subst, subst₂}
pub use mathlib.Core.Logic.{◌≢◌, ◌↔◌, ◌⊎◌, inl, inr}
pub use mathlib.Core.Bool.{Bool, true, false, ◌&&◌, ◌||◌, not}
pub use mathlib.Core.Option.{Option, none, some}
pub use mathlib.Core.List.{List, [], ◌∷◌, ◌++◌, map}
pub use native.Mathlib.Omega.{arith}
