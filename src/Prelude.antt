-- ===== src/Prelude.antt =====
-- The names that the other modules share: the libraries', passed on, and those of the children.
mod Tests
mod Lists
pub mod Order
pub mod Int
pub mod Maps
pub use Tests.*
pub use Lists.*
pub use Prim.Native.Nat.{ℕ, zero, suc, ◌+◌, ◌-◌, ◌*◌, ◌/◌, ◌%◌, ◌^◌, ◌≤◌, ◌<◌, min, max}
pub use mathlib.Core.Path.{◌≡◌, refl, sym, ap, subst, ◌∙◌}
pub use mathlib.Core.Logic.{◌≢◌, ◌↔◌, ◌⊎◌, inl, inr}
pub use mathlib.Core.Bool.{Bool, true, false, not, ◌&&◌, ◌||◌}
pub use mathlib.Core.Option.{Option, none, some}
pub use mathlib.Core.List.{List, [], ◌∷◌, ◌++◌, map, append-nil, append_assoc, map-append}
pub use native.Mathlib.Omega.{arith}
pub use Int.{ℤ, pos, negsuc, ◌==ℤ◌, ◌<ℤ◌, ==ℤ_iff, succℤ, ℤ-eq}
pub use Order.{Eq, beq, bytes_eq, bytes_eq_iff, ℕ-eq, bytes-eq}
unfoldable pub use Maps.{lookup, insert, contains, erase, add}
pub use Maps.{lookup-insert, lookup-insert_self, contains-erase, contains-add}
