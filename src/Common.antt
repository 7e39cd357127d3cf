-- ===== src/Common.antt =====
-- The names that the other modules share: the libraries', passed on, and those of the children.
mod Tests
mod Int
mod Equality
mod Outcome
mod Lists
mod Table
mod Wrap
mod Seen
pub use Tests.*
unfoldable pub use Int.{ltb_ℤ, leb_ℤ, beq_ℤ, ◌+ℤ◌, ◌-ℤ◌, wrap64, add64, sub64}
pub use Int.*
pub use Equality.*
pub use Outcome.*
pub use Lists.*
pub use Wrap.*
unfoldable pub use Seen.{contains, loop_distinct}
pub use Seen.*
unfoldable pub use Table.{all_below}
pub use Table.{all_below_sound}
pub use Prim.Native.Nat.{ℕ, zero, suc, ◌+◌, ◌-◌, ◌*◌, ◌/◌, ◌%◌, ◌^◌, ◌≤◌, ◌<◌}
pub use Prim.Native.String.{String}
pub use mathlib.Core.Path.{◌≡◌, refl, sym, ap, ◌∙◌}
pub use mathlib.Core.Logic.{◌≢◌, ◌↔◌, ◌⊎◌, inl, inr}
pub use mathlib.Core.Bool.{Bool, true, false, not, ◌&&◌, ◌||◌}
pub use mathlib.Core.Option.{Option, none, some}
pub use mathlib.Core.List.{List, [], ◌∷◌, ◌++◌, map}
pub use native.Mathlib.Omega.{arith}
pub use text.Mathlib.TextEquality.{eq_iff}
