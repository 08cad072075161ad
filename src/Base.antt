-- ===== src/Base.antt =====
-- The names that the other modules share.
pub mod Logic
pub mod Lists
pub mod Maps
pub mod Int
pub mod Text
unfoldable pub use Logic.{same_id}
unfoldable pub use Lists.{one_if, count}
pub use Logic.*
pub use Lists.*
unfoldable pub use Maps.{lookup, insert, remove, has}
pub use Maps.*
pub use Int.*
pub use Prim.Native.Nat.{ℕ, zero, suc, ◌+◌, ◌-◌, ◌*◌, ◌/◌, ◌%◌, ◌^◌, ◌≤◌, ◌<◌}
pub use Prim.Native.String.{String}
pub use mathlib.Core.Path.{◌≡◌, refl, sym, ap, ◌∙◌, subst}
pub use mathlib.Core.Logic.{◌≢◌, ◌↔◌, ◌⊎◌, inl, inr}
pub use mathlib.Core.Bool.{Bool, true, false, not, ◌&&◌, ◌||◌}
pub use mathlib.Core.Option.{Option, none, some}
pub use mathlib.Core.List.{List, [], ◌∷◌, ◌++◌, map}
pub use native.Mathlib.Omega.{arith}
