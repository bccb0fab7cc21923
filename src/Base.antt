-- ===== src/Base.antt =====
-- Shared names: the libraries' and those of the child modules.
mod Tests
mod Lists
pub mod Int
pub mod Keys
pub mod Maps
pub mod Sets
pub mod Words
pub mod Wire
pub mod Decimal
pub use Tests.*
pub use Lists.*
pub use Int.{ℤ, pos, negsuc}
pub use Keys.{Key, Text, codes, text_key, nat_key}
pub use Maps.{Map}
pub use Sets.{Set}
pub use Words.*
pub use Prim.Native.Nat.{ℕ, zero, suc, ◌+◌, ◌-◌, ◌*◌, ◌/◌, ◌%◌, ◌^◌, ◌≤◌, ◌<◌}
pub use mathlib.Core.Path.{◌≡◌, refl, sym, ap, ◌∙◌, subst}
pub use mathlib.Core.Logic.{◌≢◌, ◌↔◌, ◌⊎◌, inl, inr}
pub use mathlib.Core.Bool.{Bool, true, false, not, ◌&&◌, ◌||◌}
pub use mathlib.Core.Option.{Option, none, some}
pub use mathlib.Core.List.{List, [], ◌∷◌, ◌++◌, map}
pub use native.Mathlib.Omega.{arith}
