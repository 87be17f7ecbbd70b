-- ===== src/Base.antt =====
-- The names that the modules share: the libraries', passed on, and those of the children.
mod Tests
mod Equality
mod Lists
mod Results
pub mod Int
pub mod Dict
pub mod Exec
pub use Tests.*
pub use Equality.{Eq, ◌===◌, nat_eq, bool_eq, text_eq, pair_eq, Text, text, text_beq_iff}
pub use Equality.{decided_iff, bool_beq}
unfoldable pub use Equality.{text_beq, decided}
pub use Lists.*
pub use Results.*
pub use Int.{ℤ, pos, negsuc, int_eq, is_positive}
pub use Prim.Native.Nat.{bit_xor, ℕ, zero, suc, ◌+◌, ◌-◌, ◌*◌, ◌/◌, ◌%◌, ◌^◌, ◌≤◌, ◌<◌}
pub use Prim.Native.String.{String}
pub use mathlib.Core.Path.{◌≡◌, refl, sym, ap, ◌∙◌, subst}
pub use mathlib.Core.Logic.{◌≢◌, ◌↔◌, ◌⊎◌, inl, inr}
pub use mathlib.Core.Bool.{Bool, true, false, not, ◌&&◌, ◌||◌}
pub use mathlib.Core.Option.{Option, none, some}
pub use mathlib.Core.List.{List, [], ◌∷◌, ◌++◌, map, append-nil, append_assoc}
pub use native.Mathlib.Omega.{arith}
