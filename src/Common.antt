-- ===== src/Common.antt =====
-- The names that all modules share: the libraries', passed on, the comparisons and the conditional
-- of C, arrays as lists, the bits of machine words and their bytes.
mod Tests
mod Lists
mod Slices
mod Bits
mod Masks
mod Words
mod Options
mod Bytes
pub use Tests.*
pub use Lists.*
pub use Slices.*
unfoldable pub use Bits.*
pub use Masks.*
pub use Words.*
pub use Bytes.*
pub use Options.*
pub use Prim.Native.Nat.{ℕ, zero, suc, ◌+◌, ◌-◌, ◌*◌, ◌/◌, ◌%◌, ◌^◌, ◌≤◌, ◌<◌, min}
pub use Prim.Native.Nat.{bit_and, bit_or, bit_xor}
pub use mathlib.Core.Path.{◌≡◌, refl, sym, ap, ◌∙◌}
pub use mathlib.Core.Logic.{◌≢◌, ◌↔◌, ◌⊎◌, inl, inr}
pub use mathlib.Core.Bool.{Bool, true, false, not, ◌&&◌, ◌||◌}
pub use mathlib.Core.Option.{Option, none, some}
pub use mathlib.Core.List.{List, [], ◌∷◌, ◌++◌, map}
pub use native.Mathlib.Omega.{arith}
