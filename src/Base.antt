-- ===== src/Base.antt =====
-- What the components share: names of the libraries, passed on, the Boolean tests, byte lists
-- measured by native numbers, and memory as lists of bytes.
mod Tests
mod Lists
mod Memory
mod Bytes
pub mod Modular
pub mod Record
pub mod Bits
pub mod Returns
pub use Tests.*
pub use Lists.*
pub use Memory.*
unfoldable pub use Bytes.*
pub use Prim.Native.Nat.{
  ℕ, zero, suc, ◌+◌, ◌-◌, ◌*◌, ◌/◌, ◌%◌, ◌^◌, ◌≤◌, ◌<◌, min, bit_and, bit_or, bit_xor,
}
pub use mathlib.Core.Path.{◌≡◌, refl, sym, ap, ◌∙◌, subst}
pub use mathlib.Core.Logic.{◌≢◌, ◌↔◌, ◌⊎◌, inl, inr}
pub use mathlib.Core.Bool.{Bool, true, false, not, ◌&&◌, ◌||◌}
pub use mathlib.Core.Option.{Option, none, some}
pub use mathlib.Core.List.{List, [], ◌∷◌, ◌++◌, append-nil, append_assoc}
pub use native.Mathlib.Omega.{arith}
