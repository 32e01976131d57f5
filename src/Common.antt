-- ===== src/Common.antt =====
-- The names that the other modules share: those of the libraries, passed on, and those of the
-- children Tests (Boolean tests), Lists (lists over the native numbers) and Store (return
-- codes and memory). Bits is about masks and shifts, Removed about lists of distinct objects,
-- Rings about linked lists in memory.
mod Tests
mod Lists
mod Store
pub mod Bits
pub mod Removed
pub mod Rings
pub use Tests.*
pub use Lists.*
pub use Store.{Ret, ret, fail, failed, update_self, update_ne}
unfoldable pub use Store.{update}
pub use Prim.Native.Nat.{
  ℕ, zero, suc, ◌+◌, ◌-◌, ◌*◌, ◌/◌, ◌%◌, ◌^◌, ◌≤◌, ◌<◌, min, max, bit_and, bit_or,
}
pub use mathlib.Core.Path.{◌≡◌, refl, sym, ap, ◌∙◌}
pub use mathlib.Core.Logic.{◌≢◌, ◌↔◌, ◌⊎◌, inl, inr}
pub use mathlib.Core.Bool.{Bool, true, false, ◌&&◌, ◌||◌, not}
pub use mathlib.Core.Option.{Option, none, some}
pub use mathlib.Core.List.{List, [], ◌∷◌, ◌++◌, map, append-nil, append_assoc}
pub use native.Mathlib.Omega.{arith}
