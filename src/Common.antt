-- ===== src/Common.antt =====
-- The names that every module shares: the libraries', passed on, and the children's helpers.
mod Tests
mod Lists
mod Slices
mod Decimal
mod Text
pub mod Bits
pub mod Utf8
pub mod Chars
pub use Tests.*
pub use Lists.*
pub use Slices.*
unfoldable pub use Decimal.{decimal, parse_uint}
pub use Text.{strip_prefix_iff}
unfoldable pub use Text.{
  white_len, trim_start, trim_end, trim, split, split_once, strip_prefix, ends_with, cons_head,
}
pub use Prim.Native.Nat.{ℕ, zero, suc, ◌+◌, ◌-◌, ◌*◌, ◌/◌, ◌%◌, ◌^◌, ◌≤◌, ◌<◌, min, max}
pub use mathlib.Core.Path.{◌≡◌, refl, sym, ap, ◌∙◌, subst}
pub use mathlib.Core.Logic.{◌≢◌, ◌↔◌, ◌⊎◌, inl, inr}
pub use mathlib.Core.Bool.{Bool, true, false, not, ◌&&◌, ◌||◌}
pub use mathlib.Core.Option.{Option, none, some}
pub use mathlib.Core.List.{List, [], ◌∷◌, ◌++◌, map, append_assoc, append-nil}
pub use native.Mathlib.Omega.{arith}
