-- ===== src/Base.antt =====
-- The names that the modules share: the libraries', passed on, with the tests, the C integers and
-- the option type that the sources' expressions need.
mod Tests
mod Words
mod Arrays
pub mod Int
pub use Tests.*
unfoldable pub use Tests.{all_below}
pub use Words.*
pub use Arrays.*
pub use Int.{
  ℤ, pos, negsuc, sub_ℕ, ◌+ℤ◌, ◌*ℤ◌, is_int, shift_count, int8, int_to_u8, int_to_u16, int_to_u32,
  u32_to_int, not_negative, ◌-ℤ◌, is_int8, is_int16, is_negative, int16,
}
pub use Prim.Native.Nat.{ℕ, zero, suc, ◌+◌, ◌-◌, ◌*◌, ◌/◌, ◌%◌, ◌^◌, ◌≤◌, ◌<◌, min, max}
pub use Prim.Native.Nat.{bit_and, bit_or, bit_xor}
pub use mathlib.Core.Path.{◌≡◌, refl, sym, ap, subst, ◌∙◌, fun_ext}
pub use mathlib.Core.Logic.{◌≢◌, ◌⊎◌, inl, inr}
pub use mathlib.Core.Bool.{Bool, true, false, not, ◌&&◌, ◌||◌}
pub use mathlib.Core.Option.{Option, none, some}
pub use mathlib.Core.List.{List, [], ◌∷◌, ◌++◌}
pub use native.Mathlib.Omega.{arith}
