-- ===== src/Prelude.antt =====
-- The names that every module shares: the libraries', passed on, and those of four children.
mod Tests
mod Lists
mod BigEndian
mod AllOf
pub use Tests.*
pub use Lists.*
pub use AllOf.*
unfoldable pub use BigEndian.{uint16, uint32, uint64}
pub use BigEndian.{
  Bytes, IsByte, IsU16, IsU32, IsU64, All, put_uint16, put_uint32, put_uint64, sub_uint32,
  uint16_put, uint32_put, uint64_put, uint16_total, uint32_total, uint64_total, uint16_bound,
  uint32_bound, uint64_bound, uint64_short,
}
pub use Prim.Native.Nat.{ℕ, zero, suc, ◌+◌, ◌-◌, ◌*◌, ◌/◌, ◌%◌, ◌^◌, ◌≤◌, ◌<◌}
pub use mathlib.Core.Path.{◌≡◌, refl, sym, ap, subst, ◌∙◌}
pub use mathlib.Core.Logic.{◌≢◌, ◌↔◌, ◌⊎◌, inl, inr}
pub use mathlib.Core.Bool.{Bool, true, false, not, ◌&&◌, ◌||◌}
pub use mathlib.Core.Option.{Option, none, some}
pub use mathlib.Core.List.{List, [], ◌∷◌, ◌++◌, map, append-nil, append_assoc}
pub use native.Mathlib.Omega.{arith}
