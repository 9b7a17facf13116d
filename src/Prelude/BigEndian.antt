-- ===== src/Prelude/BigEndian.antt =====
-- Byte slices as lists of numbers below 256, and the calls of Go's `encoding/binary` that the
-- program makes: `BigEndian.PutUint16`, `Uint16` and their wider kin. A read past the end of the
-- slice panics: `none`.
use Prim.Native.Nat.{ℕ, ◌+◌, ◌-◌, ◌*◌, ◌/◌, ◌%◌, ◌^◌, ◌<◌, ◌≤◌}
use mathlib.Core.Path.{◌≡◌, refl, ap}
use mathlib.Core.Option.{Option, none, some}
use mathlib.Core.List.{List, [], ◌∷◌, ◌++◌}
use native.Mathlib.Omega.{arith}
use gomemcached.Prelude.Lists.{length}

abbrev pub Bytes : Type 0
Bytes = List ℕ

abbrev pub IsByte : ℕ → Type 0
IsByte b = b < 256

abbrev pub IsU16 : ℕ → Type 0
IsU16 v = v < 2 ^ 16

abbrev pub IsU32 : ℕ → Type 0
IsU32 v = v < 2 ^ 32

abbrev pub IsU64 : ℕ → Type 0
IsU64 v = v < 2 ^ 64

abbrev pub All {ℓ κ} : {A : Type ℓ} → (A → Type κ) → List A → Type κ
All P [] = Unit
All P (x ∷ xs) = P x × All P xs

-- The bytes that `BigEndian.PutUint16(b, v)` stores into `b`; so for the wider words.
abbrev pub put_uint16 : ℕ → Bytes
put_uint16 v = (v / 2 ^ 8 % 256) ∷ (v % 256) ∷ []

abbrev pub put_uint32 : ℕ → Bytes
put_uint32 v = (v / 2 ^ 24 % 256) ∷ (v / 2 ^ 16 % 256) ∷ (v / 2 ^ 8 % 256) ∷ (v % 256) ∷ []

abbrev pub put_uint64 : ℕ → Bytes
put_uint64 v =
    (v / 2 ^ 56 % 256)
    ∷ (v / 2 ^ 48 % 256)
    ∷ (v / 2 ^ 40 % 256)
    ∷ (v / 2 ^ 32 % 256)
    ∷ (v / 2 ^ 24 % 256)
    ∷ (v / 2 ^ 16 % 256)
    ∷ (v / 2 ^ 8 % 256)
    ∷ (v % 256)
    ∷ []

-- a - b in Go's uint32, which wraps.
abbrev pub sub_uint32 : ℕ → ℕ → ℕ
sub_uint32 a b = (a + 2 ^ 32 - b) % 2 ^ 32

unfoldable pub uint16 : Bytes → Option ℕ
uint16 (a ∷ b ∷ _) = some (a * 2 ^ 8 + b)
uint16 _ = none

unfoldable pub uint32 : Bytes → Option ℕ
uint32 (a ∷ b ∷ c ∷ d ∷ _) = some (a * 2 ^ 24 + b * 2 ^ 16 + c * 2 ^ 8 + d)
uint32 _ = none

unfoldable pub uint64 : Bytes → Option ℕ
uint64 (a ∷ b ∷ c ∷ d ∷ e ∷ f ∷ g ∷ h ∷ _) =
    some
      (a * 2 ^ 56 + b * 2 ^ 48 + c * 2 ^ 40 + d * 2 ^ 32 + e * 2 ^ 24 + f * 2 ^ 16 + g * 2 ^ 8 + h)
uint64 _ = none

pub uint16_put : (v : ℕ) (rest : Bytes) → IsU16 v → uint16 (put_uint16 v ++ rest) ≡ some v
unfolding uint16
uint16_put v rest h = ap some (omega arith)

pub uint32_put : (v : ℕ) (rest : Bytes) → IsU32 v → uint32 (put_uint32 v ++ rest) ≡ some v
unfolding uint32
uint32_put v rest h = ap some (omega arith)

pub uint64_put : (v : ℕ) (rest : Bytes) → IsU64 v → uint64 (put_uint64 v ++ rest) ≡ some v
unfolding uint64
uint64_put v rest h = ap some (omega arith)

-- There is a word where there are bytes enough.
pub uint16_total : (x : Bytes) → 2 ≤ length x → (v : ℕ) × (uint16 x ≡ some v)
unfolding uint16
uint16_total [] k = absurd (omega arith)
uint16_total (a ∷ []) k = absurd (omega arith)
uint16_total (a ∷ b ∷ t) k = (_, refl)

pub uint32_total : (x : Bytes) → 4 ≤ length x → (v : ℕ) × (uint32 x ≡ some v)
unfolding uint32
uint32_total [] k = absurd (omega arith)
uint32_total (a ∷ []) k = absurd (omega arith)
uint32_total (a ∷ b ∷ []) k = absurd (omega arith)
uint32_total (a ∷ b ∷ c ∷ []) k = absurd (omega arith)
uint32_total (a ∷ b ∷ c ∷ d ∷ t) k = (_, refl)

pub uint64_total : (x : Bytes) → 8 ≤ length x → (v : ℕ) × (uint64 x ≡ some v)
unfolding uint64
uint64_total [] k = absurd (omega arith)
uint64_total (a ∷ []) k = absurd (omega arith)
uint64_total (a ∷ b ∷ []) k = absurd (omega arith)
uint64_total (a ∷ b ∷ c ∷ []) k = absurd (omega arith)
uint64_total (a ∷ b ∷ c ∷ d ∷ []) k = absurd (omega arith)
uint64_total (a ∷ b ∷ c ∷ d ∷ e ∷ []) k = absurd (omega arith)
uint64_total (a ∷ b ∷ c ∷ d ∷ e ∷ f ∷ []) k = absurd (omega arith)
uint64_total (a ∷ b ∷ c ∷ d ∷ e ∷ f ∷ g ∷ []) k = absurd (omega arith)
uint64_total (a ∷ b ∷ c ∷ d ∷ e ∷ f ∷ g ∷ h ∷ t) k = (_, refl)

pub uint64_short : (x : Bytes) → length x < 8 → uint64 x ≡ none
unfolding uint64
uint64_short [] h = refl
uint64_short (a ∷ []) h = refl
uint64_short (a ∷ b ∷ []) h = refl
uint64_short (a ∷ b ∷ c ∷ []) h = refl
uint64_short (a ∷ b ∷ c ∷ d ∷ []) h = refl
uint64_short (a ∷ b ∷ c ∷ d ∷ e ∷ []) h = refl
uint64_short (a ∷ b ∷ c ∷ d ∷ e ∷ f ∷ []) h = refl
uint64_short (a ∷ b ∷ c ∷ d ∷ e ∷ f ∷ g ∷ []) h = refl
uint64_short (a ∷ b ∷ c ∷ d ∷ e ∷ f ∷ g ∷ i ∷ t) h = absurd (omega arith)

-- A word of bytes is in its range.
pub uint16_bound : (bs : Bytes) (v : ℕ) → All IsByte bs → uint16 bs ≡ some v → IsU16 v
unfolding uint16
uint16_bound [] v h e = absurd cc
uint16_bound (a ∷ []) v h e = absurd cc
uint16_bound (a ∷ b ∷ t) v h e = ground (arith, h, e)

pub uint32_bound : (bs : Bytes) (v : ℕ) → All IsByte bs → uint32 bs ≡ some v → IsU32 v
unfolding uint32
uint32_bound [] v h e = absurd cc
uint32_bound (a ∷ []) v h e = absurd cc
uint32_bound (a ∷ b ∷ []) v h e = absurd cc
uint32_bound (a ∷ b ∷ c ∷ []) v h e = absurd cc
uint32_bound (a ∷ b ∷ c ∷ d ∷ t) v h e = ground (arith, h, e)

pub uint64_bound : (bs : Bytes) (v : ℕ) → All IsByte bs → uint64 bs ≡ some v → IsU64 v
unfolding uint64
uint64_bound [] v h e = absurd cc
uint64_bound (a ∷ []) v h e = absurd cc
uint64_bound (a ∷ b ∷ []) v h e = absurd cc
uint64_bound (a ∷ b ∷ c ∷ []) v h e = absurd cc
uint64_bound (a ∷ b ∷ c ∷ d ∷ []) v h e = absurd cc
uint64_bound (a ∷ b ∷ c ∷ d ∷ f ∷ []) v h e = absurd cc
uint64_bound (a ∷ b ∷ c ∷ d ∷ f ∷ g ∷ []) v h e = absurd cc
uint64_bound (a ∷ b ∷ c ∷ d ∷ f ∷ g ∷ i ∷ []) v h e = absurd cc
uint64_bound (a ∷ b ∷ c ∷ d ∷ f ∷ g ∷ i ∷ j ∷ t) v h e = ground (arith, h, e)
