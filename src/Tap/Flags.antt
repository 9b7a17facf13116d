-- ===== src/Tap/Flags.antt =====
-- SplitFlags of tap.go: it ends on every word, and gives the word's bits.
use Prim.Native.Nat.{bit_and, bit_and-bitwise, digits, min}
use gomemcached.Prelude.{
  ℕ, zero, suc, ◌+◌, ◌*◌, ◌/◌, ◌-◌, ◌%◌, ◌^◌, ◌≤◌, ◌<◌, ◌≡◌, append-nil, refl, ap, ◌∙◌, false, some,
  List, [], ◌∷◌, ◌++◌, ◌==◌, if◌then◌else◌, arith, IsU32, Bool-cases, inl, inr, append_assoc,
}
use native.Mathlib.Nat.{zero-add}
use native.Mathlib.Numerals.{unary_clauses}
use gomemcached.Tap.{split_loop, split_flags}

-- One bit and the rest, from the recursion that defines the operation.
digits_enough :
    (n m a b : ℕ) → a ≤ n → a ≤ m → digits (λ b. zero) min n a b ≡ digits (λ b. zero) min m a b
digits_enough zero zero a b h k = refl
digits_enough (suc n) (suc m) zero b h k = refl
digits_enough (suc n) zero zero b h k = refl
digits_enough zero (suc m) zero b h k = refl
digits_enough zero m (suc a) b h k = absurd (omega arith)
digits_enough (suc n) zero (suc a) b h k = absurd (omega arith)
digits_enough (suc n) (suc m) (suc a) b h k =
    omega (arith, digits_enough n m (suc a / 2) (b / 2) (omega arith) (omega arith))

bit_and_bits : (a b : ℕ) → bit_and a b ≡ bit_and (a / 2) (b / 2) * 2 + min (a % 2) (b % 2)
bit_and_bits zero b = omega (arith, bit_and-bitwise zero b, bit_and-bitwise zero (b / 2))
bit_and_bits (suc a) b =
    let half : suc a / 2 ≤ a = omega arith in
    omega (
      arith,
      bit_and-bitwise (suc a) b,
      bit_and-bitwise (suc a / 2) (b / 2),
      digits_enough a (suc a / 2) (suc a / 2) (b / 2) half (omega arith),
    )

bit_and_zero_enough : (n a : ℕ) → a ≤ n → bit_and a 0 ≡ 0
bit_and_zero_enough n zero h = bit_and-bitwise zero 0
bit_and_zero_enough zero (suc a) h = absurd (omega arith)
bit_and_zero_enough (suc n) (suc a) h =
    omega (arith, bit_and_bits (suc a) 0, bit_and_zero_enough n (suc a / 2) (omega arith))

-- 2 ^ k times `g`.
shl : ℕ → ℕ → ℕ
shl zero g = g
shl (suc k) g = 2 * shl k g

-- `n` ones, and `n` ones above a zero above `k` ones.
ones : ℕ → ℕ
ones zero = 0
ones (suc n) = 2 * ones n + 1

hole : ℕ → ℕ → ℕ
hole zero n = 2 * ones n
hole (suc k) n = 2 * hole k n + 1

bit_and-ones : (n a : ℕ) → a ≤ ones n → bit_and a (ones n) ≡ a
unfolding ones
bit_and-ones zero a h = omega (arith, bit_and_zero_enough a a (omega arith))
bit_and-ones (suc n) a h =
    let half : (2 * ones n + 1) / 2 ≡ ones n = omega arith in
    let odd : (2 * ones n + 1) % 2 ≡ 1 = omega arith in
    bit_and_bits a (2 * ones n + 1)
    ∙ rw (half, odd, bit_and-ones n (a / 2) (omega arith)) (omega arith)

bit_and-shl : (k g : ℕ) → bit_and (shl k g) (shl k 1) ≡ shl k (g % 2)
unfolding shl
bit_and-shl zero g =
    omega (arith, bit_and_bits g 1, bit_and_zero_enough (g / 2) (g / 2) (omega arith))
bit_and-shl (suc k) g =
    let a : 2 * shl k g / 2 ≡ shl k g = omega arith in
    let b : 2 * shl k 1 / 2 ≡ shl k 1 = omega arith in
    let c : 2 * shl k g % 2 ≡ 0 = omega arith in
    bit_and_bits (2 * shl k g) (2 * shl k 1) ∙ rw (a, b, c, bit_and-shl k g) (omega arith)

bit_and-hole : (k n g : ℕ) → g ≤ ones (suc n) → bit_and (shl k g) (hole k n) ≡ shl (suc k) (g / 2)
unfolding shl hole ones
bit_and-hole zero n g h =
    let half : 2 * ones n / 2 ≡ ones n = omega arith in
    let even : 2 * ones n % 2 ≡ 0 = omega arith in
    bit_and_bits g (2 * ones n)
    ∙ rw (half, even, bit_and-ones n (g / 2) (omega arith)) (omega arith)
bit_and-hole (suc k) n g h =
    let a : 2 * shl k g / 2 ≡ shl k g = omega arith in
    let b : (2 * hole k n + 1) / 2 ≡ hole k n = omega arith in
    let c : 2 * shl k g % 2 ≡ 0 = omega arith in
    bit_and_bits (2 * shl k g) (2 * hole k n + 1) ∙ rw (a, b, c, bit_and-hole k n g h) (omega arith)

hole-shl : (k n : ℕ) → hole k n + shl k 1 ≡ ones (suc (k + n))
unfolding shl hole ones
hole-shl zero n = rw zero-add refl
hole-shl (suc k) n =
    let e : suc k + n ≡ suc (k + n) = omega arith in rw e (omega (arith, hole-shl k n))

shl_split : (k g : ℕ) → shl (suc k) (g / 2) + shl k (g % 2) ≡ shl k g
unfolding shl
shl_split zero g = omega arith
shl_split (suc k) g = omega (arith, shl_split k g)

shl_zero : (k : ℕ) → shl k 0 ≡ 0
unfolding shl
shl_zero zero = refl
shl_zero (suc k) = omega (arith, shl_zero k)

shl_pos : (k g : ℕ) → 0 < g → 0 < shl k g
unfolding shl
shl_pos zero g h = h
shl_pos (suc k) g h = omega (arith, shl_pos k g h)

-- The bits of `g` as powers from 2 ^ k on.
bits : ℕ → ℕ → ℕ → List ℕ
bits zero k g = []
bits (suc n) k g = let rest = bits n (suc k) (g / 2) in if g % 2 == 1 then shl k 1 ∷ rest else rest

bits_zero : (n k : ℕ) → bits n k 0 ≡ []
unfolding bits
bits_zero zero k = refl
bits_zero (suc n) k = bits_zero n (suc k)

-- One word of the mask 2 ^ 32 - 1 - i.
mask_hole : (k n : ℕ) → k + suc n ≡ 32 → 2 ^ 32 - 1 - shl k 1 ≡ hole k n
unfolding ones
mask_hole k n h =
    let total : suc (k + n) ≡ 32 = omega arith in
    let all : ones (suc (k + n)) ≡ ones 32 = ap ones total in omega (arith, hole-shl k n, all)

shl_small : (k n : ℕ) → k + suc n ≡ 32 → shl k 1 < 2 ^ 32
unfolding ones
shl_small k n h =
    let total : suc (k + n) ≡ 32 = omega arith in
    let all : ones (suc (k + n)) ≡ ones 32 = ap ones total in omega (arith, hole-shl k n, all)

-- The loop's test finds the lowest bit of `g`.
test_bit : (k g : ℕ) → (bit_and (shl k g) (shl k 1) == shl k 1) ≡ (g % 2 == 1)
test_bit k g = elim (Bool-cases (g % 2 == 1)) [
  | inl o ↦ let one : g % 2 ≡ 1 = ground (arith, o) in rw (bit_and-shl k g, one) (ground arith)
  | inr e ↦
      let none : g % 2 ≡ 0 = ground (arith, e) in
      rw (bit_and-shl k g, none, shl_zero k) (ground (arith, shl_pos k 1))
]

split_loop-bits :
    (n k g fuel i : ℕ) (rv : List ℕ)
    → k + n ≡ 32
    → g ≤ ones n
    → n < fuel
    → i ≡ shl k 1 % 2 ^ 32
    → split_loop fuel (shl k g) i rv ≡ some (rv ++ bits n k g)
unfolding split_loop bits ones shl
split_loop-bits n k g zero i rv e h f p = absurd (omega arith)
split_loop-bits zero k g (suc fuel) i rv e h f p =
    let none : g ≡ 0 = omega arith in rw (none, shl_zero k, append-nil) refl
split_loop-bits (suc n) k g (suc fuel) i rv e h f p = elim (Bool-cases (g == 0)) [
  | inl z ↦
      let none : g ≡ 0 = ground (arith, z) in
      rw (none, shl_zero k, bits_zero n (suc k), append-nil) refl
  | inr z ↦
      let same : i ≡ shl k 1 = omega (arith, shl_small k n e) in
      let more : (shl k g == 0) ≡ false = ground (arith, z, shl_pos k g) in
      let rest = λ (rv : List ℕ).
        split_loop-bits n (suc k) (g / 2) fuel (shl k 1 * 2 % 2 ^ 32) rv (omega arith) (omega arith)
          (omega arith) (omega arith) in
      rw (more, same, mask_hole k n e, bit_and-hole k n g h, test_bit k g)
        (elim (Bool-cases (g % 2 == 1)) [
          | inl o ↦ rw o (rest (rv ++ (shl k 1 ∷ [])) ∙ ap some (append_assoc rv (shl k 1 ∷ []) _))
          | inr o ↦ rw o (rest rv)
        ])
]

-- The flags are powers of 2, each above the one before.
abbrev pub ArePowers : ℕ → List ℕ → Type 0
ArePowers low [] = Unit
ArePowers low (f ∷ fs) = (k : ℕ) × (low ≤ k) × (f ≡ 2 ^ k) × ArePowers (suc k) fs

abbrev pub sum : List ℕ → ℕ
sum [] = 0
sum (f ∷ fs) = f + sum fs

shl-pow : (k : ℕ) → shl k 1 ≡ 2 ^ k
unfolding shl
shl-pow zero = refl
shl-pow (suc k) = simp unary_clauses (omega (arith, shl-pow k))

ArePowers-weaken : (low low' : ℕ) (fs : List ℕ) → low ≤ low' → ArePowers low' fs → ArePowers low fs
ArePowers-weaken low low' [] h p = tt
ArePowers-weaken low low' (f ∷ fs) h (k, a, e, p) = (k, omega arith, e, p)

bits-ArePowers : (n k g : ℕ) → ArePowers k (bits n k g)
unfolding bits
bits-ArePowers zero k g = tt
bits-ArePowers (suc n) k g = elim (Bool-cases (g % 2 == 1)) [
  | inl o ↦ rw o (k, omega arith, shl-pow k, bits-ArePowers n (suc k) (g / 2))
  | inr o ↦ rw o (ArePowers-weaken k (suc k) _ (omega arith) (bits-ArePowers n (suc k) (g / 2)))
]

sum-bits : (n k g : ℕ) → g ≤ ones n → sum (bits n k g) ≡ shl k g
unfolding bits ones
sum-bits zero k g h = let none : g ≡ 0 = omega arith in rw (none, shl_zero k) refl
sum-bits (suc n) k g h = elim (Bool-cases (g % 2 == 1)) [
  | inl o ↦
      let one : g % 2 ≡ 1 = ground (arith, o) in
      let ih = sum-bits n (suc k) (g / 2) (omega arith) in
      let split = rw one at (shl_split k g) in rw (o, ih) (omega (arith, split))
  | inr e ↦
      let none : g % 2 ≡ 0 = ground (arith, e) in
      let ih = sum-bits n (suc k) (g / 2) (omega arith) in
      let split = rw (none, shl_zero k) at (shl_split k g) in rw (e, ih) (omega (arith, split))
]

-- On every uint32 the loop of SplitFlags ends, in 33 rounds at most, and gives distinct powers of 2
-- in ascending order whose sum is the word.
pub split_flags-sum :
    (f : ℕ) → IsU32 f → (fs : List ℕ) × (split_flags f ≡ some fs) × (sum fs ≡ f) × ArePowers 0 fs
unfolding split_flags shl ones
split_flags-sum f h = (
  bits 32 0 f,
  split_loop-bits 32 0 f 33 1 [] refl (omega arith) (omega arith) refl,
  sum-bits 32 0 f (omega arith),
  bits-ArePowers 32 0 f,
)
