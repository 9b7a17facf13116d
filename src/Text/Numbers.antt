-- ===== src/Text/Numbers.antt =====
-- Numbers that are formatted by package fmt can be read back.
use gomemcached.Prelude.{
  ℕ, zero, suc, ◌+◌, ◌*◌, ◌/◌, ◌%◌, ◌^◌, ◌<◌, ◌≡◌, refl, ap, Bytes, [], ◌∷◌, length, ltb, ◌-◌,
  if◌then◌else◌, arith, Bool-cases, inl, inr,
}
use gomemcached.Text.{digit, digits, decimal, hex, hex_two}

-- The value of a digit, and of digits behind a number.
abbrev pub digit_value : ℕ → ℕ
digit_value c = if ltb c 58 then c - 48 else c - 87

abbrev pub value : (radix : ℕ) → ℕ → Bytes → ℕ
value radix n [] = n
value radix n (c ∷ cs) = value radix (n * radix + digit_value c) cs

digit_value-digit : (d : ℕ) → d < 16 → digit_value (digit d) ≡ d
unfolding digit
digit_value-digit d h = ground arith

value-decimal_digits :
    (fuel n : ℕ) (known : Bytes)
    → n < 10 ^ fuel
    → value 10 0 (digits 10 fuel n known) ≡ value 10 n known
unfolding digits
value-decimal_digits zero n known h = let z : n ≡ 0 = omega arith in rw z refl
value-decimal_digits (suc fuel) n known h = elim (Bool-cases (ltb n 10)) [
  | inl e ↦
      let small : n < 16 = ground (arith, e) in
      let same : 0 * 10 + digit_value (digit n) ≡ n = omega (arith, digit_value-digit n small) in
      rw e (ap (λ m. value 10 m known) same)
  | inr e ↦
      let small : n % 10 < 16 = omega arith in
      let whole : n / 10 * 10 + digit_value (digit (n % 10)) ≡ n =
        omega (arith, digit_value-digit (n % 10) small) in
      rw (e, value-decimal_digits fuel (n / 10) (digit (n % 10) ∷ known) (omega arith))
        (ap (λ m. value 10 m known) whole)
]

value-hex_digits :
    (fuel n : ℕ) (known : Bytes)
    → n < 16 ^ fuel
    → value 16 0 (digits 16 fuel n known) ≡ value 16 n known
unfolding digits
value-hex_digits zero n known h = let z : n ≡ 0 = omega arith in rw z refl
value-hex_digits (suc fuel) n known h = elim (Bool-cases (ltb n 16)) [
  | inl e ↦
      let small : n < 16 = ground (arith, e) in
      let same : 0 * 16 + digit_value (digit n) ≡ n = omega (arith, digit_value-digit n small) in
      rw e (ap (λ m. value 16 m known) same)
  | inr e ↦
      let small : n % 16 < 16 = omega arith in
      let whole : n / 16 * 16 + digit_value (digit (n % 16)) ≡ n =
        omega (arith, digit_value-digit (n % 16) small) in
      rw (e, value-hex_digits fuel (n / 16) (digit (n % 16) ∷ known) (omega arith))
        (ap (λ m. value 16 m known) whole)
]

pub value-decimal : (n : ℕ) → n < 10 ^ 20 → value 10 0 (decimal n) ≡ n
value-decimal n h = value-decimal_digits 20 n [] h

pub value-hex : (n : ℕ) → n < 16 ^ 17 → value 16 0 (hex n) ≡ n
value-hex n h = value-hex_digits 17 n [] h

pub value-hex_two : (n : ℕ) → n < 16 ^ 17 → value 16 0 (hex_two n) ≡ n
value-hex_two n h = elim (Bool-cases (ltb (length (hex n)) 2)) [
  | inl e ↦ rw e (value-hex n h)
  | inr e ↦ rw e (value-hex n h)
]
