-- ===== src/Text/Joining.antt =====
-- Texts that are joined by a separator can be split again, where none of them has it.
use gomemcached.Prelude.{
  ℕ, zero, suc, ◌≡◌, refl, ap, ◌∙◌, Bool, true, ◌&&◌, not, Bytes, List, [], ◌∷◌, ◌++◌, All, ◌==◌,
  if◌then◌else◌, arith, ltb, ◌≤◌, ◌<◌, Bool-cases, inl, inr, ◌/◌, ◌%◌,
}
use gomemcached.Text.{join, digit, digits}

-- A part that gets one more byte at its front.
abbrev cons_first : ℕ → List Bytes → List Bytes
cons_first x [] = (x ∷ []) ∷ []
cons_first x (p ∷ ps) = (x ∷ p) ∷ ps

unfoldable pub split_on : ℕ → Bytes → List Bytes
split_on c [] = [] ∷ []
split_on c (x ∷ xs) = let rest = split_on c xs in if x == c then [] ∷ rest else cons_first x rest

-- The byte `c` is not in the text.
abbrev pub is_free : ℕ → Bytes → Bool
is_free c [] = true
is_free c (x ∷ xs) = not (x == c) && is_free c xs

abbrev pub IsFree : ℕ → Bytes → Type 0
IsFree c p = is_free c p ≡ true

split_on-free : (c : ℕ) (p : Bytes) → IsFree c p → split_on c p ≡ p ∷ []
unfolding split_on
split_on-free c [] h = refl
split_on-free c (x ∷ p) h = rw (split_on-free c p (ground (arith, h))) (ground (arith, h))

split_on-append :
    (c : ℕ) (p rest : Bytes) → IsFree c p → split_on c (p ++ (c ∷ rest)) ≡ p ∷ split_on c rest
unfolding split_on
split_on-append c [] rest h = ground arith
split_on-append c (x ∷ p) rest h =
    rw (split_on-append c p rest (ground (arith, h))) (ground (arith, h))

pub split_on-join :
    (c : ℕ) (p : Bytes) (ps : List Bytes)
    → All (IsFree c) (p ∷ ps)
    → split_on c (join (p ∷ ps) (c ∷ [])) ≡ p ∷ ps
unfolding join
split_on-join c p [] (h, hs) = split_on-free c p h
split_on-join c p (q ∷ ps) (h, hs) =
    split_on-append c p (join (q ∷ ps) (c ∷ [])) h ∙ ap (λ qs. p ∷ qs) (split_on-join c q ps hs)

digit-IsFree : (c d : ℕ) → 123 ≤ c → d < 16 → not (digit d == c) ≡ true
unfolding digit
digit-IsFree c d b h = ground arith

-- No digit is a byte above the small letters.
pub digits-IsFree :
    (c fuel n : ℕ) (known : Bytes) → 123 ≤ c → IsFree c known → IsFree c (digits 16 fuel n known)
unfolding digits
digits-IsFree c zero n known b h = h
digits-IsFree c (suc fuel) n known b h = elim (Bool-cases (ltb n 16)) [
  | inl e ↦
      let small : n < 16 = ground (arith, e) in rw e (ground (arith, h, digit-IsFree c n b small))
  | inr e ↦
      let last = digit-IsFree c (n % 16) b (omega arith) in
      rw e (digits-IsFree c fuel (n / 16) (digit (n % 16) ∷ known) b (ground (arith, h, last)))
]
