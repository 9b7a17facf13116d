-- ===== src/Text/Names.antt =====
-- A text that is a code's name, or that is formatted from the code, tells the code: which names a map
-- must have for that.
use Prim.Native.String.{String}
use gomemcached.Prelude.{
  ℕ, ◌≡◌, refl, ap, ◌∙◌, Bool, true, false, ◌&&◌, not, Option, none, some, Bytes, List, [], ◌∷◌,
  ◌==◌, ==_iff, if◌then◌else◌, arith, Bool-cases, inl, inr,
}
use gomemcached.GoMap.{bytes_eq, bytes_beq, beq_self}
use gomemcached.Text.{codes, is_empty, name_in, name_or}
use gomemcached.Text.Numbers.{value}

-- Reading a text back: a name's code, or what `parse` says.
unfoldable pub code_of : List (ℕ × String) → (Bytes → Option ℕ) → Bytes → Option ℕ
code_of [] parse t = parse t
code_of ((k, name) ∷ names) parse t =
    if bytes_beq (codes name) t then some k else code_of names parse t

-- 0x and hexadecimal digits
abbrev pub parse_hex : Bytes → Option ℕ
parse_hex (z ∷ (x ∷ ds)) = if (z == b'0') && (x == b'x') then some (value 16 0 ds) else none
parse_hex _ = none

-- # and decimal digits
abbrev pub parse_number : Bytes → Option ℕ
parse_number (h ∷ ds) = if h == b'#' then some (value 10 0 ds) else none
parse_number _ = none

-- A name that is not empty and does not begin with `c`.
abbrev is_named : ℕ → Bytes → Bool
is_named c [] = false
is_named c (x ∷ xs) = not (x == c)

abbrev is_fresh : Bytes → List (ℕ × String) → Bool
is_fresh t [] = true
is_fresh t ((k, name) ∷ names) = not (bytes_beq t (codes name)) && is_fresh t names

-- Names that differ, none of them empty or beginning with `c`.
abbrev pub are_names : ℕ → List (ℕ × String) → Bool
are_names c [] = true
are_names c ((k, name) ∷ names) =
    is_named c (codes name) && (is_fresh (codes name) names && are_names c names)

beq-name_in :
    (t : Bytes) (names : List (ℕ × String)) (o : ℕ)
    → is_fresh t names ≡ true
    → is_empty (name_in names o) ≡ false
    → bytes_beq t (name_in names o) ≡ false
unfolding name_in
beq-name_in t [] o h e = absurd cc
beq-name_in t ((k, name) ∷ names) o h e = elim (Bool-cases (k == o)) [
  | inl i ↦ rw i (ground (arith, h))
  | inr n ↦ rw n (beq-name_in t names o (ground (arith, h)) (rw n at e))
]

-- The name of a code is read back.
code_of-name_in :
    (c : ℕ) (names : List (ℕ × String)) (parse : Bytes → Option ℕ) (o : ℕ)
    → are_names c names ≡ true
    → is_empty (name_in names o) ≡ false
    → code_of names parse (name_in names o) ≡ some o
unfolding code_of name_in
code_of-name_in c [] parse o h e = absurd cc
code_of-name_in c ((k, name) ∷ names) parse o h e = elim (Bool-cases (k == o)) [
  | inl i ↦ rw (i, beq_self (codes name)) (ap some ((==_iff k o).0 i))
  | inr n ↦
      let later = rw n at e in
      rw (n, beq-name_in (codes name) names o (ground (arith, h)) later)
        (code_of-name_in c names parse o (ground (arith, h)) later)
]

beq-named : (c : ℕ) (ds name : Bytes) → is_named c name ≡ true → bytes_beq name (c ∷ ds) ≡ false
unfolding bytes_beq
beq-named c ds [] h = absurd cc
beq-named c ds (x ∷ xs) h = ground (arith, h)

-- A text that is no name.
code_of-other :
    (c : ℕ) (ds : Bytes) (names : List (ℕ × String)) (parse : Bytes → Option ℕ)
    → are_names c names ≡ true
    → code_of names parse (c ∷ ds) ≡ parse (c ∷ ds)
unfolding code_of
code_of-other c ds [] parse h = refl
code_of-other c ds ((k, name) ∷ names) parse h =
    let other : bytes_beq (codes name) (c ∷ ds) ≡ false =
      beq-named c ds (codes name) (ground (arith, h)) in
    rw other (code_of-other c ds names parse (ground (arith, h)))

-- With such names a code's text tells the code, if `parse` reads the text that is formatted.
pub code_of-name_or :
    (c : ℕ) (ds : Bytes) (names : List (ℕ × String)) (parse : Bytes → Option ℕ) (o : ℕ)
    → are_names c names ≡ true
    → parse (c ∷ ds) ≡ some o
    → code_of names parse (name_or names (c ∷ ds) o) ≡ some o
code_of-name_or c ds names parse o h p = elim (Bool-cases (is_empty (name_in names o))) [
  | inl e ↦ rw e (code_of-other c ds names parse h ∙ p)
  | inr e ↦ rw e (code_of-name_in c names parse o h e)
]
