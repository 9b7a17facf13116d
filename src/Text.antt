-- ===== src/Text.antt =====
-- What the program uses of Go's package fmt, of strconv and of strings: texts are bytes.
pub mod Numbers
pub mod Names
pub mod Joining
use Prim.Native.Char.{code}
use Prim.Native.String
use Prim.Native.String.{String}
use gomemcached.Prelude.{
  ℕ, zero, suc, ◌+◌, ◌/◌, ◌%◌, Bool, true, false, Bytes, List, [], ◌∷◌, ◌++◌, length, ltb, ◌==◌,
  if◌then◌else◌,
}

-- The bytes of a constant.
abbrev pub codes : String → Bytes
codes String.[] = []
codes (String.◌∷◌ c s) = code c ∷ codes s

-- A digit: 0-9 and then a-f.
unfoldable pub digit : ℕ → ℕ
digit d = if ltb d 10 then 48 + d else 87 + d

-- The digits of a number in front of those that are known.
unfoldable pub digits : (radix : ℕ) → ℕ → ℕ → Bytes → Bytes
digits radix zero n known = known
digits radix (suc fuel) n known =
    let more = digits radix fuel (n / radix) (digit (n % radix) ∷ known) in
    if ltb n radix then digit n ∷ known else more

-- The verbs %d and %x, and strconv.Itoa, for a number that is not negative: 2^64 has 20 digits in
-- radix 10, and 17 in radix 16.
abbrev pub decimal : ℕ → Bytes
decimal n = digits 10 20 n []

abbrev pub hex : ℕ → Bytes
hex n = digits 16 17 n []

-- The verb %02x.
abbrev pub hex_two : ℕ → Bytes
hex_two n = if ltb (length (hex n)) 2 then 48 ∷ hex n else hex n

abbrev pub is_empty : Bytes → Bool
is_empty [] = true
is_empty (x ∷ xs) = false

-- An entry of a map from codes to names: the empty text for a code without one.
unfoldable pub name_in : List (ℕ × String) → ℕ → Bytes
name_in [] o = []
name_in ((k, name) ∷ names) o = if k == o then codes name else name_in names o

-- The name of a code, or the text `other` that is formatted from the code itself.
abbrev pub name_or : List (ℕ × String) → Bytes → ℕ → Bytes
name_or names other o = let name = name_in names o in if is_empty name then other else name

-- strings.Join
unfoldable pub join : List Bytes → Bytes → Bytes
join [] sep = []
join (x ∷ []) sep = x
join (x ∷ (y ∷ ys)) sep = x ++ (sep ++ join (y ∷ ys) sep)
