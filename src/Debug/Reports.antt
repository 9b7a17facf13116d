-- ===== src/Debug/Reports.antt =====
-- The maps of a report of debug/mcdebug.go show every counter, and their sum.
use gomemcached.Prelude.{
  ℕ, zero, suc, ◌+◌, ◌%◌, ◌^◌, ◌<◌, ◌≤◌, ◌≡◌, ◌≢◌, refl, ap, sym, ◌∙◌, Bool, true, false, Option,
  none, some, Bytes, List, [], ◌∷◌, length, ltb, ◌==◌, ==_iff, get_elem?, if◌then◌else◌, arith,
  Bool-cases, inl, inr,
}
use gomemcached.GoMap.{GoMap, lookup, insert, lookup-insert, bytes_eq, bytes_beq, beq_ne, beq_self}
use gomemcached.Text.Names.{code_of, parse_hex}
use gomemcached.Wire.Opcode.Names.{command_names}
use gomemcached.Wire.Texts.{code_of-command_text}
use gomemcached.Debug.{total, or_zero, key_of, add_to_map, add_all, report}
use gomemcached.Debug.Totals.{sum}

-- The opcode of a counter's name: none for the counter of what is not known.
code_of-key_of :
    (i : ℕ) → code_of command_names parse_hex (key_of i) ≡ (if ltb i 256 then some i else none)
unfolding code_of bytes_beq
code_of-key_of i = elim (Bool-cases (ltb i 256)) [
  | inl e ↦ rw e (code_of-command_text i (ground (arith, e)))
  | inr e ↦ rw e refl
]

code_of-total : code_of command_names parse_hex total ≡ none
unfolding code_of bytes_beq
code_of-total = refl

-- The counters have names of their own.
key_of-differs : (i j : ℕ) → i ≤ 256 → j ≤ 256 → i ≢ j → bytes_beq (key_of i) (key_of j) ≡ false
key_of-differs i j h k n = beq_ne (key_of i) (key_of j) (λ e.
    let same = ap (code_of command_names parse_hex) e in
    let known = sym (code_of-key_of i) ∙ same ∙ code_of-key_of j in n (ground (arith, h, k, known)))

key_of_no_total : (i : ℕ) → key_of i ≢ total
key_of_no_total i = elim (Bool-cases (ltb i 256)) [
  | inl e ↦ λ same.
      let known = sym (code_of-key_of i) ∙ ap (code_of command_names parse_hex) same in
      ground (arith, e, known, code_of-total)
  | inr e ↦ rw e (λ z. cc)
]

beq-total : (i : ℕ) → bytes_beq (key_of i) total ≡ false
beq-total i = beq_ne (key_of i) total (key_of_no_total i)

total-beq : (i : ℕ) → bytes_beq total (key_of i) ≡ false
total-beq i = beq_ne total (key_of i) (λ same. key_of_no_total i (sym same))

or_zero_if : (n : ℕ) → or_zero (if ltb 0 n then some n else none) ≡ n
or_zero_if n = ground arith

-- What the map has under "total", when the counters so far add up to `n`.
unfoldable HasTotal : GoMap Bytes ℕ → ℕ → Type 0
HasTotal m n = lookup total m ≡ (if ltb 0 n then some n else none)

add_to_map-HasTotal :
    (i v : ℕ) (m : GoMap Bytes ℕ) (n : ℕ)
    → n + v < 2 ^ 64
    → HasTotal m n
    → HasTotal (add_to_map i v m) (n + v)
unfolding add_to_map HasTotal
add_to_map-HasTotal i v m n b h =
    let key = key_of i in
    let total' = (or_zero (lookup total (insert key v m)) + v) % 2 ^ 64 in
    let there : lookup total (insert key v m) ≡ lookup total m =
      lookup-insert key total v m
      ∙ ap (λ (b : Bool). if b then some v else lookup total m) (beq-total i) in
    elim (Bool-cases (ltb 0 v)) [
      | inr z ↦
          let none_ : v ≡ 0 = ground (arith, z) in
          let same : n + v ≡ n = omega arith in rw (z, same) h
      | inl z ↦
          let now : ltb 0 (n + v) ≡ true = ground (arith, z) in
          let before : or_zero (lookup total m) ≡ n = ap or_zero h ∙ or_zero_if n in
          let fits : (n + v) % 2 ^ 64 ≡ n + v = omega arith in
          rw
            (
              z,
              now,
              lookup-insert total total total' (insert key v m),
              beq_self total,
              there,
              before,
              fits,
            )
            refl
    ]

add_all-HasTotal :
    (i : ℕ) (vs : List ℕ) (m : GoMap Bytes ℕ) (n : ℕ)
    → n + sum vs < 2 ^ 64
    → HasTotal m n
    → HasTotal (add_all i vs m) (n + sum vs)
unfolding add_all
add_all-HasTotal i [] m n b h = let same : n + 0 ≡ n = omega arith in rw same h
add_all-HasTotal i (v ∷ vs) m n b h =
    let same : n + (v + sum vs) ≡ n + v + sum vs = omega arith in
    rw same (
      add_all-HasTotal (suc i) vs (add_to_map i v m) (n + v) (omega arith)
        (add_to_map-HasTotal i v m n (omega arith) h))

pub report-HasTotal :
    (counters : List ℕ)
    → sum counters < 2 ^ 64
    → lookup total (report counters) ≡ (if ltb 0 (sum counters) then some (sum counters) else none)
unfolding HasTotal lookup
report-HasTotal counters b =
    let same : 0 + sum counters ≡ sum counters = omega arith in
    rw⁻¹ same (add_all-HasTotal 0 counters [] 0 (omega arith) refl)

-- What the map has for one counter.
abbrev pub shown : ℕ → Option ℕ
shown v = if ltb 0 v then some v else none

beq-key_of : (i j : ℕ) → i ≤ 256 → j ≤ 256 → bytes_beq (key_of i) (key_of j) ≡ (i == j)
beq-key_of i j h k = elim (Bool-cases (i == j)) [
  | inl e ↦ rw (e, (==_iff i j).0 e) (beq_self (key_of j))
  | inr e ↦ rw e (key_of-differs i j h k (λ same. ground (arith, e, same)))
]

insert_two :
    (a b key : Bytes) (v w : ℕ) (m : GoMap Bytes ℕ)
    → bytes_beq b key ≡ false
    → lookup key (insert b w (insert a v m)) ≡ (if bytes_beq a key then some v else lookup key m)
insert_two a b key v w m h = rw (lookup-insert b key w (insert a v m), h) (lookup-insert a key v m)

add_to_map-key :
    (i j v : ℕ) (m : GoMap Bytes ℕ)
    → i ≤ 256
    → j ≤ 256
    → lookup (key_of j) (add_to_map i v m)
      ≡ (if i == j then (if ltb 0 v then some v else lookup (key_of j) m) else lookup (key_of j) m)
unfolding add_to_map
add_to_map-key i j v m h k =
    let put =
      insert_two (key_of i) total (key_of j) v
        ((or_zero (lookup total (insert (key_of i) v m)) + v) % 2 ^ 64) m (total-beq j) in
    elim (Bool-cases (ltb 0 v)) [
      | inl e ↦ rw (e, put, beq-key_of i j h k) refl
      | inr e ↦ rw e (ground arith)
    ]

add_all-later :
    (i j : ℕ) (vs : List ℕ) (m : GoMap Bytes ℕ)
    → i + length vs ≤ 257
    → j < i
    → lookup (key_of j) (add_all i vs m) ≡ lookup (key_of j) m
unfolding add_all
add_all-later i j [] m b h = refl
add_all-later i j (v ∷ vs) m b h =
    let other : (i == j) ≡ false = ground arith in
    add_all-later (suc i) j vs (add_to_map i v m) (omega arith) (omega arith)
    ∙ (add_to_map-key i j v m (omega arith) (omega arith) ∙ rw other refl)

get_elem?_bound : (xs : List ℕ) (k v : ℕ) → get_elem? xs k ≡ some v → k < length xs
get_elem?_bound [] k v h = absurd cc
get_elem?_bound (x ∷ xs) zero v h = omega arith
get_elem?_bound (x ∷ xs) (suc k) v h = omega (arith, get_elem?_bound xs k v h)

add_all-counter :
    (i k j v : ℕ) (vs : List ℕ) (m : GoMap Bytes ℕ)
    → i + k ≡ j
    → i + length vs ≤ 257
    → get_elem? vs k ≡ some v
    → lookup (key_of j) m ≡ none
    → lookup (key_of j) (add_all i vs m) ≡ shown v
unfolding add_all
add_all-counter i k j v [] m p b g h = absurd cc
add_all-counter i zero j v (w ∷ vs) m p b g h =
    let here : (i == j) ≡ true = ground (arith, p) in
    add_all-later (suc i) j vs (add_to_map i w m) (omega arith) (omega arith)
    ∙ (add_to_map-key i j w m (omega arith) (omega arith) ∙ rw (here, h) (ground (arith, g)))
add_all-counter i (suc k) j v (w ∷ vs) m p b g h =
    let in_range : suc i + k < 257 = omega (arith, get_elem?_bound vs k v g) in
    let other : (i == j) ≡ false = ground (arith, p) in
    add_all-counter (suc i) k j v vs (add_to_map i w m) (omega arith) (omega arith) g
      (add_to_map-key i j w m (omega arith) (omega arith) ∙ rw (other, h) refl)

-- The report of an array with a counter for every opcode and one more, whose counters add up to less
-- than 2^64: under a counter's name, that of its opcode or "unknown", the report has the counter, or
-- nothing if it is 0, and under "total" the sum, or nothing if it is 0.
pub report-counters :
    (counters : List ℕ)
    → length counters ≡ 257
    → sum counters < 2 ^ 64
    → ((i v : ℕ) → get_elem? counters i ≡ some v → lookup (key_of i) (report counters) ≡ shown v)
      × (lookup total (report counters) ≡ shown (sum counters))
unfolding lookup
report-counters counters size b = (
  λ i v g. add_all-counter 0 i i v counters [] (omega arith) (omega arith) g refl,
  report-HasTotal counters b,
)
