-- ===== src/Tap/Commands.antt =====
-- ParseTapCommands of tap.go returns on every request.
use gomemcached.Prelude.{
  ℕ, zero, suc, ◌≤◌, ◌≡◌, ◌≢◌, refl, Option, none, some, Bytes, List, [], ◌∷◌, ◌++◌, All, length,
  arith, IsByte, uint16, uint64, uint16_total, uint64_total, uint32_bound, uint32_total,
  Option-cases, Bool-cases, inl, inr, length-take, ltb,
}
use gomemcached.Io.{Reader, ReadResult, read_full}
use gomemcached.GoMap.{insert, nat_eq}
use gomemcached.Wire.Request.{McRequest}
use gomemcached.Tap.{
  Parsed, word, TapConnect, read_word, tap_parse_uint16, tap_parse_uint64, tap_parse_bool,
  tap_parse_vb_list, parse_vbs, tap_flag_parser, parse_fields, parse_tap_commands,
}
use gomemcached.Tap.Flags.{split_flags-sum}

-- Without an error a full read has filled the buffer.
filled : (r : Reader) (n : ℕ) → (read_full r n).err ≡ none → n ≤ length (read_full r n).buf
unfolding read_full
filled r n h = ground (arith, length-take n r.input)

-- A parser of a word gives an error or a word.
IsWord : Option Parsed → Type 0
IsWord m = (p : Parsed) × (m ≡ some p) × ((v : ℕ) × (p.val ≡ word v))

read_word-IsWord :
    (decode : Bytes → Option ℕ) (n : ℕ) (got : ReadResult)
    → ((bs : Bytes) → n ≤ length bs → (v : ℕ) × (decode bs ≡ some v))
    → (got.err ≡ none → n ≤ length got.buf)
    → IsWord (read_word decode got)
unfolding read_word IsWord
read_word-IsWord decode n got total full = elim (Option-cases got.err) [
  | inl e ↦ let (v, d) = total got.buf (full e) in rw (e, d) (_, refl, (v, refl))
  | inr (x, e) ↦ rw e (_, refl, (0, refl))
]

uint16-IsWord : (r : Reader) → IsWord (tap_parse_uint16 r)
unfolding tap_parse_uint16
uint16-IsWord r = read_word-IsWord uint16 2 (read_full r 2) uint16_total (filled r 2)

uint64-IsWord : (r : Reader) → IsWord (tap_parse_uint64 r)
unfolding tap_parse_uint64
uint64-IsWord r = read_word-IsWord uint64 8 (read_full r 8) uint64_total (filled r 8)

parse_vbs_returns : (n : ℕ) (rv : List ℕ) (r : Reader) → parse_vbs n rv r ≢ none
unfolding parse_vbs IsWord
parse_vbs_returns zero rv r = λ e. cc
parse_vbs_returns (suc n) rv r =
    let (p, e, (v, f)) = uint16-IsWord r in
    elim (Option-cases p.err) [
      | inl x ↦ ground (arith, e, x, f, parse_vbs_returns n (rv ++ (v ∷ [])) p.reader)
      | inr (er, x) ↦ ground (arith, e, x)
    ]

vb_list_returns : (r : Reader) → tap_parse_vb_list r ≢ none
unfolding tap_parse_vb_list IsWord
vb_list_returns r =
    let (p, e, (v, f)) = uint16-IsWord r in
    elim (Option-cases p.err) [
      | inl x ↦ ground (arith, e, x, f, parse_vbs_returns v [] p.reader)
      | inr (er, x) ↦ ground (arith, e, x)
    ]

parser_returns : (f : ℕ) (r : Reader) → tap_flag_parser f r ≢ none
unfolding tap_flag_parser tap_parse_bool IsWord
parser_returns f r = let (p, e, w) = uint64-IsWord r in ground (arith, e, vb_list_returns r)

parse_fields_returns : (fs : List ℕ) (rv : TapConnect) (r : Reader) → parse_fields fs rv r ≢ none
unfolding parse_fields
parse_fields_returns [] rv r = λ e. cc
parse_fields_returns (f ∷ fs) rv r = elim (Option-cases (tap_flag_parser f r)) [
  | inl e ↦ absurd (parser_returns f r e)
  | inr (x, e) ↦ elim (Option-cases x.err) [
    | inl y ↦ ground (
      arith,
      e,
      y,
      parse_fields_returns fs (record rv { flags = insert f x.val rv.flags }) x.reader,
    )
    | inr (er, y) ↦ ground (arith, e, y)
  ]
]

-- ParseTapCommands returns on every request: no parser panics, whatever the body holds, and the loop
-- of SplitFlags ends.
pub parse_tap_commands_returns :
    (req : McRequest) → All IsByte req.extras → parse_tap_commands req ≢ none
unfolding parse_tap_commands
parse_tap_commands_returns req h = elim (Bool-cases (ltb (length req.extras) 4)) [
  | inl short ↦ rw short (λ z. cc)
  | inr long ↦
      let (v, e) = uint32_total req.extras (ground (arith, long)) in
      let (fs, s, _, _) = split_flags-sum v (uint32_bound req.extras v h e) in
      rw (long, e, s) (parse_fields_returns fs _ _)
]
