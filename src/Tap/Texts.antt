-- ===== src/Tap/Texts.antt =====
-- The text of a TAP connect's flags in tap.go, and that the flags can be read back from it.
use Prim.Native.String.{String}
use gomemcached.Prelude.{
  ℕ, ◌+◌, ◌^◌, ◌<◌, ◌≡◌, refl, ap, ◌∙◌, Bool, true, false, ◌&&◌, Option, some, Bytes, List, [], ◌∷◌,
  ◌++◌, map, All, arith, IsU32, ◌>>=◌, if◌then◌else◌, ◌==◌, Bool-cases, inl, inr,
}
use gomemcached.GoMap.{bytes_beq}
use gomemcached.Text.{codes, hex, name_in, name_or, is_empty, join}
use gomemcached.Text.Numbers.{value-hex}
use gomemcached.Text.Names.{code_of, parse_hex, are_names, code_of-name_or}
use gomemcached.Text.Joining.{split_on, split_on-join, IsFree, is_free, digits-IsFree}
use gomemcached.Tap.{
  split_flags, backfill, dump, list_vbuckets, takeover_vbuckets, support_ack, request_keys_only,
  checkpoint, registered_client, fix_flag_byteorder,
}
use gomemcached.Tap.Flags.{sum, split_flags-sum}

-- TapConnectFlagNames
abbrev pub flag_names : List (ℕ × String)
flag_names =
    (backfill, "BACKFILL")
    ∷ (dump, "DUMP")
    ∷ (list_vbuckets, "LIST_VBUCKETS")
    ∷ (takeover_vbuckets, "TAKEOVER_VBUCKETS")
    ∷ (support_ack, "SUPPORT_ACK")
    ∷ (request_keys_only, "REQUEST_KEYS_ONLY")
    ∷ (checkpoint, "CHECKPOINT")
    ∷ (registered_client, "REGISTERED_CLIENT")
    ∷ (fix_flag_byteorder, "FIX_FLAG_BYTEORDER")
    ∷ []

-- The text of one flag.
unfoldable pub flag_part : ℕ → Bytes
flag_part x = name_or flag_names (codes "0x" ++ hex x) x

-- String of a TapConnectFlag.
unfoldable pub flags_text : ℕ → Option Bytes
flags_text f = do flags ← split_flags f; some (join (map flag_part flags) (codes "|"))

-- Reading the flags back: the codes of the parts are added.
abbrev add_parts : List Bytes → Option ℕ
add_parts [] = some 0
add_parts (p ∷ ps) = do x ← code_of flag_names parse_hex p; n ← add_parts ps; some (x + n)

unfoldable pub flags_of : Bytes → Option ℕ
flags_of text = if is_empty text then some 0 else add_parts (split_on b'|' text)

flag_names-are_names : are_names b'0' flag_names ≡ true
unfolding bytes_beq
flag_names-are_names = refl

code_of-flag_part : (x : ℕ) → x < 16 ^ 17 → code_of flag_names parse_hex (flag_part x) ≡ some x
unfolding flag_part
code_of-flag_part x h =
    code_of-name_or b'0' (b'x' ∷ hex x) flag_names parse_hex x flag_names-are_names
      (ap some (value-hex x h))

abbrev are_free : List (ℕ × String) → Bool
are_free [] = true
are_free ((k, name) ∷ names) = is_free b'|' (codes name) && are_free names

name_in-IsFree :
    (names : List (ℕ × String)) (x : ℕ) → are_free names ≡ true → IsFree b'|' (name_in names x)
unfolding name_in
name_in-IsFree [] x h = refl
name_in-IsFree ((k, name) ∷ names) x h = elim (Bool-cases (k == x)) [
  | inl e ↦ rw e (ground (arith, h))
  | inr e ↦ rw e (name_in-IsFree names x (ground (arith, h)))
]

flag_part-IsFree : (x : ℕ) → IsFree b'|' (flag_part x)
unfolding flag_part
flag_part-IsFree x = elim (Bool-cases (is_empty (name_in flag_names x))) [
  | inl e ↦ rw e (digits-IsFree b'|' 17 x [] (omega arith) refl)
  | inr e ↦ rw e (name_in-IsFree flag_names x refl)
]

parts-IsFree : (fs : List ℕ) → All (IsFree b'|') (map flag_part fs)
parts-IsFree [] = tt
parts-IsFree (f ∷ fs) = (flag_part-IsFree f, parts-IsFree fs)

add_parts-sum : (fs : List ℕ) → sum fs < 16 ^ 17 → add_parts (map flag_part fs) ≡ some (sum fs)
add_parts-sum [] h = refl
add_parts-sum (f ∷ fs) h =
    rw (code_of-flag_part f (omega arith), add_parts-sum fs (omega arith)) refl

flag_part-nonempty : (x : ℕ) → is_empty (flag_part x) ≡ false
unfolding flag_part
flag_part-nonempty x = elim (Bool-cases (is_empty (name_in flag_names x))) [
  | inl e ↦ rw e refl
  | inr e ↦ rw e e
]

is_empty-append : (p q : Bytes) → is_empty p ≡ false → is_empty (p ++ q) ≡ false
is_empty-append [] q h = absurd cc
is_empty-append (x ∷ p) q h = refl

join-nonempty :
    (p : Bytes) (ps : List Bytes) (sep : Bytes)
    → is_empty p ≡ false
    → is_empty (join (p ∷ ps) sep) ≡ false
unfolding join
join-nonempty p [] sep h = h
join-nonempty p (q ∷ ps) sep h = is_empty-append p (sep ++ join (q ∷ ps) sep) h

parts-read :
    (fs : List ℕ)
    → sum fs < 16 ^ 17
    → flags_of (join (map flag_part fs) (codes "|")) ≡ some (sum fs)
unfolding flags_of join
parts-read [] h = refl
parts-read (f ∷ fs) h =
    rw
      (
        join-nonempty (flag_part f) (map flag_part fs) (codes "|") (flag_part-nonempty f),
        split_on-join b'|' (flag_part f) (map flag_part fs) (parts-IsFree (f ∷ fs)),
      )
      (add_parts-sum (f ∷ fs) h)

-- The text of a word of flags, the names and numbers of its bits, is made for every word, and the
-- word can be read back from it.
pub flags_of-flags_text :
    (f : ℕ) → IsU32 f → (text : Bytes) × (flags_text f ≡ some text) × (flags_of text ≡ some f)
unfolding flags_text
flags_of-flags_text f h =
    let (fs, splits, total, powers) = split_flags-sum f h in
    let small : sum fs < 16 ^ 17 = omega (arith, total) in
    (join (map flag_part fs) (codes "|"), rw splits refl, parts-read fs small ∙ ap some total)
