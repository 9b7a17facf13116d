-- ===== src/Tap.antt =====
-- tap.go: the flags of a TAP connect and the fields that they announce in its body.
pub mod Flags
pub mod Commands
pub mod Texts
use Prim.Native.Nat.{bit_and}
use mathlib.Core.Option
use gomemcached.Prelude.{
  ℕ, zero, suc, ◌+◌, ◌*◌, ◌-◌, ◌%◌, ◌^◌, Bool, true, false, Option, none, some, Bytes, List, [],
  ◌∷◌, ◌++◌, length, ltb, ◌==◌, if◌then◌else◌, ◌>>=◌, uint16, uint32, uint64,
}
use gomemcached.Io.{IoError, eof, Reader, ReadResult, read_full}
use gomemcached.GoMap.{GoMap, insert, nat_eq}
use gomemcached.Wire.Request.{McRequest}

abbrev pub backfill : ℕ
backfill = 0x01

abbrev pub dump : ℕ
dump = 0x02

abbrev pub list_vbuckets : ℕ
list_vbuckets = 0x04

abbrev pub takeover_vbuckets : ℕ
takeover_vbuckets = 0x08

abbrev pub support_ack : ℕ
support_ack = 0x10

abbrev pub request_keys_only : ℕ
request_keys_only = 0x20

abbrev pub checkpoint : ℕ
checkpoint = 0x40

abbrev pub registered_client : ℕ
registered_client = 0x80

abbrev pub fix_flag_byteorder : ℕ
fix_flag_byteorder = 0x100

abbrev pub tap_opaque_enable_auto_nack : ℕ
tap_opaque_enable_auto_nack = 0

abbrev pub tap_opaque_initial_vbucket_stream : ℕ
tap_opaque_initial_vbucket_stream = 1

abbrev pub tap_opaque_enable_checkpoint_sync : ℕ
tap_opaque_enable_checkpoint_sync = 2

abbrev pub tap_opaque_close_tap_stream : ℕ
tap_opaque_close_tap_stream = 7

abbrev pub tap_opaque_close_backfill : ℕ
tap_opaque_close_backfill = 8

abbrev pub tap_ack : ℕ
tap_ack = 1

-- What the parsers give for a flag: Go's `interface{}` holding one of these, or nil.
pub data TapItem : Type 0 where
  word : ℕ → TapItem
  flag : Bool → TapItem
  vb_list : List ℕ → TapItem
  nil : TapItem

-- A parser's value and error, and the reader after.
pub record Parsed : Type 0 where
  pub val : TapItem
  pub err : Option IoError
  pub reader : Reader

abbrev word_of : Option ℕ → Option TapItem
word_of = Option.map word

-- What binary.Read makes of the bytes that ReadFull gave; after an error the variable is 0.
unfoldable pub read_word : (Bytes → Option ℕ) → ReadResult → Option Parsed
read_word decode got = elim got.err [
  | some e ↦ some (record { val = word 0; err = some e; reader = got.reader })
  | none ↦ do v ← decode got.buf; some (record { val = word v; err = none; reader = got.reader })
]

unfoldable pub tap_parse_uint64 : Reader → Option Parsed
tap_parse_uint64 r = read_word uint64 (read_full r 8)

unfoldable pub tap_parse_uint16 : Reader → Option Parsed
tap_parse_uint16 r = read_word uint16 (read_full r 2)

unfoldable pub tap_parse_bool : Reader → Option Parsed
tap_parse_bool r = some (record { val = flag true; err = none; reader = r })

-- The type assertion x.(uint16), which panics on any other value.
abbrev pub as_uint16 : TapItem → Option ℕ
as_uint16 (word v) = some v
as_uint16 _ = none

-- The loop of TapParseVBList over the `n` numbers that are still to come.
unfoldable pub parse_vbs : ℕ → List ℕ → Reader → Option Parsed
parse_vbs zero rv r = some (record { val = vb_list rv; err = none; reader = r })
parse_vbs (suc n) rv r = do
  x ← tap_parse_uint16 r
  elim x.err [
    | some e ↦ some (record { val = nil; err = some e; reader = x.reader })
    | none ↦ do v ← as_uint16 x.val; parse_vbs n (rv ++ (v ∷ [])) x.reader
  ]

unfoldable pub tap_parse_vb_list : Reader → Option Parsed
tap_parse_vb_list r = do
  num ← tap_parse_uint16 r
  elim num.err [
    | some e ↦ some (record { val = nil; err = some e; reader = num.reader })
    | none ↦ do n ← as_uint16 num.val; parse_vbs n [] num.reader
  ]

-- TapFlagParsers, with TapParseBool for the flags that are not in it.
unfoldable pub tap_flag_parser : ℕ → Reader → Option Parsed
tap_flag_parser f r =
    if f == backfill
    then tap_parse_uint64 r
    else if f == list_vbuckets
    then tap_parse_vb_list r
    else tap_parse_bool r

-- The loop of SplitFlags on uint32 words; `none` means that the fuel ran out.
unfoldable pub split_loop : ℕ → ℕ → ℕ → List ℕ → Option (List ℕ)
split_loop zero f i rv = none
split_loop (suc fuel) f i rv =
    let rv' = if bit_and f i == i then rv ++ (i ∷ []) else rv in
    let rest = split_loop fuel (bit_and f (2 ^ 32 - 1 - i)) (i * 2 % 2 ^ 32) rv' in
    if f == 0 then some rv else rest

unfoldable pub split_flags : ℕ → Option (List ℕ)
split_flags f = split_loop 33 f 1 []

pub record TapConnect : Type 0 where
  pub flags : GoMap ℕ TapItem
  pub remaining_body : Bytes
  pub name : Bytes

pub data TapError : Type 0 where
  short_extras : Bytes → TapError
  io : IoError → TapError

pub record TapCommands : Type 0 where
  pub connect : TapConnect
  pub err : Option TapError

-- The loop of ParseTapCommands over the flags, and the rest of the body behind the last.
unfoldable pub parse_fields : List ℕ → TapConnect → Reader → Option TapCommands
parse_fields [] rv r =
    some (record { connect = record rv { remaining_body = r.input }; err = none })
parse_fields (f ∷ fs) rv r = do
  x ← tap_flag_parser f r
  elim x.err [
    | some e ↦ some (record { connect = rv; err = some (io e) })
    | none ↦ parse_fields fs (record rv { flags = insert f x.val rv.flags }) x.reader
  ]

-- ParseTapCommands. `none` is a panic, or the fuel of SplitFlags.
unfoldable pub parse_tap_commands : McRequest → Option TapCommands
parse_tap_commands req =
    let rv : TapConnect = record { flags = []; remaining_body = []; name = req.key } in
    if ltb (length req.extras) 4
    then some (record { connect = rv; err = some (short_extras req.extras) })
    else (do
      flags ← uint32 req.extras
      fs ← split_flags flags
      parse_fields fs rv (record { input = req.body; ending = eof }))
