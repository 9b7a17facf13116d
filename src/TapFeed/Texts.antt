-- ===== src/TapFeed/Texts.antt =====
-- The texts of client/tap_feed.go.
use Prim.Native.String.{String}
use gomemcached.Prelude.{
  ℕ, ◌<◌, ◌≡◌, refl, ap, true, some, Bytes, List, [], ◌∷◌, ◌++◌, length, arith,
}
use gomemcached.GoMap.{bytes_beq}
use gomemcached.Text.{codes, decimal, hex, name_or}
use gomemcached.Text.Numbers.{value-decimal}
use gomemcached.Text.Names.{code_of, parse_number, are_names, code_of-name_or}
use gomemcached.TapFeed.{
  TapOpcode, begin_backfill, end_backfill, mutation, deletion, checkpoint_start, checkpoint_end,
  end_stream, TapEvent,
}

-- The opcodes' numbers.
abbrev pub iota : TapOpcode → ℕ
iota begin_backfill = 0
iota end_backfill = 1
iota mutation = 2
iota deletion = 3
iota checkpoint_start = 4
iota checkpoint_end = 5
iota end_stream = 6

abbrev pub tap_opcode_names : List (ℕ × String)
tap_opcode_names =
    (iota begin_backfill, "BeginBackfill")
    ∷ (iota end_backfill, "EndBackfill")
    ∷ (iota mutation, "Mutation")
    ∷ (iota deletion, "Deletion")
    ∷ (iota checkpoint_start, "TapCheckpointStart")
    ∷ (iota checkpoint_end, "TapCheckpointEnd")
    ∷ (iota end_stream, "EndStream")
    ∷ []

-- String of a TapOpcode, of any number.
unfoldable pub tap_opcode_text : ℕ → Bytes
tap_opcode_text n = name_or tap_opcode_names (codes "#" ++ decimal n) n

-- What String of a TapEvent says of a vBucket.
abbrev vbucket_text : TapEvent → Bytes
vbucket_text event =
    codes "<TapEvent "
    ++ (tap_opcode_text (iota event.opcode)
        ++ (codes ", vbucket=" ++ (decimal event.vbucket ++ codes ">")))

-- What it says of an item. `quote` is the verb %q.
abbrev item_text : (quote : Bytes → Bytes) → TapEvent → Bytes
item_text quote event =
    codes "<TapEvent "
    ++ (tap_opcode_text (iota event.opcode)
        ++ (codes ", key="
            ++ (quote event.key
                ++ (codes " ("
                    ++ (decimal (length event.value)
                        ++ (codes " bytes) flags="
                            ++ (hex event.flags
                                ++ (codes ", exp=" ++ (decimal event.expiry ++ codes ">")))))))))

-- The switch over the opcode in String of a TapEvent.
abbrev text_for : (quote : Bytes → Bytes) → TapEvent → TapOpcode → Bytes
text_for quote event begin_backfill = vbucket_text event
text_for quote event end_backfill = vbucket_text event
text_for quote event checkpoint_start = vbucket_text event
text_for quote event checkpoint_end = vbucket_text event
text_for quote event mutation = item_text quote event
text_for quote event deletion = item_text quote event
text_for quote event end_stream = item_text quote event

-- String of a TapEvent.
unfoldable pub event_text : (quote : Bytes → Bytes) → TapEvent → Bytes
event_text quote event = text_for quote event event.opcode

tap_opcode_names-are_names : are_names b'#' tap_opcode_names ≡ true
unfolding bytes_beq
tap_opcode_names-are_names = refl

-- The text of a TapOpcode can be read back.
pub code_of-tap_opcode_text :
    (n : ℕ) → n < 256 → code_of tap_opcode_names parse_number (tap_opcode_text n) ≡ some n
unfolding tap_opcode_text
code_of-tap_opcode_text n h =
    code_of-name_or b'#' (decimal n) tap_opcode_names parse_number n tap_opcode_names-are_names
      (ap some (value-decimal n (omega arith)))
