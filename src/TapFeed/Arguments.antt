-- ===== src/TapFeed/Arguments.antt =====
-- client/tap_feed.go: the arguments of a TAP feed, and the request for it.
use Prim.Native.Nat.{bit_or}
use gomemcached.Prelude.{
  ℕ, ◌-◌, ◌%◌, ◌^◌, Bool, false, not, Bytes, List, [], ◌∷◌, ◌++◌, length, ltb, ◌==◌, if◌then◌else◌,
  put_uint16, put_uint32, put_uint64,
}
use gomemcached.Wire.Opcode
use gomemcached.Wire.Request.{McRequest, empty_request}
use gomemcached.Tap

pub record TapArguments : Type 0 where
  pub backfill : ℕ
  pub dump : Bool
  pub vbuckets : List ℕ
  pub takeover : Bool
  pub support_ack : Bool
  pub keys_only : Bool
  pub checkpoint : Bool
  pub client_name : Bytes
  pub registered_client : Bool

abbrev pub tap_no_backfill : ℕ
tap_no_backfill = 2 ^ 64 - 1

abbrev pub default_tap_arguments : TapArguments
default_tap_arguments = record {
  backfill = tap_no_backfill;
  dump = false;
  vbuckets = [];
  takeover = false;
  support_ack = false;
  keys_only = false;
  checkpoint = false;
  client_name = [];
  registered_client = false;
}

-- if b { flags |= f }
unfoldable pub or_flag : Bool → ℕ → ℕ → ℕ
or_flag b f flags = if b then bit_or flags f else flags

-- The word of the eight flags.
unfoldable pub flag_word : Bool → Bool → Bool → Bool → Bool → Bool → Bool → Bool → ℕ
unfolding or_flag
flag_word b0 b1 b2 b3 b4 b5 b6 b7 = or_flag b7 Tap.registered_client (
    or_flag b6 Tap.checkpoint (
      or_flag b5 Tap.request_keys_only (
        or_flag b4 Tap.support_ack (
          or_flag b3 Tap.takeover_vbuckets
            (or_flag b2 Tap.list_vbuckets (or_flag b1 Tap.dump (or_flag b0 Tap.backfill 0)))))))

-- flags
unfoldable pub flags : TapArguments → Bytes
flags args = put_uint32 (
    flag_word (not (args.backfill == 0)) args.dump (ltb 0 (length args.vbuckets)) args.takeover
      args.support_ack args.keys_only args.checkpoint args.registered_client)

-- The loop of bytes over the vbuckets.
unfoldable pub vb_bytes : List ℕ → Bytes
vb_bytes [] = []
vb_bytes (vb ∷ vbs) = put_uint16 vb ++ vb_bytes vbs

-- bytes
unfoldable pub bytes : TapArguments → Bytes
bytes args =
    let word = if ltb 0 args.backfill then put_uint64 args.backfill else [] in
    if ltb 0 (length args.vbuckets)
    then word ++ (put_uint16 (length args.vbuckets % 2 ^ 16) ++ vb_bytes args.vbuckets)
    else word

-- The request that StartTapFeed sends.
unfoldable pub connect_request : TapArguments → McRequest
connect_request args = record empty_request {
  opcode = Opcode.tap_connect;
  key = args.client_name;
  extras = flags args;
  body = bytes args;
}
