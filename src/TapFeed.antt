-- ===== src/TapFeed.antt =====
-- client/tap_feed.go: the loop of a TAP feed, which turns packets into events. Log
-- output is left out, and the hook is unset.
pub mod Arguments
pub mod Connect
pub mod Events
pub mod Stream
pub mod Texts
use Prim.Native.Nat.{bit_and, bit_or}
use mathlib.Core.Option
use gomemcached.Prelude.{
  ℕ, zero, suc, ◌+◌, ◌-◌, ◌%◌, ◌^◌, Bool, true, false, not, ◌&&◌, ◌||◌, Option, none, some, Bytes,
  List, [], ◌∷◌, ◌++◌, length, ltb, leb, ◌==◌, if◌then◌else◌, ◌>>=◌, put_uint16, put_uint32,
  put_uint64, uint16, uint32,
}
use gomemcached.Io.{IoError, eof, unexpected_eof, fault, Reader, Writer}
use gomemcached.Wire.Buffer.{slice_from, make_bytes}
use gomemcached.Wire.Layout
use gomemcached.Wire.Layout.{hdr_len, WireError}
use gomemcached.Wire.Opcode
use gomemcached.Wire.Status
use gomemcached.Wire.Request
use gomemcached.Wire.Request.{McRequest, empty_request, receive}
use gomemcached.Wire.Response
use gomemcached.Wire.Response.{McResponse, empty_response}
use gomemcached.Client.{Client, Conn}
use gomemcached.Tap

pub data TapOpcode : Type 0 where
  begin_backfill end_backfill mutation deletion checkpoint_start checkpoint_end end_stream :
      TapOpcode

pub record TapEvent : Type 0 where
  pub opcode : TapOpcode
  pub vbucket : ℕ
  pub flags : ℕ
  pub expiry : ℕ
  pub key : Bytes
  pub value : Bytes
  pub cas : ℕ

abbrev tap_mutation_extra_len : ℕ
tap_mutation_extra_len = 16

-- TapEvent{VBucket: req.VBucket}, once the opcode is known.
abbrev pub event_of : McRequest → TapOpcode → TapEvent
event_of req opcode = record {
  opcode = opcode;
  vbucket = req.vbucket;
  flags = 0;
  expiry = 0;
  key = [];
  value = [];
  cas = 0;
}

-- The switch over the subtypes of TAP_OPAQUE: `none` is the nil that it returns.
unfoldable pub opaque_opcode : ℕ → Option TapOpcode
opaque_opcode op =
    if op == Tap.tap_opaque_initial_vbucket_stream
    then some begin_backfill
    else if op == Tap.tap_opaque_close_backfill
    then some end_backfill
    else if op == Tap.tap_opaque_close_tap_stream
    then some end_stream
    else if op == Tap.tap_opaque_enable_auto_nack
    then none
    else if op == Tap.tap_opaque_enable_checkpoint_sync
    then none
    else none

-- The switch of makeTapEvent: inside, `none` is the nil that it returns.
unfoldable pub start_event : McRequest → Option (Option TapEvent)
start_event req =
    if req.opcode == Opcode.tap_mutation
    then some
        (some (record (event_of req mutation) { key = req.key; value = req.body; cas = req.cas }))
    else if req.opcode == Opcode.tap_delete
    then some (some (record (event_of req deletion) { key = req.key; cas = req.cas }))
    else if req.opcode == Opcode.tap_checkpoint_start
    then some (some (event_of req checkpoint_start))
    else if req.opcode == Opcode.tap_checkpoint_end
    then some (some (event_of req checkpoint_end))
    else if req.opcode == Opcode.tap_opaque
    then (if ltb (length req.extras) 12 then some none else (do
      op ← uint32 (← slice_from req.extras 8)
      some (Option.map (event_of req) (opaque_opcode op))))
    else some none

abbrev pub has_meta : TapOpcode → Bool
has_meta mutation = true
has_meta deletion = true
has_meta _ = false

unfoldable pub add_meta : McRequest → TapEvent → Option TapEvent
add_meta req event =
    if leb tap_mutation_extra_len (length req.extras) && has_meta event.opcode
    then (do
      flags ← uint32 (← slice_from req.extras 8)
      expiry ← uint32 (← slice_from req.extras 12)
      some (record event { flags = flags; expiry = expiry }))
    else some event

unfoldable pub finish_event : McRequest → Option TapEvent → Option (Option TapEvent)
finish_event req none = some none
finish_event req (some event) = do event' ← add_meta req event; some (some event')

-- makeTapEvent. The outer `none` is a panic.
unfoldable pub make_tap_event : McRequest → Option (Option TapEvent)
make_tap_event req = do event ← start_event req; finish_event req event

-- feed.Error: an error of the connection, or the server's answer to the connect request.
pub data TapError : Type 0 where
  wire : WireError → TapError
  connection_failed : Bytes → TapError
  ack : IoError → TapError

-- TapFeed and its connection. `events` is what went out on C; the application takes `takes` more and
-- then closes the feed (`none`: it never does).
pub record TapFeed : Type 0 where
  pub reader : Reader
  pub writer : Writer
  pub events : List TapEvent
  pub error : Option TapError
  pub takes : Option ℕ

-- How the loop ends. `out_of_fuel` is no behaviour of the program.
pub data Outcome : Type 0 where
  ended : TapFeed → Outcome
  panicked : Outcome
  out_of_fuel : Outcome

-- An EOF between two packets is no error.
unfoldable pub receive_error : WireError → Option TapError
receive_error (Layout.io eof) = none
receive_error e = some (wire e)

-- sendAck
unfoldable pub send_ack : TapFeed → McRequest → Option (TapFeed × Option IoError)
send_ack feed pkt = do
  t ←
      Response.transmit
        (record empty_response {
          opcode = pkt.opcode;
          opaque = pkt.opaque;
          status = Status.success;
        })
        feed.writer
  some (record feed { writer = t.writer }, t.err)

-- Whether the packet asks for an acknowledgment.
unfoldable pub wants_ack : McRequest → Option Bool
wants_ack pkt =
    if leb 4 (length pkt.extras)
    then (do
      req_flags ← uint16 (← slice_from pkt.extras 2)
      some (not (bit_and req_flags Tap.tap_ack == 0)))
    else some false

-- How one turn of the loop ends.
pub data Turn : Type 0 where
  next : TapFeed → Turn
  break_loop : TapFeed → Turn

unfoldable pub after_ack : TapFeed × Option IoError → Turn
after_ack (feed, none) = next feed
after_ack (feed, some err) = break_loop (record feed { error = some (ack err) })

unfoldable pub acknowledge : TapFeed → McRequest → Option Turn
acknowledge feed pkt = do
  wanted ← wants_ack pkt
  if wanted then (do sent ← send_ack feed pkt; some (after_ack sent)) else some (next feed)

abbrev pub is_end : TapOpcode → Bool
is_end end_stream = true
is_end _ = false

-- The select on C and the closer: `none` when the feed was closed.
unfoldable pub send_event : Option ℕ → TapFeed → TapEvent → Option TapFeed
send_event none feed event = some (record feed { events = feed.events ++ (event ∷ []) })
send_event (some zero) feed event = none
send_event (some (suc n)) feed event =
    some (record feed { events = feed.events ++ (event ∷ []); takes = some n })

unfoldable pub acknowledge_sent : TapFeed → McRequest → Option TapFeed → Option Turn
acknowledge_sent feed pkt none = some (break_loop feed)
acknowledge_sent feed pkt (some sent) = acknowledge sent pkt

unfoldable pub deliver : TapFeed → McRequest → Option TapEvent → Option Turn
deliver feed pkt none = acknowledge feed pkt
deliver feed pkt (some event) =
    if is_end event.opcode
    then some (break_loop feed)
    else acknowledge_sent feed pkt (send_event feed.takes feed event)

unfoldable pub handle_packet : TapFeed → McRequest → Option Turn
handle_packet feed pkt =
    if pkt.opcode == Opcode.tap_connect
    then some (break_loop (record feed { error = some (connection_failed pkt.body) }))
    else (do event ← make_tap_event pkt; deliver feed pkt event)

unfoldable pub after_packet : (TapFeed → Outcome) → Option Turn → Outcome
after_packet again none = panicked
after_packet again (some (next feed)) = again feed
after_packet again (some (break_loop feed)) = ended feed

unfoldable pub set_error : TapFeed → Option TapError → TapFeed
set_error feed none = feed
set_error feed (some e) = record feed { error = some e }

unfoldable pub after_error : (TapFeed → Outcome) → TapFeed → McRequest → Option WireError → Outcome
after_error again feed pkt (some err) = ended (set_error feed (receive_error err))
after_error again feed pkt none = after_packet again (handle_packet feed pkt)

unfoldable pub after_receive : (TapFeed → Outcome) → TapFeed → Option Request.Received → Outcome
after_receive again feed none = panicked
after_receive again feed (some got) =
    after_error again (record feed { reader = got.reader }) got.req got.err

-- The loop, with a fresh packet in each turn.
unfoldable pub feed_loop : ℕ → TapFeed → Outcome
feed_loop zero feed = out_of_fuel
feed_loop (suc fuel) feed =
    after_receive (feed_loop fuel) feed (receive empty_request feed.reader (make_bytes hdr_len))

-- runFeed. Every turn that goes on takes a byte at least, so that this fuel is enough.
unfoldable pub run_feed : TapFeed → Outcome
run_feed feed = feed_loop (suc (length feed.reader.input)) feed
