-- ===== src/Upr/Feed.antt =====
-- The loop of client/upr_feed.go over the packets of a connection. What it sends on its channels is
-- kept in lists: the events for the application, and the requests for the goroutine that transmits
-- them, which is taken to run here and is a goroutine of its own in Channels. Log output is left out.
pub mod FlowControl
pub mod Streams
pub mod Endings
pub mod Unknown
pub mod Termination
pub mod Stream
pub mod Channels
use mathlib.Core.List.{Permᴰ}
use gomemcached.Prelude.{
  ℕ, zero, suc, ◌+◌, ◌%◌, ◌^◌, Bool, true, false, ◌||◌, Option, none, some, List, [], ◌∷◌, ◌++◌,
  map, length, ltb, ◌==◌, if◌then◌else◌, ◌>>=◌, put_uint32, ◌-◌,
}
use gomemcached.Io.{Reader}
use gomemcached.GoMap.{GoMap, lookup, insert, delete, nat_eq}
use gomemcached.Wire.Buffer.{make_bytes}
use gomemcached.Wire.Layout.{hdr_len, WireError}
use gomemcached.Wire.Opcode
use gomemcached.Wire.Status
use gomemcached.Wire.Request
use gomemcached.Wire.Request.{McRequest, empty_request, receive}
use gomemcached.Wire.Response.{McResponse, empty_response}
use gomemcached.Upr.{
  UprEvent, empty_event, UprStream, StreamReply, make_upr_event, handle_stream_request, vb_opaque,
  UprError,
}

pub record UprStats : Type 0 where
  pub total_bytes : ℕ
  pub total_mutation : ℕ
  pub total_buffer_ack_sent : ℕ
  pub total_snap_shot : ℕ

-- The order in which Go ranges over a map: any order of its entries.
pub record MapRange : Type 0 where
  pub order : GoMap ℕ UprStream → List (ℕ × UprStream)
  pub perm : (m : GoMap ℕ UprStream) → Permᴰ m (order m)

-- UprFeed without its connection and locks, and the order `range` of a range over its streams. `events` is what went out on C, in its order, and
-- `commands` what went to transmitCh. The application takes `takes` events more and then closes the
-- feed (`none`: it never does).
pub record UprFeed : Type 0 where
  pub vbstreams : GoMap ℕ UprStream
  pub range : MapRange
  pub error : Option WireError
  pub to_ack_bytes : ℕ
  pub max_ack_bytes : ℕ
  pub stats : UprStats
  pub events : List UprEvent
  pub commands : List McRequest
  pub takes : Option ℕ

-- SendBufferAck, with the feed that it leaves first. The sums are uint32.
unfoldable pub send_buffer_ack : UprFeed → Bool → ℕ → UprFeed × Bool × ℕ
send_buffer_ack feed send_ack n =
    let total_bytes = (feed.to_ack_bytes + n) % 2 ^ 32 in
    if send_ack
    then (if ltb feed.max_ack_bytes total_bytes
        then (record feed { to_ack_bytes = 0 }, true, total_bytes)
        else (record feed { to_ack_bytes = total_bytes }, false, 0))
    else (feed, false, 0)

abbrev pub buffer_ack : ℕ → McRequest
buffer_ack send_size = record empty_request {
  opcode = Opcode.upr_bufferack;
  extras = put_uint32 send_size;
}

-- What the loop does with the results of SendBufferAck.
unfoldable pub transmit_ack : UprFeed × Bool × ℕ → UprFeed
transmit_ack (feed, need_to_send, send_size) =
    if need_to_send
    then record feed {
      commands = feed.commands ++ (buffer_ack send_size ∷ []);
      stats = record feed.stats {
        total_buffer_ack_sent = (feed.stats.total_buffer_ack_sent + 1) % 2 ^ 64;
      };
    }
    else feed

-- What the switch over a packet's opcode comes to: the end of the loop, or the feed, the event and
-- whether the packet's bytes are to be acknowledged.
pub data Step : Type 0 where
  break_loop : UprFeed → Step
  next : UprFeed → Option UprEvent → Bool → Step

-- The tests `stream == nil`.
unfoldable pub with_stream : UprFeed → (UprStream → Option Step) → Option UprStream → Option Step
with_stream feed k none = some (break_loop feed)
with_stream feed k (some stream) = k stream

unfoldable pub response_of : McRequest → McResponse
response_of pkt = record empty_response {
  opcode = pkt.opcode;
  cas = pkt.cas;
  opaque = pkt.opaque;
  status = pkt.vbucket;
  extras = pkt.extras;
  key = pkt.key;
  body = pkt.body;
}

-- The event for a stream request that failed with an error.
unfoldable pub failed_event : ℕ → StreamReply → Option UprError → Option UprEvent
failed_event vb reply none = none
failed_event vb reply (some err) = some (record empty_event {
  opcode = Opcode.upr_streamreq;
  status = reply.status;
  vbucket = vb;
  error = some err;
})

unfoldable pub stream_answered : UprFeed → ℕ → McRequest → UprStream → StreamReply → Option Step
stream_answered feed vb pkt stream reply =
    if reply.status == Status.rollback
    then (do
      event ← make_upr_event pkt stream
      some (
          next (record feed { vbstreams = delete vb feed.vbstreams })
            (some (record event { status = reply.status })) false))
    else if reply.status == Status.success
    then (do
      event ← make_upr_event pkt stream
      some (
          next
            (record feed {
              vbstreams = insert vb (record stream { connected = true }) feed.vbstreams;
            })
            (some (record event {
              seqno = stream.start_seq;
              failover_log = reply.flog;
              status = reply.status;
            }))
            false))
    else some (next feed (failed_event vb reply reply.err) false)

unfoldable pub count_mutation : UprFeed → UprFeed
count_mutation feed = record feed {
  stats = record feed.stats { total_mutation = (feed.stats.total_mutation + 1) % 2 ^ 64 };
}

unfoldable pub count_snap_shot : UprFeed → UprFeed
count_snap_shot feed = record feed {
  stats = record feed.stats { total_snap_shot = (feed.stats.total_snap_shot + 1) % 2 ^ 64 };
}

-- The switch over the opcode, on the stream of the packet's vbucket.
unfoldable pub handle_packet : UprFeed → McRequest → Option Step
handle_packet feed pkt =
    let vb = vb_opaque pkt.opaque in
    let stream = lookup vb feed.vbstreams in
    if pkt.opcode == Opcode.upr_streamreq
    then with_stream feed
        (λ s. do
          reply ← handle_stream_request (response_of pkt)
          stream_answered feed vb pkt s reply)
        stream
    else if (pkt.opcode == Opcode.upr_mutation)
        || ((pkt.opcode == Opcode.upr_deletion) || (pkt.opcode == Opcode.upr_expiration))
    then with_stream feed
        (λ s. do event ← make_upr_event pkt s; some (next (count_mutation feed) (some event) true))
        stream
    else if pkt.opcode == Opcode.upr_streamend
    then with_stream feed
        (λ s. do
          event ← make_upr_event pkt s
          some (next (record feed { vbstreams = delete vb feed.vbstreams }) (some event) true))
        stream
    else if pkt.opcode == Opcode.upr_snapshot
    then with_stream feed
        (λ s. do event ← make_upr_event pkt s; some (next (count_snap_shot feed) (some event) true))
        stream
    else if pkt.opcode == Opcode.upr_flush
    then with_stream feed
        (λ s. do event ← make_upr_event pkt s; some (next feed (some event) false)) stream
    else if pkt.opcode == Opcode.upr_closestream
    then with_stream feed
        (λ s. do
          event ← make_upr_event pkt s
          some (
              next (record feed { vbstreams = delete vb feed.vbstreams })
                (some (record event { opcode = Opcode.upr_streamend })) true))
        stream
    else if pkt.opcode == Opcode.upr_noop
    then some (
        next
          (record feed {
            commands = feed.commands ++ (record empty_request { opcode = Opcode.upr_noop } ∷ []);
          })
          none false)
    else some (next feed none false)

-- doStreamClose: an end for every stream, in the order of the range.
abbrev pub close_event : ℕ × UprStream → UprEvent
close_event (vb, stream) = record empty_event {
  vbucket = vb;
  vbuuid = stream.vbuuid;
  opcode = Opcode.upr_streamend;
}

unfoldable pub do_stream_close : UprFeed → UprFeed
do_stream_close feed = record feed {
  events = feed.events ++ map close_event (feed.range.order feed.vbstreams);
}

-- Sending an event on C: `none` when the feed was closed.
abbrev pub send_event : Option ℕ → UprFeed → UprEvent → Option UprFeed
send_event none feed event = some (record feed { events = feed.events ++ (event ∷ []) })
send_event (some zero) feed event = none
send_event (some (suc n)) feed event =
    some (record feed { events = feed.events ++ (event ∷ []); takes = some n })

unfoldable pub deliver : UprFeed → Option UprEvent → Option UprFeed
deliver feed none = some feed
deliver feed (some event) = send_event feed.takes feed event

-- How the loop ends. `out_of_fuel` is no behaviour of the program.
pub data Outcome : Type 0 where
  ended : UprFeed → Outcome
  panicked : Outcome
  out_of_fuel : Outcome

unfoldable pub after_event :
    (UprFeed → McRequest → Reader → Outcome)
    → Request.Received
    → UprFeed
    → Bool
    → Option UprFeed
    → Outcome
after_event again got feed send_ack none = ended feed
after_event again got feed send_ack (some feed') =
    again (transmit_ack (send_buffer_ack feed' send_ack (got.n % 2 ^ 32))) got.req got.reader

unfoldable pub after_packet :
    (UprFeed → McRequest → Reader → Outcome) → Request.Received → Option Step → Outcome
after_packet again got none = panicked
after_packet again got (some (break_loop feed)) = ended feed
after_packet again got (some (next feed event send_ack)) =
    after_event again got feed send_ack (deliver feed event)

unfoldable pub count_bytes : UprFeed → ℕ → UprFeed
count_bytes feed n = record feed { stats = record feed.stats { total_bytes = n } }

unfoldable pub after_error :
    (UprFeed → McRequest → Reader → Outcome)
    → UprFeed
    → Request.Received
    → Option WireError
    → Outcome
after_error again feed got (some err) = ended (do_stream_close (record feed { error = some err }))
after_error again feed got none =
    after_packet again got (handle_packet (count_bytes feed got.n) got.req)

unfoldable pub after_receive :
    (UprFeed → McRequest → Reader → Outcome) → UprFeed → Option Request.Received → Outcome
after_receive again feed none = panicked
after_receive again feed (some got) = after_error again feed got got.err

-- The loop. The packet `pkt` is one variable for all turns.
unfoldable pub feed_loop : ℕ → UprFeed → McRequest → Reader → Outcome
feed_loop zero feed pkt r = out_of_fuel
feed_loop (suc fuel) feed pkt r =
    after_receive (feed_loop fuel) feed (receive pkt r (make_bytes hdr_len))

-- runFeed. Every turn that goes on takes a byte at least, so that this fuel is enough.
unfoldable pub run_feed : UprFeed → Reader → Outcome
run_feed feed r = feed_loop (suc (length r.input)) feed empty_request r
