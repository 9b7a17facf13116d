-- ===== src/Tests/UprTests.antt =====
-- A feed of one stream at concrete inputs, and the theorems on feeds where their hypotheses hold.
use mathlib.Core.List.Permᴰ
use gomemcached.Prelude.{
  ◌%◌, ◌^◌, ℕ, ◌+◌, ◌<◌, ◌≤◌, ◌≡◌, ◌≢◌, ◌↔◌, refl, true, false, none, some, List, [], ◌∷◌, ◌++◌,
  inl, inr, arith, Bool,
}
use gomemcached.Io.{eof, read_full, short_read}
use gomemcached.Prelude.{map}
use gomemcached.GoMap.{lookup, nat_eq}
use gomemcached.Wire.Layout.{io}
use gomemcached.Wire.Opcode
use gomemcached.Wire.Request.{
  McRequest, empty_request, size, receive, receive_first, has_engine_private,
}
use gomemcached.Wire.Request.Encoding.{wire}
use gomemcached.Upr.{UprEvent, empty_event, UprStream, vb_opaque, make_upr_event}
use gomemcached.Upr.Events.{make_upr_event_panics, mutation_extras}
use gomemcached.Upr.Failover.{log_bytes}
use gomemcached.Io.{Writer}
use gomemcached.GoMap.{GoMap}
use gomemcached.Wire.Response.{McResponse, empty_response}
use gomemcached.Wire.Response.Encoding as ResponseEncoding
use gomemcached.Server.Refinement.{stream}
use gomemcached.Client.{Client}
use gomemcached.Client.Talk.{client_at, facing}
use gomemcached.Upr.{FailoverLog}
use gomemcached.Upr.Requests.LogRequests.{log_request, log_name, upr_get_failover_log}
use gomemcached.Upr.Requests.{open_request, opaque_open}
use gomemcached.Upr.Requests.FailoverLogs.{
  Item, IsItem, IsOpen, item_wires, log_of, upr_get_failover_log-answered,
}
use gomemcached.Upr.Feed.{
  MapRange, UprFeed, run_feed, ended, out_of_fuel, count_bytes, close_event, feed_loop,
  after_receive, after_error, do_stream_close,
}
use gomemcached.Upr.Feed.FlowControl.{acks_account, acks, sum, ack_bytes, AllAbove}
use gomemcached.Upr.Feed.Termination.{run_feed_ends}
use gomemcached.Upr.Feed.Streams.{has_end, IsKeyed}
use gomemcached.Upr.Feed.Endings.{run_feed_closes}
use gomemcached.Upr.Feed.Unknown.{unknown_stream_ends_feed}
use gomemcached.Upr.Feed.Stream.{
  run_feed-upr_events, IsNotification, upr_events, count_if, is_change, is_snap_shot,
}

abbrev stream_three : UprStream
stream_three = record { vbucket = 3; vbuuid = 77; start_seq = 0; end_seq = 9; connected = true }

-- A range in the order of the list.
abbrev as_listed : MapRange
as_listed = record { order = λ m. m; perm = λ m. Permᴰ.refl m }

abbrev feed_three : UprFeed
feed_three = record {
  vbstreams = (3, stream_three) ∷ [];
  range = as_listed;
  error = none;
  to_ack_bytes = 4;
  max_ack_bytes = 50;
  stats = record {
    total_bytes = 0;
    total_mutation = 0;
    total_buffer_ack_sent = 0;
    total_snap_shot = 0;
  };
  events = [];
  commands = [];
  takes = none;
}

-- An expiration without extras.
abbrev bare_expiration : McRequest
bare_expiration = record empty_request { opcode = Opcode.upr_expiration; opaque = 3; key = 97 ∷ [] }

make_upr_event_panics_example :
    (make_upr_event bare_expiration stream_three ≡ none)
    ↔ ((Opcode.upr_expiration ≡ Opcode.upr_expiration) × (1 < 18))
make_upr_event_panics_example = make_upr_event_panics bare_expiration stream_three

abbrev numbers : UprEvent
numbers = record empty_event {
  seqno = 1;
  rev_seqno = 2;
  flags = 3;
  expiry = 4;
  lock_time = 5;
  metadata_size = 6;
}

abbrev mutation : McRequest
mutation = record empty_request {
  opcode = Opcode.upr_mutation;
  opaque = 3;
  extras = mutation_extras numbers (0 ∷ []);
  key = 97 ∷ [];
  body = 98 ∷ [];
}

abbrev three_packets : List (Bool × ℕ)
three_packets = (true, 30) ∷ (false, 9) ∷ (true, 20) ∷ []

acks_account_example :
    (sum (acks feed_three three_packets).1 + (acks feed_three three_packets).0.to_ack_bytes
      ≡ 4 + ack_bytes three_packets)
    × ((acks feed_three three_packets).0.to_ack_bytes ≤ 50)
    × AllAbove 50 (acks feed_three three_packets).1
acks_account_example =
    acks_account three_packets feed_three (omega arith)
      (omega arith, (omega arith, (omega arith, tt)))

run_feed_ends_example :
    run_feed feed_three (record { input = 0x80 ∷ []; ending = eof }) ≢ out_of_fuel
run_feed_ends_example = run_feed_ends feed_three (record { input = 0x80 ∷ []; ending = eof })

-- The connection ends at once.
abbrev closed_feed : UprFeed
closed_feed = record feed_three {
  error = some (io eof);
  events = close_event (3, stream_three) ∷ [];
}

closed_run : run_feed feed_three (record { input = []; ending = eof }) ≡ ended closed_feed
unfolding run_feed feed_loop after_receive receive receive_first read_full after_error
    do_stream_close short_read
closed_run = refl

feed_three-IsKeyed : IsKeyed feed_three.vbstreams
unfolding IsKeyed lookup
feed_three-IsKeyed vb stream h = ground (arith, h)

run_feed_closes_example : has_end 3 closed_feed.events ≡ true
unfolding lookup
run_feed_closes_example =
    run_feed_closes feed_three closed_feed (record { input = []; ending = eof }) 3
      feed_three-IsKeyed refl refl (λ e. cc) closed_run (λ e. cc)

mutation-IsNotification : IsNotification feed_three.vbstreams mutation
unfolding lookup vb_opaque has_engine_private
mutation-IsNotification = record {
  plain = (omega arith, inl refl);
  kind = refl;
  known = λ e. cc;
  enough = λ e. omega (arith, e);
}

run_feed-upr_events_example :
    (last : UprFeed) × (run_feed feed_three
        (record { input = stream (mutation ∷ []); ending = eof })
      ≡ ended last)
    × (last.events
        ≡ []
          ++ (upr_events feed_three.vbstreams (mutation ∷ [])
              ++ map close_event (feed_three.range.order feed_three.vbstreams)))
    × (last.error ≡ some (io eof))
    × (last.stats.total_mutation ≡ (0 + count_if is_change (mutation ∷ [])) % 2 ^ 64)
    × (last.stats.total_snap_shot ≡ (0 + count_if is_snap_shot (mutation ∷ [])) % 2 ^ 64)
run_feed-upr_events_example =
    run_feed-upr_events (mutation ∷ []) eof feed_three refl (omega arith) (omega arith)
      (mutation-IsNotification, tt)

-- The same mutation for vbucket 4.
abbrev stray : McRequest
stray = record mutation { opaque = 4 }

unknown_stream_ends_feed_example :
    run_feed feed_three (record { input = wire stray ++ (9 ∷ []); ending = eof })
    ≡ ended (count_bytes feed_three (size stray))
unfolding lookup vb_opaque has_engine_private
unknown_stream_ends_feed_example =
    unknown_stream_ends_feed feed_three stray (9 ∷ []) eof (omega arith) (inl refl) (inr (inl refl))
      refl

abbrev one_log : FailoverLog
one_log = (7, 8) ∷ (5, 0) ∷ []

abbrev log_item : Item
log_item = record {
  vb = 3;
  log = one_log;
  res = record empty_response { opcode = Opcode.upr_failoverlog; body = log_bytes one_log };
}

log_item-IsItem : IsItem log_item
log_item-IsItem = record {
  answer = record { fits = omega arith; fatal = refl };
  status = refl;
  opcode = refl;
  body = refl;
  log = ((omega arith, omega arith), ((omega arith, omega arith), tt));
}

abbrev open_answer : McResponse
open_answer = record empty_response { opcode = Opcode.upr_open; opaque = opaque_open }

open_answer-IsOpen : IsOpen open_answer
open_answer-IsOpen = record {
  answer = record { fits = omega arith; fatal = refl };
  status = refl;
  opcode = refl;
  opaque = refl;
}

abbrev open_writer : Writer
open_writer = record { sent = []; room = none; failure = eof }

abbrev no_client : Client
no_client = client_at [] eof open_writer []

upr_get_failover_log-answered_example :
    (logs : GoMap ℕ FailoverLog) × (upr_get_failover_log
        (facing no_client
          (ResponseEncoding.wire open_answer ++ (item_wires (log_item ∷ []) ++ []))
          eof
          open_writer)
        (3 ∷ [])
      ≡ some (record {
        logs = some logs;
        err = none;
        client =
            facing no_client [] eof
              (record open_writer { sent = stream (open_request log_name 0 ∷ log_request 3 ∷ []) });
      }))
    × ((vb : ℕ) → lookup vb logs ≡ log_of vb (log_item ∷ []) none)
upr_get_failover_log-answered_example =
    upr_get_failover_log-answered (log_item ∷ []) no_client open_answer [] eof open_writer
      open_answer-IsOpen (log_item-IsItem, tt) refl (omega arith)
