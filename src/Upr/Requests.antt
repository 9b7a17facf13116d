-- ===== src/Upr/Requests.antt =====
-- client/upr_feed.go: the requests that open a UPR connection and its streams.
pub mod FailoverLogs
pub mod LogRequests
use gomemcached.Prelude.{
  ℕ, zero, suc, ◌+◌, ◌*◌, ◌/◌, ◌%◌, ◌^◌, Bool, true, false, not, ◌&&◌, ◌||◌, Option, none, some,
  Bytes, List, [], ◌∷◌, ◌++◌, length, ltb, ◌==◌, if◌then◌else◌, ◌>>=◌, put_uint32, put_uint64,
}
use gomemcached.Text.{codes, decimal}
use gomemcached.GoMap.{GoMap, lookup, insert, nat_eq}
use gomemcached.Wire.Opcode
use gomemcached.Wire.Status
use gomemcached.Wire.Request.{McRequest, empty_request}
use gomemcached.Wire.Response.{McResponse, GoError}
use gomemcached.Client.{Client, Reply}
use gomemcached.Client.Commands.{transmit, receive}
use gomemcached.Upr.{
  FailoverLog, ParsedLog, UprError, UprStream, parse_failover_log, compose_opaque,
}
use gomemcached.Upr.Feed.{UprFeed}

abbrev pub opaque_open : ℕ
opaque_open = 0xBEAF0001

abbrev pub opaque_failover : ℕ
opaque_failover = 0xDEADBEEF

-- The errors of the operations, without their texts.
pub data RequestError : Type 0 where
  client : GoError → RequestError
  unexpected_opcode : ℕ → RequestError
  opaque_mismatch : ℕ → RequestError
  bad_status : ℕ → RequestError
  open_failed : RequestError → RequestError
  invalid_log : UprError → RequestError
  not_requested : ℕ → RequestError

-- An error and the client.
pub record Opened : Type 0 where
  pub err : Option RequestError
  pub client : Client

abbrev pub open_request : Bytes → ℕ → McRequest
open_request name sequence = record empty_request {
  opcode = Opcode.upr_open;
  key = name;
  opaque = opaque_open;
  extras = put_uint32 sequence ++ put_uint32 1;
}

abbrev pub refuse : Client → RequestError → Opened
refuse c err = record { err = some err; client = c }

-- The tests on the answer. Without an error the response is not nil.
unfoldable pub open_answer : Reply → Option GoError → Option McResponse → Option Opened
open_answer got (some err) res = some (refuse got.client (client err))
open_answer got none none = none
open_answer got none (some res) =
    if not (res.opcode == Opcode.upr_open)
    then some (refuse got.client (unexpected_opcode res.opcode))
    else if not (opaque_open == res.opaque)
    then some (refuse got.client (opaque_mismatch res.opaque))
    else if not (res.status == Status.success)
    then some (refuse got.client (bad_status res.status))
    else some (record { err = none; client = got.client })

unfoldable pub open_sent : Reply → Option GoError → Option Opened
open_sent sent (some err) = some (refuse sent.client (client err))
open_sent sent none = do got ← receive sent.client; open_answer got got.err got.res

-- doUprOpen
unfoldable pub do_upr_open : Client → Bytes → ℕ → Option Opened
do_upr_open c name sequence = do
  sent ← transmit c (open_request name sequence)
  open_sent sent sent.err

-- The request of UprRequestStream; the words fill its extras.
abbrev pub stream_request : ℕ → ℕ → ℕ → UprStream → ℕ → ℕ → McRequest
stream_request opaque_msb vbno flags stream snap_start snap_end = record empty_request {
  opcode = Opcode.upr_streamreq;
  vbucket = vbno;
  opaque = compose_opaque vbno opaque_msb;
  extras =
      put_uint32 flags
      ++ (put_uint32 0
          ++ (put_uint64 stream.start_seq
              ++ (put_uint64 stream.end_seq
                  ++ (put_uint64 stream.vbuuid
                      ++ (put_uint64 snap_start ++ put_uint64 snap_end)))));
}

-- The error, the feed and its client.
pub record Requested : Type 0 where
  pub err : Option RequestError
  pub feed : UprFeed
  pub client : Client

unfoldable pub stream_sent : UprFeed → ℕ → UprStream → Reply → Option GoError → Requested
stream_sent feed vbno stream sent (some err) = record {
  err = some (client err);
  feed = feed;
  client = sent.client;
}
stream_sent feed vbno stream sent none = record {
  err = none;
  feed = record feed { vbstreams = insert vbno stream feed.vbstreams };
  client = sent.client;
}

-- UprRequestStream on a feed and its client.
unfoldable pub upr_request_stream :
    UprFeed → Client → ℕ → ℕ → ℕ → ℕ → ℕ → ℕ → ℕ → ℕ → Option Requested
upr_request_stream feed c vbno opaque_msb flags vuuid start end_ snap_start snap_end =
    let stream : UprStream = record {
      vbucket = vbno;
      vbuuid = vuuid;
      start_seq = start;
      end_seq = end_;
      connected = false;
    } in
    (do
      sent ← transmit c (stream_request opaque_msb vbno flags stream snap_start snap_end)
      some (stream_sent feed vbno stream sent sent.err))

unfoldable pub close_known : UprFeed → ℕ → ℕ → Option UprStream → UprFeed × Option RequestError
close_known feed vbno opaque_msb none = (feed, some (not_requested vbno))
close_known feed vbno opaque_msb (some stream) = (
  record feed {
    commands =
        feed.commands
        ++ (record empty_request {
          opcode = Opcode.upr_closestream;
          vbucket = vbno;
          opaque = compose_opaque vbno opaque_msb;
        }
            ∷ []);
  },
  none,
)

-- CloseStream
unfoldable pub close_stream : UprFeed → ℕ → ℕ → UprFeed × Option RequestError
close_stream feed vbno opaque_msb = close_known feed vbno opaque_msb (lookup vbno feed.vbstreams)

abbrev pub buffer_size_name : Bytes
buffer_size_name = codes "connection_buffer_size"

abbrev pub control_request : ℕ → McRequest
control_request buf_size = record empty_request {
  opcode = Opcode.upr_control;
  key = buffer_size_name;
  body = decimal buf_size;
}

-- Behind doUprOpen. `threshold` is the product with a float32 of 0.2.
unfoldable pub feed_opened :
    (threshold : ℕ → ℕ) → UprFeed → ℕ → Opened → Option RequestError → Requested
feed_opened threshold feed buf_size opened (some err) = record {
  err = some err;
  feed = feed;
  client = opened.client;
}
feed_opened threshold feed buf_size opened none =
    if ltb 0 buf_size
    then record {
      err = none;
      feed = record feed {
        commands = feed.commands ++ (control_request buf_size ∷ []);
        max_ack_bytes = threshold buf_size;
      };
      client = opened.client;
    }
    else record { err = none; feed = feed; client = opened.client }

-- UprOpen on a feed and its client.
unfoldable pub upr_open : (threshold : ℕ → ℕ) → UprFeed → Client → Bytes → ℕ → ℕ → Option Requested
upr_open threshold feed c name sequence buf_size = do
  opened ← do_upr_open c name sequence
  some (feed_opened threshold feed buf_size opened opened.err)
