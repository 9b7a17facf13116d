-- ===== src/Debug/Hooks.antt =====
-- transmitRequest and getResponse of client/transport.go with their counts and with the hooks that
-- debug/mcdebug.go sets, and that the counters have the bytes that moved on the connection.
pub mod Sessions
pub mod Transparency
pub mod Metering
use mathlib.Core.Option
use gomemcached.Prelude.{
  ℕ, ◌+◌, ◌^◌, ◌<◌, ◌≡◌, refl, ap, ◌∙◌, Bool, true, false, Option, none, some, Bytes, List, [], ◌∷◌,
  length, ◌>>=◌, arith, length-append, length-take, take, Option-cases, inl, inr, ◌≤◌, ltb,
  if◌then◌else◌, zero, suc, ◌%◌, ◌++◌,
}
use gomemcached.Io.{Reader, Writer}
use gomemcached.Wire.Layout.{io}
use gomemcached.Wire.Request
use gomemcached.Wire.Request.{McRequest}
use gomemcached.Wire.Request.Encoding.{wire}
use gomemcached.Wire.Request.Transmission.{Sent, transmit-Sent}
use gomemcached.Wire.Response
use gomemcached.Wire.Response.{empty_response, no_conn}
use gomemcached.Wire.Response.Consumption.{response_receive-Counts}
use gomemcached.Client.{Client, Conn, Reply, response_error, get_response_from, transmit_request_to}
use gomemcached.Debug.{McOps, add_at, count_outcome, count, count_req, count_res}
use gomemcached.Debug.Totals.{sum}

-- mcSent and mcRecvd
pub record Meters : Type 0 where
  pub sent : McOps
  pub received : McOps

-- What a call gives, with its count and the counters.
pub record Metered : Type 0 where
  pub n : ℕ
  pub reply : Reply
  pub meters : Meters

abbrev pub is_some {ℓ} : {A : Type ℓ} → Option A → Bool
is_some none = false
is_some (some x) = true

-- transmitRequest. TransmitHook is called behind the transmission.
unfoldable pub transmit_counted : Meters → Client → Option Conn → McRequest → Option Metered
transmit_counted m c none req =
    some
      (record { n = 0; reply = record { res = none; err = some no_conn; client = c }; meters = m })
transmit_counted m c (some conn) req = do
  t ← Request.transmit req conn.writer
  sent ← count_req m.sent (some req) t.n (is_some t.err)
  some (record {
    n = t.n;
    reply = record {
      res = none;
      err = Option.map (λ e. Response.wire (io e)) t.err;
      client = record c { conn = some (record conn { writer = t.writer }) };
    };
    meters = record m { sent = sent };
  })

-- getResponse. ReceiveHook is called before the status becomes an error.
unfoldable pub get_response_counted : Meters → Client → Option Conn → Option Metered
get_response_counted m c none =
    some
      (record { n = 0; reply = record { res = none; err = some no_conn; client = c }; meters = m })
get_response_counted m c (some conn) = do
  got ← Response.receive empty_response conn.reader c.hdr_buf
  received ← count_res m.received (some got.res) got.n (is_some got.err)
  some (record {
    n = got.n;
    reply = record {
      res = some got.res;
      err = response_error (Option.map Response.wire got.err) got.res;
      client = record c { conn = some (record conn { reader = got.reader }) };
    };
    meters = record m { received = received };
  })

-- The hooks change nothing for the caller.
transmit_counted_reply :
    (m : Meters) (c : Client) (conn : Option Conn) (req : McRequest) (out : Metered)
    → transmit_counted m c conn req ≡ some out
    → transmit_request_to c conn req ≡ some out.reply
unfolding transmit_counted transmit_request_to
transmit_counted_reply m c none req out h = cc h
transmit_counted_reply m c (some conn) req out h = grind arith

get_response_counted_reply :
    (m : Meters) (c : Client) (conn : Option Conn) (out : Metered)
    → get_response_counted m c conn ≡ some out
    → get_response_from c conn ≡ some out.reply
unfolding get_response_counted get_response_from
get_response_counted_reply m c none out h = cc h
get_response_counted_reply m c (some conn) out h = grind arith
