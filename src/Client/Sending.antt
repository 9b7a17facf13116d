-- ===== src/Client/Sending.antt =====
-- Send of client/mc.go: what it returns, and what the client thinks of its connection after.
use gomemcached.Prelude.{
  ◌≤◌, ◌≡◌, refl, Bool, true, false, not, Option, none, some, Bytes, ◌++◌, length, Option-cases, ap,
  sym, ◌∙◌, ◌≢◌, inl, inr,
}
use gomemcached.Client.{
  Client, Conn, Reply, response_error, get_response_from, transmit_request_to, send_rest, send,
}
use gomemcached.Wire.Layout.{hdr_len, io}
use gomemcached.Wire.Request.{McRequest}
use gomemcached.Wire.Request
use gomemcached.Wire.Response.Encoding.{wire}
use gomemcached.Wire.Response.Decoding.{Fits, response_receive-wire}
use gomemcached.Io.{IoError, Writer}
use mathlib.Core.Option
use gomemcached.Wire.Status
use gomemcached.Prelude.{◌==◌, if◌then◌else◌}
use gomemcached.Client.{response_error}
use gomemcached.Wire.Response.{GoError, McResponse, is_fatal, err_status, no_conn, empty_response}

is_fatal_io :
    (m : Option IoError) (err : GoError)
    → Option.map (λ e. GoError.wire (io e)) m ≡ some err
    → is_fatal (Option.map (λ e. GoError.wire (io e)) m) ≡ true
unfolding is_fatal err_status
is_fatal_io none err h = absurd cc
is_fatal_io (some e) err h = refl

transmit_error_fatal :
    (c : Client) (conn : Option Conn) (req : McRequest) (sent : Reply) (err : GoError)
    → transmit_request_to c conn req ≡ some sent
    → sent.err ≡ some err
    → is_fatal sent.err ≡ true
unfolding transmit_request_to is_fatal err_status
transmit_error_fatal c none req sent err h k = let it : sent.err ≡ some no_conn = cc h in rw it refl
transmit_error_fatal c (some conn) req sent err h k =
    elim (Option-cases (Request.transmit req conn.writer)) [
      | inl e ↦ absurd (cc (rw e at h))
      | inr (t, e) ↦
          let h' = rw e at h in
          let it : sent.err ≡ Option.map (λ e. GoError.wire (io e)) t.err = cc h' in
          rw it (is_fatal_io t.err err (sym it ∙ k))
    ]

rest_health :
    (sent r : Reply)
    → (err : Option GoError) → sent.err ≡ err
    → (err ≢ none → is_fatal sent.err ≡ true)
    → send_rest sent err ≡ some r
    → r.client.healthy ≡ not (is_fatal r.err)
unfolding send_rest
rest_health sent r (some err) k f h =
    let fatal = f (λ e. cc) in
    let a : r.client.healthy ≡ false = cc h in
    let b : r.err ≡ sent.err = cc h in rw (a, b, fatal) refl
rest_health sent r none k f h =
    elim (Option-cases (get_response_from sent.client sent.client.conn)) [
      | inl e ↦ absurd (cc (rw e at h))
      | inr (got, e) ↦
          let h' = rw e at h in
          let a : r.client.healthy ≡ not (is_fatal got.err) = cc h' in
          let b : r.err ≡ got.err = cc h' in rw (a, b) refl
    ]

-- After Send the client is healthy exactly when the error returned is none or not fatal, whether the
-- request could not be sent, no response was received, or the response is an error.
pub send_health :
    (c : Client) (req : McRequest) (r : Reply)
    → send c req ≡ some r
    → r.client.healthy ≡ not (is_fatal r.err)
unfolding send
send_health c req r h = elim (Option-cases (transmit_request_to c c.conn req)) [
  | inl e ↦ absurd (cc (rw e at h))
  | inr (sent, e) ↦ rest_health sent r sent.err refl (fatal c req sent sent.err refl e) (rw e at h)
]
  where
    fatal :
        (c : Client) (req : McRequest) (sent : Reply) (err : Option GoError)
        → sent.err ≡ err
        → transmit_request_to c c.conn req ≡ some sent
        → err ≢ none
        → is_fatal sent.err ≡ true
    fatal c req sent none k e n = absurd (n refl)
    fatal c req sent (some err) k e n = transmit_error_fatal c c.conn req sent err e k

-- The error that goes with a response.
abbrev pub failure : McResponse → Option GoError
failure res = if res.status == Status.success then none else some (GoError.response res)

-- A request that goes out and a well-formed response that is there: Send returns the response, as
-- the error too when its status is no success, leaves what follows the response on the
-- connection, and takes the connection to be healthy unless that error is fatal.
pub send_receives :
    (c : Client) (req : McRequest) (res : McResponse) (w : Writer) (t : Request.Transmitted)
    (rest : Bytes) (e : IoError)
    → Fits res
    → res.fatal ≡ false
    → length c.hdr_buf ≤ hdr_len
    → c.conn
      ≡ some (record { reader = record { input = wire res ++ rest; ending = e }; writer = w })
    → Request.transmit req w ≡ some t
    → t.err ≡ none
    → send c req
      ≡ some (record {
        res = some res;
        err = failure res;
        client = record {
          conn = some (record { reader = record { input = rest; ending = e }; writer = t.writer });
          healthy = not (is_fatal (failure res));
          hdr_buf = c.hdr_buf;
        };
      })
unfolding send transmit_request_to send_rest get_response_from response_error
send_receives c req res w t rest e f nf short k x ok =
    let same : record res { fatal = false } ≡ res =
      ap (λ (b : Bool). let r : McResponse = record res { fatal = b } in r) (sym nf) in
    rw (k, x, ok, response_receive-wire res f empty_response rest e c.hdr_buf short) (rw same refl)
