-- ===== src/Client/Exchange.antt =====
-- A client of client/mc.go and the sample server of gocache/ at the two ends of one connection.
use gomemcached.Prelude.{
  ◌≤◌, ◌≡◌, sym, ◌∙◌, ap, not, none, some, [], ◌∷◌, ◌++◌, length, take_all, append-nil, arith, take,
  Bytes,
}
use gomemcached.Io.{IoError, Writer}
use gomemcached.Wire.Layout.{hdr_len, io}
use gomemcached.Wire.Request
use gomemcached.Wire.Request.{McRequest}
use gomemcached.Wire.Request.Encoding
use gomemcached.Wire.Request.Transmission.{transmit-Sent}
use gomemcached.Wire.Response.{McResponse, is_fatal}
use gomemcached.Wire.Response.Decoding.{Fits}
use gomemcached.Server.{returned, handle_io}
use gomemcached.Server.Refinement.{IsPlain, stream}
use gomemcached.Gocache.{Storage, dispatch, run_server, req_handler}
use gomemcached.Gocache.Session.{label, replies, dispatch-fatal, connection_session}
use gomemcached.Client.{Client, send}
use gomemcached.Client.Sending.{send_receives, failure}

transmitted :
    (req : McRequest) (w : Writer) (t : Request.Transmitted)
    → Request.transmit req w ≡ some t
    → t.err ≡ none
    → w.sent ≡ []
    → t.writer.sent ≡ stream (req ∷ [])
transmitted req w t x ok free =
    let (t', x', s) = transmit-Sent req w in
    let same : t' ≡ t = cc (x, x') in
    let whole : t'.n ≡ length (Encoding.wire req) =
      s.complete.0 (ap (λ (u : Request.Transmitted). u.err) same ∙ ok) in
    ap (λ (u : Request.Transmitted). u.writer.sent) (sym same)
    ∙ (s.sent
        ∙ (ap (λ (b : Bytes). b ++ take t'.n (Encoding.wire req)) free
            ∙ (take_all t'.n (Encoding.wire req) (omega (arith, whole))
                ∙ sym (append-nil (Encoding.wire req)))))

dispatch_run :
    (req : McRequest) (s s' : Storage) (res : McResponse)
    → dispatch req s ≡ some (s', res)
    → run_server s (req ∷ []) ≡ some (s', res ∷ [])
unfolding run_server
dispatch_run req s s' res run = rw run

-- The client and the sample server together, for a well-formed request, no TAP notification with
-- engine private data, on which the storage does not
-- panic and whose response fits its header. When its bytes go out without an error, a server with a
-- writer that does not fail receives and handles it and writes the bytes of the storage's response;
-- a client that has these bytes on its connection returns that response from Send, under the
-- request's opcode and opaque, and as the error too when it is no success.
pub send_to_server :
    (c : Client) (req : McRequest) (w w0 : Writer) (t : Request.Transmitted) (s s' : Storage)
    (res : McResponse) (e : IoError)
    → IsPlain req
    → Fits (label req res)
    → dispatch req s ≡ some (s', res)
    → length c.hdr_buf ≤ hdr_len
    → w.sent ≡ []
    → w0.room ≡ none
    → Request.transmit req w ≡ some t
    → t.err ≡ none
    → c.conn
      ≡ some (record {
        reader = record { input = replies (req ∷ []) (res ∷ []); ending = e };
        writer = w;
      })
    → (handle_io req_handler s (record { input = t.writer.sent; ending = e }) w0 none
        ≡ returned (record {
          err = some (io e);
          state = s';
          writer = record w0 { sent = w0.sent ++ replies (req ∷ []) (res ∷ []) };
          reader = record { input = []; ending = e };
        }))
      × (send c req
          ≡ some (record {
            res = some (label req res);
            err = failure (label req res);
            client = record {
              conn =
                  some (record { reader = record { input = []; ending = e }; writer = t.writer });
              healthy = not (is_fatal (failure (label req res)));
              hdr_buf = c.hdr_buf;
            };
          }))
send_to_server c req w w0 t s s' res e p f run short free open_ x ok k = (
  rw (transmitted req w t x ok free) (
      connection_session e (req ∷ []) s s' (res ∷ []) w0 (p, tt) open_
        (dispatch_run req s s' res run)),
  send_receives c req (label req res) w t [] e f (dispatch-fatal req s s' res run) short k x ok,
)
