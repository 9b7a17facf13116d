-- ===== src/Gocache/Session.antt =====
-- A whole connection of the sample server: bytes in, bytes out.
use gomemcached.Prelude.{
  ◌≡◌, refl, ◌∙◌, false, none, some, Bytes, List, [], ◌∷◌, ◌++◌, arith, All, append-nil,
  append_assoc,
}
use gomemcached.Io.{IoError, Reader, Writer}
use gomemcached.Wire.Layout.{io}
use gomemcached.Wire.Request.{McRequest}
use gomemcached.Wire.Response.{McResponse}
use gomemcached.Wire.Response.Encoding.{wire}
use gomemcached.Wire.Response.Delivery.{transmit_unlimited}
use gomemcached.Server.{returned, answer, handle_io}
use gomemcached.Server.Refinement.{IsPlain, stream, serve, serve_one, serve-next, handle_io-stream}
use gomemcached.Gocache.Runs.{run_server-cons}
use gomemcached.Gocache.{
  Storage, handle_set, handle_get, handle_flush, handle_delete, dispatch, run_server, req_handler,
}

-- The server sends each response under the opcode and the opaque of its request.
abbrev pub label : McRequest → McResponse → McResponse
label req res = record res { opcode = req.opcode; opaque = req.opaque }

-- The response packets of some requests, one behind the other.
abbrev pub replies : List McRequest → List McResponse → Bytes
replies (req ∷ reqs) (res ∷ ress) = wire (label req res) ++ replies reqs ress
replies _ _ = []

pub dispatch-fatal :
    (req : McRequest) (s s' : Storage) (res : McResponse)
    → dispatch req s ≡ some (s', res)
    → res.fatal ≡ false
unfolding dispatch handle_set handle_get handle_flush handle_delete
dispatch-fatal req s s' res run = grind arith

serve_one-dispatch :
    (e : IoError) (req : McRequest) (s s' : Storage) (res : McResponse) (w : Writer) (r : Reader)
    → w.room ≡ none
    → dispatch req s ≡ some (s', res)
    → serve_one req_handler e s w req r
      ≡ some (record {
        err = none;
        state = s';
        writer = record w { sent = w.sent ++ wire (label req res) };
        reader = r;
      })
unfolding serve_one answer
serve_one-dispatch e req s s' res w r free run =
    let (n, sent) = transmit_unlimited (label req res) w free in
    rw (run, sent, dispatch-fatal req s s' res run)

serve-run :
    (e : IoError) (reqs : List McRequest) (s s' : Storage) (ress : List McResponse) (w : Writer)
    → w.room ≡ none
    → run_server s reqs ≡ some (s', ress)
    → serve req_handler e reqs s w
      ≡ returned (record {
        err = some (io e);
        state = s';
        writer = record w { sent = w.sent ++ replies reqs ress };
        reader = record { input = []; ending = e };
      })
serve-run e [] s s' ress w free run =
    let same : s ≡ s' = unfold run_server in cc run in
    rw (← same, append-nil) (unfold serve in refl)
serve-run e (req ∷ reqs) s s' ress w free run =
    let (s1, res, ress1, e1, e2, e3) = run_server-cons s s' req reqs ress run in
    let r : Reader = record { input = stream reqs; ending = e } in
    let w1 : Writer = record w { sent = w.sent ++ wire (label req res) } in
    rw (e3, ← append_assoc w.sent (wire (label req res)) (replies reqs ress1))
      (serve-next req_handler e req reqs s s1 w w1 r (serve_one-dispatch e req s s1 res w r free e1)
        ∙ serve-run e reqs s1 s' ress1 w1 free e2)

-- The sample server on a connection that sends well-formed requests, none of them a TAP notification
-- with engine private data, and then ends with `e`, with a
-- writer that does not fail: if the storage does not panic on them, HandleIO returns `e`, leaves the
-- storage as RunServer leaves it on these requests, and has written exactly the responses, in the
-- order of the requests, each under the opcode and the opaque of its own.
pub connection_session :
    (e : IoError) (reqs : List McRequest) (s s' : Storage) (ress : List McResponse) (w : Writer)
    → All IsPlain reqs
    → w.room ≡ none
    → run_server s reqs ≡ some (s', ress)
    → handle_io req_handler s (record { input = stream reqs; ending = e }) w none
      ≡ returned (record {
        err = some (io e);
        state = s';
        writer = record w { sent = w.sent ++ replies reqs ress };
        reader = record { input = []; ending = e };
      })
connection_session e reqs s s' ress w plain free run =
    handle_io-stream req_handler e reqs s w plain ∙ serve-run e reqs s s' ress w free run
