-- ===== src/Client/Bulk.antt =====
-- client/mc.go: GetBulk, which sends its requests while a goroutine receives the responses.
pub mod Answers
pub mod Ends
use gomemcached.Prelude.{
  ℕ, zero, suc, ◌+◌, ◌%◌, ◌^◌, Bool, Option, none, some, Bytes, List, [], ◌∷◌, length, leb,
  get_elem?, ◌==◌, if◌then◌else◌, ◌>>=◌,
}
use gomemcached.GoMap.{GoMap, insert, bytes_eq}
use gomemcached.Wire.Opcode
use gomemcached.Wire.Status
use gomemcached.Wire.Request.{McRequest, empty_request}
use gomemcached.Wire.Response.{McResponse, GoError}
use gomemcached.Client.{Client, Reply}
use gomemcached.Client.Commands.{transmit, receive}
use gomemcached.Client.Progress.{Run, finished, panicked, out_of_fuel, waiting}

-- The responses by key, the error, and the client.
pub record Bulk : Type 0 where
  pub rv : GoMap Bytes McResponse
  pub err : Option GoError
  pub client : Client

-- rv[keys[res.Opaque]] = res, behind the test of the opaque.
unfoldable pub bulk_store :
    (GoMap Bytes McResponse → Run Bulk)
    → List Bytes
    → GoMap Bytes McResponse
    → McResponse
    → Option Bytes
    → Run Bulk
bulk_store next keys rv res none = panicked
bulk_store next keys rv res (some k) =
    let rest = next (insert k res rv) in
    if leb (length keys % 2 ^ 32) res.opaque then panicked else rest

-- A response that is no error: a GETQ's goes on, a GET's is the last.
unfoldable pub bulk_response :
    (Client → GoMap Bytes McResponse → Run Bulk)
    → List Bytes
    → GoMap Bytes McResponse
    → Client
    → McResponse
    → Run Bulk
bulk_response again keys rv c res =
    let key = get_elem? keys res.opaque in
    let last =
      bulk_store (λ rv. finished (record { rv = rv; err = none; client = c })) keys rv res key in
    let more = bulk_store (again c) keys rv res key in
    if res.opcode == Opcode.get then last else if res.opcode == Opcode.getq then more else panicked

-- One turn of the goroutine on what Receive gave. The response is nil only where Receive panics.
unfoldable pub bulk_got :
    (Client → GoMap Bytes McResponse → Run Bulk)
    → List Bytes
    → GoMap Bytes McResponse
    → Client
    → Option GoError
    → Option McResponse
    → Run Bulk
bulk_got again keys rv c err none = panicked
bulk_got again keys rv c (some err) (some res) = finished (record {
  rv = rv;
  err = if res.status == Status.key_enoent then none else some err;
  client = c;
})
bulk_got again keys rv c none (some res) = bulk_response again keys rv c res

unfoldable pub bulk_turn :
    (Client → GoMap Bytes McResponse → Run Bulk)
    → List Bytes
    → GoMap Bytes McResponse
    → Option Reply
    → Run Bulk
bulk_turn again keys rv none = panicked
bulk_turn again keys rv (some got) = bulk_got again keys rv got.client got.err got.res

-- The goroutine.
unfoldable pub bulk_loop : ℕ → List Bytes → Client → GoMap Bytes McResponse → Run Bulk
bulk_loop zero keys c rv = out_of_fuel
bulk_loop (suc fuel) keys c rv = bulk_turn (bulk_loop fuel keys) keys rv (receive c)

abbrev pub bulk_opcode : List Bytes → ℕ
bulk_opcode [] = Opcode.get
bulk_opcode (k ∷ ks) = Opcode.getq

-- The request for a key, at position `i` and in front of the keys `ks`.
abbrev pub bulk_request : ℕ → Bytes → ℕ → List Bytes → McRequest
bulk_request vb key i ks = record empty_request {
  opcode = bulk_opcode ks;
  vbucket = vb;
  key = key;
  opaque = i % 2 ^ 32;
}

unfoldable pub bulk_sent : (Client → Option Reply) → Reply → Option GoError → Option Reply
bulk_sent again sent (some err) = some sent
bulk_sent again sent none = again sent.client

-- The loop over the keys, from position `i`.
unfoldable pub bulk_send : ℕ → List Bytes → ℕ → Client → Option Reply
bulk_send vb [] i c = some (record { res = none; err = none; client = c })
bulk_send vb (key ∷ keys) i c = do
  sent ← transmit c (bulk_request vb key i keys)
  bulk_sent (bulk_send vb keys (i + 1)) sent sent.err

unfoldable pub bulk_rest : GoMap Bytes McResponse → List Bytes → Client → Option GoError → Run Bulk
bulk_rest early keys c (some err) = finished (record { rv = early; err = some err; client = c })
bulk_rest early keys c none = bulk_loop (suc (waiting c)) keys c []

unfoldable pub bulk_start : GoMap Bytes McResponse → List Bytes → Option Reply → Run Bulk
bulk_start early keys none = panicked
bulk_start early keys (some sent) = bulk_rest early keys sent.client sent.err

-- GetBulk. The requests and the responses go over the two directions of the connection, so that the
-- order between them is of no consequence while the requests go out; where one fails, `early` is
-- what the goroutine has received by then. A turn of the goroutine that goes on takes a byte at
-- least, so that this fuel is enough.
unfoldable pub get_bulk : GoMap Bytes McResponse → Client → ℕ → List Bytes → Run Bulk
get_bulk early c vb keys = bulk_start early keys (bulk_send vb keys 0 c)
