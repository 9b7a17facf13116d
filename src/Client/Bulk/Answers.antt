-- ===== src/Client/Bulk/Answers.antt =====
-- What GetBulk of client/mc.go makes of the server's answers.
use gomemcached.Prelude.{
  ℕ, zero, suc, ◌+◌, ◌%◌, ◌^◌, ◌<◌, ◌≤◌, ◌≡◌, refl, sym, ◌∙◌, Bool, true, false, Option, none, some,
  Bytes, List, [], ◌∷◌, ◌++◌, length, All, get_elem?, ◌==◌, ◌&&◌, if◌then◌else◌, arith,
  append_assoc, append-nil, length-append, Bool-cases, inl, inr, ◌⊎◌, lt→not_leb, IsU32,
}
use gomemcached.Io.{IoError, Writer}
use gomemcached.GoMap.{GoMap, lookup, insert, lookup-insert, bytes_eq, bytes_beq}
use gomemcached.Wire.Layout.{hdr_len}
use gomemcached.Wire.Opcode
use gomemcached.Wire.Status
use gomemcached.Wire.Request.{McRequest}
use gomemcached.Wire.Request.Encoding as RequestEncoding
use gomemcached.Wire.Request.Delivery.{request_transmit_unlimited}
use gomemcached.Server.Refinement.{stream}
use gomemcached.Wire.Response.{McResponse, GoError}
use gomemcached.Wire.Response.Encoding.{wire}
use gomemcached.Client.{Client, transmit_request_to}
use gomemcached.Client.Progress.{Run, finished}
use gomemcached.Client.Talk.{IsAnswer, facing, get_response_answered, wires}
use gomemcached.Client.Commands.{receive, received, transmit, doubt}
use gomemcached.Client.Commands.Answers.{receive_answered}
use gomemcached.Client.Bulk.{
  Bulk, bulk_store, bulk_response, bulk_got, bulk_turn, bulk_loop, bulk_request, bulk_sent,
  bulk_send, bulk_rest, bulk_start, get_bulk,
}

-- A response about one of the keys.
pub record IsHit (keys : List Bytes) (op : ℕ) (res : McResponse) : Type 0 where
  pub answer : IsAnswer res
  pub status : res.status ≡ Status.success
  pub opcode : res.opcode ≡ op
  pub opaque : res.opaque < length keys

-- The answer to the GET of the last key: a hit, or none.
abbrev pub IsLast : List Bytes → McResponse → Type 0
IsLast keys res = IsHit keys Opcode.get res ⊎ (IsAnswer res × (res.status ≡ Status.key_enoent))

abbrev is_key : Bytes → Option Bytes → Bool
is_key k none = false
is_key k (some j) = bytes_beq j k

-- Whether a response is about a key.
abbrev pub is_about : List Bytes → Bytes → McResponse → Bool
is_about keys k res = is_key k (get_elem? keys res.opaque)

-- The last of some responses that is a success and about a key, or else `found`.
abbrev pub answer_for : List Bytes → Bytes → List McResponse → Option McResponse → Option McResponse
answer_for keys k [] found = found
answer_for keys k (res ∷ ress) found =
    let next = answer_for keys k ress (some res) in
    let same = answer_for keys k ress found in
    if (res.status == Status.success) && is_about keys k res then next else same

receive_missing :
    (c : Client) (res : McResponse) (rest : Bytes) (e : IoError) (w : Writer)
    → IsAnswer res
    → length c.hdr_buf ≤ hdr_len
    → res.status ≡ Status.key_enoent
    → receive (facing c (wire res ++ rest) e w)
      ≡ some
          (record { res = some res; err = some (GoError.response res); client = facing c rest e w })
unfolding receive received
receive_missing c res rest e w a short ok =
    let other : (res.status == Status.success) ≡ false = ground (arith, ok) in
    let missing : (res.status == Status.key_enoent) ≡ true = ground (arith, ok) in
    rw (
      get_response_answered (facing c (wire res ++ rest) e w) res rest e w a short refl,
      other,
      missing,
    )

get_elem?_total :
    (keys : List Bytes) (i : ℕ) → i < length keys → (k : Bytes) × (get_elem? keys i ≡ some k)
get_elem?_total [] i h = absurd (omega arith)
get_elem?_total (k ∷ keys) zero h = (k, refl)
get_elem?_total (k ∷ keys) (suc i) h = get_elem?_total keys i (omega arith)

store_hit :
    (next : GoMap Bytes McResponse → Run Bulk) (keys : List Bytes) (rv : GoMap Bytes McResponse)
    (res : McResponse) (k : Bytes)
    → IsU32 (length keys)
    → res.opaque < length keys
    → bulk_store next keys rv res (some k) ≡ next (insert k res rv)
unfolding bulk_store
store_hit next keys rv res k small h =
    rw (lt→not_leb (length keys % 2 ^ 32) res.opaque (omega arith)) refl

module _ (keys : List Bytes) where
  answer_for-hit :
      (op : ℕ) (res : McResponse) (ress : List McResponse) (rv : GoMap Bytes McResponse)
      (k j : Bytes)
      → IsHit keys op res
      → get_elem? keys res.opaque ≡ some k
      → answer_for keys j (res ∷ ress) (lookup j rv)
        ≡ answer_for keys j ress (lookup j (insert k res rv))
  answer_for-hit op res ress rv k j hit x =
      let ok : (res.status == Status.success) ≡ true = ground (arith, hit.status) in
      elim (Bool-cases (bytes_beq k j)) [
        | inl e ↦ rw (ok, x, lookup-insert k j res rv, e) refl
        | inr e ↦ rw (ok, x, lookup-insert k j res rv, e) refl
      ]

  -- What the goroutine has received at its end.
  abbrev Received : Run Bulk → Client → GoMap Bytes McResponse → List McResponse → Type 0
  Received run c rv ress =
      (rv' : GoMap Bytes McResponse) × (run
        ≡ finished (record { rv = rv'; err = none; client = c }))
      × ((k : Bytes) → lookup k rv' ≡ answer_for keys k ress (lookup k rv))

  module _ (small : IsU32 (length keys)) where
    last_received :
        (fuel : ℕ) (c : Client) (rv : GoMap Bytes McResponse) (last : McResponse) (rest : Bytes)
        (e : IoError) (w : Writer)
        → IsLast keys last
        → length c.hdr_buf ≤ hdr_len
        → Received
            (bulk_loop (suc fuel) keys (facing c (wire last ++ rest) e w) rv)
            (facing c rest e w)
            rv
            (last ∷ [])
    unfolding bulk_loop bulk_turn bulk_got bulk_response
    last_received fuel c rv last rest e w (inl hit) short =
        let (k, x) = get_elem?_total keys last.opaque hit.opaque in
        let op : (last.opcode == Opcode.get) ≡ true = ground (arith, hit.opcode) in
        (
          insert k last rv,
          rw (
            receive_answered c last rest e w hit.answer short hit.status,
            op,
            x,
            store_hit (λ rv. finished (record { rv = rv; err = none; client = facing c rest e w }))
                keys rv last k small hit.opaque,
          ),
          λ j. sym (answer_for-hit Opcode.get last [] rv k j hit x),
        )
    last_received fuel c rv last rest e w (inr (a, missing)) short =
        let enoent : (last.status == Status.key_enoent) ≡ true = ground (arith, missing) in
        let other : (last.status == Status.success) ≡ false = ground (arith, missing) in
        (rv, rw (receive_missing c last rest e w a short missing, enoent), λ j. rw other refl)

    loop-answered :
        (fuel : ℕ) (c : Client) (rv : GoMap Bytes McResponse) (hits : List McResponse)
        (last : McResponse) (rest : Bytes) (e : IoError) (w : Writer)
        → All (IsHit keys Opcode.getq) hits
        → IsLast keys last
        → length c.hdr_buf ≤ hdr_len
        → length (wires hits) < fuel
        → Received
            (bulk_loop fuel keys (facing c (wires hits ++ (wire last ++ rest)) e w) rv)
            (facing c rest e w)
            rv
            (hits ++ (last ∷ []))
    unfolding bulk_loop bulk_turn bulk_got bulk_response
    loop-answered zero c rv hits last rest e w hs l short f = absurd (omega arith)
    loop-answered (suc fuel) c rv [] last rest e w hs l short f =
        last_received fuel c rv last rest e w l short
    loop-answered (suc fuel) c rv (res ∷ hits) last rest e w (hit, hs) l short f =
        let (k, x) = get_elem?_total keys res.opaque hit.opaque in
        let input : Bytes = wires hits ++ (wire last ++ rest) in
        let not_get : (res.opcode == Opcode.get) ≡ false = ground (arith, hit.opcode) in
        let is_getq : (res.opcode == Opcode.getq) ≡ true = ground (arith, hit.opcode) in
        let (rv', run, found) =
          loop-answered fuel c (insert k res rv) hits last rest e w hs l short
            (omega (arith, length-append (wire res) (wires hits))) in
        (
          rv',
          rw (
            append_assoc (wire res) (wires hits) (wire last ++ rest),
            receive_answered c res input e w hit.answer short hit.status,
            not_get,
            is_getq,
            x,
            store_hit (bulk_loop fuel keys (facing c input e w)) keys rv res k small hit.opaque,
            run,
          ),
          λ j. found j ∙ sym (answer_for-hit Opcode.getq res (hits ++ (last ∷ [])) rv k j hit x),
        )

-- What the client sends for some keys, the first at position `i`.
abbrev pub bulk_requests : ℕ → List Bytes → ℕ → List McRequest
bulk_requests vb [] i = []
bulk_requests vb (key ∷ keys) i = bulk_request vb key i keys ∷ bulk_requests vb keys (i + 1)

send-requests :
    (vb : ℕ) (keys : List Bytes) (i : ℕ) (c : Client) (input : Bytes) (e : IoError) (w : Writer)
    → w.room ≡ none
    → (res : Option McResponse) × (bulk_send vb keys i (facing c input e w)
        ≡ some (record {
          res = res;
          err = none;
          client =
              facing c input e (record w { sent = w.sent ++ stream (bulk_requests vb keys i) });
        }))
unfolding bulk_send bulk_sent transmit doubt transmit_request_to
send-requests vb [] i c input e w free = (none, rw (append-nil w.sent) refl)
send-requests vb (key ∷ keys) i c input e w free =
    let req = bulk_request vb key i keys in
    let (n, t) = request_transmit_unlimited req w free in
    let w' : Writer = record w { sent = w.sent ++ RequestEncoding.wire req } in
    let (res, x) = send-requests vb keys (i + 1) c input e w' free in
    (
      res,
      rw (
        t,
        x,
        append_assoc w.sent (RequestEncoding.wire req) (stream (bulk_requests vb keys (i + 1))),
      ),
    )

-- A server that answers the GETQs with any number of hits, each about one of the keys by its opaque,
-- and the GET of the last key with a hit or KEY_ENOENT, and a writer that does not fail: GetBulk
-- sends a GETQ for every key but the last and a GET for the last, each with the key's position as
-- its opaque; it returns no error, and every key with the last success that was about it, if there
-- was one.
pub get_bulk-answered :
    (early : GoMap Bytes McResponse) (c : Client) (vb : ℕ) (keys : List Bytes)
    (hits : List McResponse) (last : McResponse) (rest : Bytes) (e : IoError) (w : Writer)
    → IsU32 (length keys)
    → All (IsHit keys Opcode.getq) hits
    → IsLast keys last
    → w.room ≡ none
    → length c.hdr_buf ≤ hdr_len
    → (rv : GoMap Bytes McResponse) × (get_bulk early
          (facing c (wires hits ++ (wire last ++ rest)) e w)
          vb
          keys
        ≡ finished (record {
          rv = rv;
          err = none;
          client = facing c rest e (record w { sent = w.sent ++ stream (bulk_requests vb keys 0) });
        }))
      × ((k : Bytes) → lookup k rv ≡ answer_for keys k (hits ++ (last ∷ [])) none)
unfolding get_bulk bulk_start bulk_rest lookup
get_bulk-answered early c vb keys hits last rest e w small hs l free short =
    let input : Bytes = wires hits ++ (wire last ++ rest) in
    let w' : Writer = record w { sent = w.sent ++ stream (bulk_requests vb keys 0) } in
    let (res, x) = send-requests vb keys 0 c input e w free in
    let (rv, run, found) =
      loop-answered keys small (suc (length input)) c [] hits last rest e w' hs l short
        (omega (arith, length-append (wires hits) (wire last ++ rest))) in
    (rv, rw (x, run), found)
