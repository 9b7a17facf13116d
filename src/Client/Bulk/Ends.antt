-- ===== src/Client/Bulk/Ends.antt =====
-- GetBulk of client/mc.go ends.
use gomemcached.Prelude.{
  ℕ, zero, suc, ◌%◌, ◌^◌, ◌<◌, ◌≡◌, ◌≢◌, refl, sym, ◌∙◌, Option, none, some, Bytes, List, [],
  length, get_elem?, leb, ◌==◌, arith, Option-cases, Bool-cases, inl, inr, if_neither,
}
use gomemcached.GoMap.{GoMap, bytes_eq}
use gomemcached.Wire.Opcode
use gomemcached.Wire.Status
use gomemcached.Wire.Response.{McResponse, GoError}
use gomemcached.Client.{Client, Reply, get_response}
use gomemcached.Client.Progress.{Run, out_of_fuel, waiting, get_response_takes}
use gomemcached.Client.Commands.{receive, received}
use gomemcached.Client.Bulk.{
  Bulk, bulk_store, bulk_response, bulk_got, bulk_turn, bulk_loop, bulk_send, bulk_rest, bulk_start,
  get_bulk,
}

received_keeps :
    (got back : Reply) (err : Option GoError) (res : Option McResponse)
    → received got err res ≡ some back
    → (back.err ≡ got.err) × (waiting back.client ≡ waiting got.client)
unfolding received
received_keeps got back none res h = (cc h, cc h)
received_keeps got back (some err) none h = absurd cc
received_keeps got back (some err) (some res) h =
    elim (Bool-cases (res.status == Status.key_enoent)) [
      | inl e ↦ let h' = rw e at h in (cc h', cc h')
      | inr e ↦
          let h' = rw e at h in
          let conn_eq : back.client.conn ≡ got.client.conn = cc h' in (cc h', rw conn_eq refl)
    ]

receive_takes :
    (c : Client) (got : Reply)
    → receive c ≡ some got
    → got.err ≡ none
    → waiting got.client < waiting c
unfolding receive
receive_takes c got h ok = elim (Option-cases (get_response c)) [
  | inl e ↦ absurd (cc (rw e at h))
  | inr (back, e) ↦
      let (err_eq, same) = received_keeps back got back.err back.res (rw e at h) in
      elim (get_response_takes c back e) [
        | inl less ↦ omega (arith, less, same)
        | inr took ↦ absurd (took.failed (sym err_eq ∙ ok))
      ]
]

store_ends :
    (next : GoMap Bytes McResponse → Run Bulk) (keys : List Bytes) (rv : GoMap Bytes McResponse)
    (res : McResponse) (key : Option Bytes)
    → ((rv : GoMap Bytes McResponse) → next rv ≢ out_of_fuel)
    → bulk_store next keys rv res key ≢ out_of_fuel
unfolding bulk_store
store_ends next keys rv res none k = λ z. cc
store_ends next keys rv res (some key) k =
    if_neither (leb (length keys % 2 ^ 32) res.opaque) (λ _ z. cc) (k _)

got_ends :
    (again : Client → GoMap Bytes McResponse → Run Bulk) (keys : List Bytes)
    (rv : GoMap Bytes McResponse) (c : Client) (err : Option GoError) (res : Option McResponse)
    → (err ≡ none → (rv : GoMap Bytes McResponse) → again c rv ≢ out_of_fuel)
    → bulk_got again keys rv c err res ≢ out_of_fuel
unfolding bulk_got bulk_response
got_ends again keys rv c err none k = λ z. cc
got_ends again keys rv c (some err) (some res) k = λ z. cc
got_ends again keys rv c none (some res) k =
    if_neither (res.opcode == Opcode.get)
      (λ _. store_ends _ keys rv res (get_elem? keys res.opaque) λ rv z. cc)
      (if_neither (res.opcode == Opcode.getq)
        (λ _. store_ends (again c) keys rv res (get_elem? keys res.opaque) (k refl)) (λ z. cc))

loop_ends :
    (fuel : ℕ) (keys : List Bytes) (c : Client) (rv : GoMap Bytes McResponse)
    → waiting c < fuel
    → bulk_loop fuel keys c rv ≢ out_of_fuel
unfolding bulk_loop bulk_turn
loop_ends zero keys c rv f = absurd (omega arith)
loop_ends (suc fuel) keys c rv f = elim (Option-cases (receive c)) [
  | inl e ↦ rw e (λ z. cc)
  | inr (got, e) ↦ rw e (
      got_ends (bulk_loop fuel keys) keys rv got.client got.err got.res
        λ ok rv'. loop_ends fuel keys got.client rv' (omega (arith, receive_takes c got e ok, f)))
]

rest_ends :
    (early : GoMap Bytes McResponse) (keys : List Bytes) (c : Client) (err : Option GoError)
    → bulk_rest early keys c err ≢ out_of_fuel
unfolding bulk_rest
rest_ends early keys c (some err) = λ z. cc
rest_ends early keys c none = loop_ends (suc (waiting c)) keys c [] (omega arith)

-- Whatever the server answers, GetBulk's goroutine ends, with one turn more than there are bytes to
-- read at most.
pub get_bulk_ends :
    (early : GoMap Bytes McResponse) (c : Client) (vb : ℕ) (keys : List Bytes)
    → get_bulk early c vb keys ≢ out_of_fuel
unfolding get_bulk bulk_start
get_bulk_ends early c vb keys = elim (Option-cases (bulk_send vb keys 0 c)) [
  | inl e ↦ rw e (λ z. cc)
  | inr (sent, e) ↦ rw e (rest_ends early keys sent.client sent.err)
]
