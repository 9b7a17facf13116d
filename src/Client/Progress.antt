-- ===== src/Client/Progress.antt =====
-- The bytes that wait on the connection of a client, which bound the loops of client/mc.go.
use gomemcached.Prelude.{
  ℕ, ◌<◌, ◌≡◌, ◌≢◌, ◌⊎◌, inl, inr, refl, none, some, Option, length, Option-cases, ap, ◌∙◌, subst,
}
use mathlib.Core.Option
use gomemcached.Wire.Layout.{WireError}
use gomemcached.Wire.Request
use gomemcached.Wire.Request.{McRequest}
use gomemcached.Wire.Response
use gomemcached.Wire.Response.{McResponse, GoError, no_conn, empty_response}
use gomemcached.Wire.Response.Progress.{receive_takes}
use gomemcached.Client.{
  Client, Conn, Reply, get_response, get_response_from, response_error, transmit_request,
  transmit_request_to, send, send_rest,
}

-- How a loop ends. `out_of_fuel` is no behaviour of the program.
pub data Run {ℓ} (A : Type ℓ) : Type ℓ where
  finished : A → Run A
  panicked : Run A
  out_of_fuel : Run A

abbrev waiting_on : Option Conn → ℕ
waiting_on none = 0
waiting_on (some conn) = length conn.reader.input

abbrev pub waiting : Client → ℕ
waiting c = waiting_on c.conn

-- What getResponse gives when it took nothing from the connection.
pub record TookNothing (got : Reply) : Type 0 where
  pub failed : got.err ≢ none
  pub res : (got.res ≡ none) ⊎ (got.res ≡ some empty_response)

response_error_keeps :
    (err : Option GoError) (res : McResponse) → err ≢ none → response_error err res ≢ none
unfolding response_error
response_error_keeps none res h = absurd (h refl)
response_error_keeps (some err) res h = λ z. cc

map_keeps : (err : Option WireError) → err ≢ none → Option.map Response.wire err ≢ none
map_keeps none h = absurd (h refl)
map_keeps (some e) h = λ z. cc

response_from_takes :
    (c : Client) (conn : Option Conn) (got : Reply)
    → get_response_from c conn ≡ some got
    → (waiting got.client < waiting_on conn) ⊎ TookNothing got
unfolding get_response_from
response_from_takes c none got h =
    let e : got.err ≡ some no_conn = cc h in
    inr (record { failed = rw e (λ z. cc); res = inl (cc h) })
response_from_takes c (some conn) got h =
    elim (Option-cases (Response.receive empty_response conn.reader c.hdr_buf)) [
      | inl e ↦ absurd (cc (rw e at h))
      | inr (r, e) ↦
          let h' = rw e at h in
          let conn_eq : got.client.conn ≡ some (record conn { reader = r.reader }) = cc h' in
          let err_eq : got.err ≡ response_error (Option.map Response.wire r.err) r.res = cc h' in
          let res_eq : got.res ≡ some r.res = cc h' in
          elim (receive_takes empty_response conn.reader c.hdr_buf r e) [
            | inl less ↦ inl (rw conn_eq less)
            | inr (same, bad) ↦ inr (record {
              failed = rw err_eq (
                  response_error_keeps (Option.map Response.wire r.err) r.res
                    (map_keeps r.err bad));
              res = inr (res_eq ∙ ap some same);
            })
          ]
    ]

transmit_to_keeps :
    (c : Client) (conn : Option Conn) (req : McRequest) (sent : Reply)
    → c.conn ≡ conn
    → transmit_request_to c conn req ≡ some sent
    → waiting sent.client ≡ waiting c
unfolding transmit_request_to
transmit_to_keeps c none req sent same h = let e : sent.client.conn ≡ c.conn = cc h in rw e refl
transmit_to_keeps c (some conn) req sent same h =
    elim (Option-cases (Request.transmit req conn.writer)) [
      | inl e ↦ absurd (cc (rw e at h))
      | inr (t, e) ↦
          let h' = rw e at h in
          let conn_eq : sent.client.conn ≡ some (record conn { writer = t.writer }) = cc h' in
          rw (conn_eq, same) refl
    ]

pub get_response_takes :
    (c : Client) (got : Reply)
    → get_response c ≡ some got
    → (waiting got.client < waiting c) ⊎ TookNothing got
get_response_takes c = response_from_takes c c.conn

pub transmit_keeps :
    (c : Client) (req : McRequest) (sent : Reply)
    → transmit_request c req ≡ some sent
    → waiting sent.client ≡ waiting c
transmit_keeps c req sent = transmit_to_keeps c c.conn req sent refl

pub nil_response :
    (c : Client) (conn : Option Conn) (req : McRequest) (sent : Reply)
    → transmit_request_to c conn req ≡ some sent
    → sent.res ≡ none
unfolding transmit_request_to
nil_response c none req sent h = cc h
nil_response c (some conn) req sent h = elim (Option-cases (Request.transmit req conn.writer)) [
  | inl e ↦ absurd (cc (rw e at h))
  | inr (t, e) ↦ let h' = rw e at h in cc h'
]

send_rest_takes :
    (sent : Reply) (err : Option GoError) (got : Reply)
    → sent.err ≡ err
    → sent.res ≡ none
    → send_rest sent err ≡ some got
    → (waiting got.client < waiting sent.client) ⊎ TookNothing got
unfolding send_rest
send_rest_takes sent (some err) got e r h =
    let err_eq : got.err ≡ sent.err = cc h in
    let res_eq : got.res ≡ sent.res = cc h in
    inr (record { failed = rw (err_eq, e) (λ z. cc); res = inl (res_eq ∙ r) })
send_rest_takes sent none got e r h = elim (Option-cases (get_response sent.client)) [
  | inl x ↦ absurd (cc (rw x at h))
  | inr (back, x) ↦
      let h' = rw x at h in
      let err_eq : got.err ≡ back.err = cc h' in
      let res_eq : got.res ≡ back.res = cc h' in
      let conn_eq : got.client.conn ≡ back.client.conn = cc h' in
      elim (get_response_takes sent.client back x) [
        | inl less ↦ inl (rw conn_eq less)
        | inr took ↦ inr (record { failed = rw err_eq took.failed; res = rw res_eq took.res })
      ]
]

-- Send takes bytes off the connection, or fails with no response or one that was not read.
pub send_takes :
    (c : Client) (req : McRequest) (got : Reply)
    → send c req ≡ some got
    → (waiting got.client < waiting c) ⊎ TookNothing got
unfolding send
send_takes c req got h = elim (Option-cases (transmit_request c req)) [
  | inl e ↦ absurd (cc (rw e at h))
  | inr (sent, e) ↦
      subst (λ (n : ℕ). (waiting got.client < n) ⊎ TookNothing got) (transmit_keeps c req sent e)
        (send_rest_takes sent sent.err got refl (nil_response c c.conn req sent e) (rw e at h))
]
