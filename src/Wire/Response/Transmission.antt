-- ===== src/Wire/Response/Transmission.antt =====
-- `Transmit` of mc_res.go on any writer.
use gomemcached.Prelude.{
  ℕ, ◌+◌, ◌≤◌, ◌<◌, ◌≡◌, ◌↔◌, refl, sym, ap, subst, ◌∙◌, Option, none, some, Bytes, ◌++◌, length,
  take, ltb, arith, inl, inr, length-append, append_assoc, Bool-cases, take-append_add,
  take-append_le, take_all, le→not_ltb, lt→ltb,
}
use gomemcached.Io.{IoError, Writer, WriteResult, write, Wrote, write-Wrote}
use gomemcached.Wire.Response.{McResponse, Transmitted, size, transmit, transmit_rest}
use gomemcached.Wire.Response.Encoding.{
  wire, response_header, bytes-layout, header_bytes-layout, length-wire,
}

-- The first `m` bytes went out, and no error means that they are all.
pub record Sent (w : Writer) (bs : Bytes) (m : ℕ) (t : Transmitted) : Type 0 where
  pub sent : t.writer.sent ≡ w.sent ++ take m bs
  pub within : m ≤ length bs
  pub complete : (t.err ≡ none) ↔ (m ≡ length bs)

sent_rest : Option IoError → WriteResult → Bytes → ℕ
sent_rest (some e) first body = first.n
sent_rest none first body = first.n + (write first.writer body).n

transmit_rest-Sent :
    (err : Option IoError) (w : Writer) (front body : Bytes) (first : WriteResult)
    → Wrote w front first
    → err ≡ first.err
    → Sent w (front ++ body) (sent_rest err first body) (transmit_rest err first body)
unfolding transmit_rest sent_rest
transmit_rest-Sent (some x) w front body first h e = record {
  sent =
      h.sent ∙ ap (λ (t : Bytes). w.sent ++ t) (sym (take-append_le front body first.n h.within));
  within = omega (arith, h.within, length-append front body);
  complete = (λ z. cc, λ z. cc (h.done (omega (arith, h.within, length-append front body)), e));
}
transmit_rest-Sent none w front body first h e =
    let second = write first.writer body in
    let k = write-Wrote first.writer body in
    let all : first.n ≡ length front = h.full (sym e) in
    let out : take first.n front ≡ front = take_all first.n front (omega arith) in
    let lens = length-append front body in
    record {
      sent =
          k.sent
          ∙ ap (λ (t : Bytes). t ++ take second.n body)
              (h.sent ∙ ap (λ (t : Bytes). w.sent ++ t) out)
          ∙ append_assoc w.sent front (take second.n body)
          ∙ ap (λ (t : Bytes). w.sent ++ t)
              (sym (take-append_add front body second.n)
                ∙ ap (λ (m : ℕ). take (m + second.n) (front ++ body)) (sym all));
      within = omega (arith, k.within, all, lens);
      complete = (λ z. omega (arith, k.full z, all, lens), λ z. k.done (omega (arith, all, lens)));
    }

pub wire_split :
    (res : McResponse) → (response_header res ++ (res.extras ++ res.key)) ++ res.body ≡ wire res
wire_split res =
    append_assoc (response_header res) (res.extras ++ res.key) res.body
    ∙ ap (λ (t : Bytes). response_header res ++ t) (append_assoc res.extras res.key res.body)

pub transmit_small :
    (res : McResponse) (w : Writer)
    → length res.body < 128
    → transmit res w
      ≡ some (record {
        n = (write w (wire res)).n;
        err = (write w (wire res)).err;
        writer = (write w (wire res)).writer;
      })
unfolding transmit
transmit_small res w h = rw (lt→ltb (length res.body) 128 h, bytes-layout res)

pub transmit_large :
    (res : McResponse) (w : Writer)
    → 128 ≤ length res.body
    → transmit res w
      ≡ some (
          transmit_rest
            (write w (response_header res ++ (res.extras ++ res.key))).err
            (write w (response_header res ++ (res.extras ++ res.key)))
            res.body)
unfolding transmit
transmit_large res w h = rw (le→not_ltb (length res.body) 128 h, header_bytes-layout res)

-- Whatever the writer does, the response's `Transmit` never panics; it sends a front of the packet
-- and returns no error exactly when that is the whole packet. A body below 128 bytes goes out in one
-- write, and there the count returned is the number of bytes sent.
pub response_transmit-Sent :
    (res : McResponse) (w : Writer)
    → (t : Transmitted) × (m : ℕ) × (transmit res w ≡ some t)
      × Sent w (wire res) m t
      × (length res.body < 128 → t.n ≡ m)
response_transmit-Sent res w = elim (Bool-cases (ltb (length res.body) 128)) [
  | inl small ↦
      let h = write-Wrote w (wire res) in
      (
        _,
        _,
        transmit_small res w (ground arith),
        record { sent = h.sent; within = h.within; complete = (h.full, h.done) },
        λ _. refl,
      )
  | inr large ↦
      let front : Bytes = response_header res ++ (res.extras ++ res.key) in
      let first : WriteResult = write w front in
      let m : ℕ = sent_rest first.err first res.body in
      (
        transmit_rest first.err first res.body,
        m,
        transmit_large res w (ground arith),
        subst (λ bs. Sent w bs m (transmit_rest first.err first res.body)) (wire_split res)
            (transmit_rest-Sent first.err w front res.body first (write-Wrote w front) refl),
        λ s. absurd (ground arith),
      )
]

rest_undercounts :
    (err : Option IoError) (w : Writer) (front body : Bytes) (first : WriteResult)
    → Wrote w front first
    → err ≡ first.err
    → (transmit_rest err first body).err ≡ none
    → (transmit_rest err first body).n ≡ length front
unfolding transmit_rest
rest_undercounts (some x) w front body first h e z = cc
rest_undercounts none w front body first h e z = h.full (sym e)

-- For a body of 128 bytes or more a `Transmit` that returns no error returns a count that is the size
-- of the packet without its body.
pub response_transmit_undercounts :
    (res : McResponse) (w : Writer) (t : Transmitted)
    → 128 ≤ length res.body
    → transmit res w ≡ some t
    → t.err ≡ none
    → t.n + length res.body ≡ size res
response_transmit_undercounts res w t h run ok =
    let front : Bytes = response_header res ++ (res.extras ++ res.key) in
    let first : WriteResult = write w front in
    let same : transmit_rest first.err first res.body ≡ t = cc (transmit_large res w h) in
    let count : t.n ≡ length front =
      subst (λ u. u.err ≡ none → u.n ≡ length front) same
        (rest_undercounts first.err w front res.body first (write-Wrote w front) refl) ok in
    omega (arith, count, length-wire res, ap length (wire_split res), length-append front res.body)
