-- ===== src/Wire/Request/Transmission.antt =====
-- `Transmit` of mc_req.go on any writer.
use gomemcached.Prelude.{
  ℕ, ◌+◌, ◌≤◌, ◌≡◌, ◌↔◌, refl, sym, subst, ap, ◌∙◌, Option, none, some, Bytes, ◌++◌, length, take,
  ltb, arith, inl, inr, length-append, append_assoc, Bool-cases, take-append_add, take-append_le,
  take_all,
}
use gomemcached.Io.{IoError, Writer, WriteResult, write, Wrote, write-Wrote}
use gomemcached.Wire.Request.{McRequest, Transmitted, transmit, transmit_rest}
use gomemcached.Wire.Request.Encoding.{wire, request_header, bytes-layout, header_bytes-layout}

-- A front of `bs` went out, of the length counted, and no error means that all of it did.
pub record Sent (w : Writer) (bs : Bytes) (t : Transmitted) : Type 0 where
  pub sent : t.writer.sent ≡ w.sent ++ take t.n bs
  pub within : t.n ≤ length bs
  pub complete : (t.err ≡ none) ↔ (t.n ≡ length bs)

transmit_rest-Sent :
    (err : Option IoError) (w : Writer) (front body : Bytes) (first : WriteResult)
    → Wrote w front first
    → err ≡ first.err
    → Sent w (front ++ body) (transmit_rest err first body)
unfolding transmit_rest
transmit_rest-Sent (some x) w front body first h e = record {
  sent =
      h.sent ∙ ap (λ (t : Bytes). w.sent ++ t) (sym (take-append_le front body first.n h.within));
  within = omega (arith, h.within, length-append front body);
  complete = (λ z. cc, λ z. cc (h.done (omega (arith, h.within, length-append front body)), e));
}
transmit_rest-Sent none w front body first h e =
    let second = write first.writer body in
    let k = write-Wrote first.writer body in
    let all : first.n ≡ length front = h.full (sym e) in
    record {
      sent =
          k.sent
          ∙ ap (λ (t : Bytes). t ++ take second.n body)
              (h.sent ∙ ap (λ (t : Bytes). w.sent ++ t) (take_all first.n front (omega arith)))
          ∙ append_assoc w.sent front (take second.n body)
          ∙ ap (λ (t : Bytes). w.sent ++ t)
              (sym (take-append_add front body second.n)
                ∙ ap (λ (m : ℕ). take (m + second.n) (front ++ body)) (sym all));
      within = omega (arith, k.within, all, length-append front body);
      complete = (
        λ z. omega (arith, k.full z, all, length-append front body),
        λ z. k.done (omega (arith, all, length-append front body)),
      );
    }

once-Sent :
    (w : Writer) (bs : Bytes)
    → Sent w bs
        (record { n = (write w bs).n; err = (write w bs).err; writer = (write w bs).writer })
once-Sent w bs =
    let h = write-Wrote w bs in
    record { sent = h.sent; within = h.within; complete = (h.full, h.done) }

pub wire_split :
    (req : McRequest) → (request_header req ++ (req.extras ++ req.key)) ++ req.body ≡ wire req
wire_split req =
    append_assoc (request_header req) (req.extras ++ req.key) req.body
    ∙ ap (λ (t : Bytes). request_header req ++ t) (append_assoc req.extras req.key req.body)

-- Whatever the writer does, `Transmit` never panics; it sends a front of the packet of the length
-- that it returns, and returns no error exactly when that is the whole packet.
pub transmit-Sent :
    (req : McRequest) (w : Writer)
    → (t : Transmitted) × (transmit req w ≡ some t) × Sent w (wire req) t
unfolding transmit
transmit-Sent req w = elim (Bool-cases (ltb (length req.body) 128)) [
  | inl small ↦ (_, rw (small, bytes-layout req), once-Sent w (wire req))
  | inr large ↦
      let front : Bytes = request_header req ++ (req.extras ++ req.key) in
      let first : WriteResult = write w front in
      (
        transmit_rest first.err first req.body,
        rw (large, header_bytes-layout req),
        subst (λ bs. Sent w bs (transmit_rest first.err first req.body)) (wire_split req)
            (transmit_rest-Sent first.err w front req.body first (write-Wrote w front) refl),
      )
]
