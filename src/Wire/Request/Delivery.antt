-- ===== src/Wire/Request/Delivery.antt =====
-- `Transmit` of mc_req.go on a writer that does not fail.
use gomemcached.Prelude.{
  ℕ, ◌+◌, ◌≡◌, none, some, Bytes, ◌++◌, length, ltb, inl, inr, append_assoc, Bool-cases,
}
use gomemcached.Io.{Writer, write_unlimited}
use gomemcached.Wire.Request.{McRequest, transmit, transmit_rest}
use gomemcached.Wire.Request.Encoding.{wire, request_header, bytes-layout, header_bytes-layout}
use gomemcached.Wire.Request.Transmission.{wire_split}

-- The whole packet goes out, and there is no error.
pub request_transmit_unlimited :
    (req : McRequest) (w : Writer)
    → w.room ≡ none
    → (n : ℕ) × (transmit req w
        ≡ some (record { n = n; err = none; writer = record w { sent = w.sent ++ wire req } }))
unfolding transmit transmit_rest
request_transmit_unlimited req w free = elim (Bool-cases (ltb (length req.body) 128)) [
  | inl small ↦ (length (wire req), rw (small, bytes-layout req, write_unlimited w (wire req) free))
  | inr large ↦
      let front : Bytes = request_header req ++ (req.extras ++ req.key) in
      (
        length front + length req.body,
        rw (
          large,
          header_bytes-layout req,
          write_unlimited w front free,
          write_unlimited (record w { sent = w.sent ++ front }) req.body free,
          append_assoc w.sent front req.body,
          wire_split req,
        ),
      )
]
