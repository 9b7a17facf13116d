-- ===== src/Wire/Response/Delivery.antt =====
-- `Transmit` of mc_res.go on a writer that does not fail.
use gomemcached.Prelude.{
  ℕ, ◌≡◌, none, some, Bytes, ◌++◌, length, ltb, arith, inl, inr, append_assoc, Bool-cases,
}
use gomemcached.Io.{Writer, write_unlimited}
use gomemcached.Wire.Response.{McResponse, transmit, transmit_rest}
use gomemcached.Wire.Response.Encoding.{wire, response_header}
use gomemcached.Wire.Response.Transmission.{transmit_small, transmit_large, wire_split}

rest_unlimited :
    (w : Writer) (n : ℕ) (front body : Bytes)
    → w.room ≡ none
    → transmit_rest none
        (record { n = n; err = none; writer = record w { sent = w.sent ++ front } })
        body
      ≡ record { n = n; err = none; writer = record w { sent = w.sent ++ (front ++ body) } }
unfolding transmit_rest
rest_unlimited w n front body free = rw (
  write_unlimited (record w { sent = w.sent ++ front }) body free,
  append_assoc w.sent front body,
)

-- The whole packet goes out, and there is no error.
pub transmit_unlimited :
    (res : McResponse) (w : Writer)
    → w.room ≡ none
    → (n : ℕ) × (transmit res w
        ≡ some (record { n = n; err = none; writer = record w { sent = w.sent ++ wire res } }))
transmit_unlimited res w free = elim (Bool-cases (ltb (length res.body) 128)) [
  | inl small ↦ (
    length (wire res),
    rw (transmit_small res w (ground arith), write_unlimited w (wire res) free),
  )
  | inr large ↦
      let front : Bytes = response_header res ++ (res.extras ++ res.key) in
      (
        length front,
        rw (
          transmit_large res w (ground arith),
          write_unlimited w front free,
          rest_unlimited w (length front) front res.body free,
          wire_split res,
        ),
      )
]
