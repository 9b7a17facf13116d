-- ===== src/Debug/Hooks/Transparency.antt =====
-- The hooks of debug/mcdebug.go neither panic nor change a result.
use mathlib.Core.Option.{some-injective}
use gomemcached.Prelude.{
  ℕ, zero, suc, ◌<◌, ◌≤◌, ◌≡◌, refl, ap, ◌∙◌, Bool, true, false, Option, none, some, List, [], ◌∷◌,
  All, IsByte, length, ltb, if◌then◌else◌, arith, Option-cases, inl, inr,
}
use gomemcached.Wire.Request
use gomemcached.Wire.Request.{McRequest}
use gomemcached.Wire.Response
use gomemcached.Wire.Response.{empty_response}
use gomemcached.Wire.Response.Typing.{IsTyped, response_receive-IsTyped}
use gomemcached.Client.{Client, Conn, Reply, get_response_from, transmit_request_to}
use gomemcached.Debug.{McOps, add_at, count_outcome, count}
use gomemcached.Debug.Totals.{IsMcOps}
use gomemcached.Debug.Hooks.{Meters, Metered, is_some, transmit_counted, get_response_counted}

add_at-returns :
    (xs : List ℕ) (i n : ℕ)
    → i < length xs
    → (ys : List ℕ) × (add_at xs i n ≡ some ys) × (length ys ≡ length xs)
unfolding add_at
add_at-returns [] i n h = absurd (omega arith)
add_at-returns (x ∷ xs) zero n h = (_, refl, refl)
add_at-returns (x ∷ xs) (suc i) n h =
    let (ys, e, l) = add_at-returns xs i n (omega arith) in (x ∷ ys, rw e refl, omega (arith, l))

outcome_returns :
    (m : McOps) (i : ℕ) (failed : Bool)
    → IsMcOps m
    → i ≤ 256
    → (m' : McOps) × (count_outcome m i failed ≡ some m') × IsMcOps m'
unfolding count_outcome
outcome_returns m i false o h =
    let (xs, e, l) = add_at-returns m.success i 1 (omega (arith, o.success)) in
    (
      record m { success = xs },
      rw e refl,
      record { moved = o.moved; success = l ∙ o.success; errored = o.errored },
    )
outcome_returns m i true o h =
    let (xs, e, l) = add_at-returns m.errored i 1 (omega (arith, o.errored)) in
    (
      record m { errored = xs },
      rw e refl,
      record { moved = o.moved; success = o.success; errored = l ∙ o.errored },
    )

-- A hook returns for an opcode.
count_returns :
    (m : McOps) (i n : ℕ) (failed : Bool)
    → IsMcOps m
    → i ≤ 256
    → (m' : McOps) × (count m i n failed ≡ some m') × IsMcOps m'
unfolding count
count_returns m i n failed o h =
    let j = if ltb n 2 then 256 else i in
    let small : j ≤ 256 = ground arith in
    let (m1, e1, o1) = outcome_returns m j failed o small in
    let (xs, e2, l) = add_at-returns m1.moved j n (omega (arith, o1.moved, small)) in
    (
      record m1 { moved = xs },
      rw (e1, e2) refl,
      record { moved = l ∙ o1.moved; success = o1.success; errored = o1.errored },
    )

pub record IsMeters (m : Meters) : Type 0 where
  pub sent : IsMcOps m.sent
  pub received : IsMcOps m.received

-- Where the call without hooks returns, the call with them does, with the same result.
abbrev pub Keeps : Option Metered → Reply → Type 0
Keeps call reply = (out : Metered) × (call ≡ some out) × (out.reply ≡ reply) × IsMeters out.meters

pub empty_response-IsTyped : IsTyped empty_response
empty_response-IsTyped = record {
  opcode = omega arith;
  status = omega arith;
  opaque = omega arith;
  cas = omega arith;
  extras = tt;
  key = tt;
  body = tt;
}

pub transmit-Keeps :
    (m : Meters) (c : Client) (conn : Option Conn) (req : McRequest) (reply : Reply)
    → IsMeters m
    → IsByte req.opcode
    → transmit_request_to c conn req ≡ some reply
    → Keeps (transmit_counted m c conn req) reply
unfolding transmit_counted transmit_request_to
transmit-Keeps m c none req reply o b h = (_, refl, cc h, o)
transmit-Keeps m c (some conn) req reply o b h =
    elim (Option-cases (Request.transmit req conn.writer)) [
      | inl e ↦ absurd (cc (rw e at h))
      | inr (t, e) ↦
          let (sent, k, o') =
            count_returns m.sent req.opcode t.n (is_some t.err) o.sent (omega arith) in
          let same = some-injective _ reply (rw e at h) in
          (
            record { n = t.n; reply = reply; meters = record m { sent = sent } },
            rw (e, k)
                (ap (λ r. some (record { n = t.n; reply = r; meters = record m { sent = sent } }))
                  same),
            refl,
            record { sent = o'; received = o.received },
          )
    ]

pub receive-Keeps :
    (m : Meters) (c : Client) (conn : Conn) (reply : Reply)
    → IsMeters m
    → All IsByte conn.reader.input
    → get_response_from c (some conn) ≡ some reply
    → Keeps (get_response_counted m c (some conn)) reply
unfolding get_response_counted get_response_from
receive-Keeps m c conn reply o b h =
    elim (Option-cases (Response.receive empty_response conn.reader c.hdr_buf)) [
      | inl e ↦ absurd (cc (rw e at h))
      | inr (got, e) ↦
          let (typed, rest) =
            response_receive-IsTyped empty_response conn.reader c.hdr_buf got empty_response-IsTyped
              b e in
          let (received, k, o') =
            count_returns m.received got.res.opcode got.n (is_some got.err) o.received
              (omega (arith, typed.opcode)) in
          let same = some-injective _ reply (rw e at h) in
          (
            record { n = got.n; reply = reply; meters = record m { received = received } },
            rw (e, k)
                (ap
                  (λ r.
                    some
                      (record { n = got.n; reply = r; meters = record m { received = received } }))
                  same),
            refl,
            record { sent = o.sent; received = o' },
          )
    ]
