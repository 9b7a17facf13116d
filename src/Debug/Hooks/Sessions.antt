-- ===== src/Debug/Hooks/Sessions.antt =====
-- The counters of the hooks over a sequence of transmissions and receptions on one connection.
use gomemcached.Prelude.{
  ℕ, zero, suc, ◌+◌, ◌%◌, ◌^◌, ◌<◌, ◌≤◌, ◌≡◌, refl, sym, ap, subst, ◌∙◌, Bool, Option, none, some,
  List, [], ◌∷◌, length, take, ◌>>=◌, arith, length-append, length-take, Option-cases, inl, inr,
}
use mathlib.Core.Option.{some-injective}
use gomemcached.GoMap.{lookup, bytes_eq}
use gomemcached.Io.{Writer}
use gomemcached.Wire.Request
use gomemcached.Wire.Request.{McRequest}
use gomemcached.Wire.Request.Encoding.{wire}
use gomemcached.Wire.Request.Transmission.{transmit-Sent}
use gomemcached.Wire.Response.Consumption.{response_receive-Counts}
use gomemcached.Client.{Client, Conn}
use gomemcached.Debug.{McOps, new_ops, add_at, count_outcome, count, total, report}
use gomemcached.Debug.Totals.{sum}
use gomemcached.Debug.Reports.{report-HasTotal, shown}
use gomemcached.Debug.Hooks.{Meters, Metered, transmit_counted, get_response_counted}

-- A call of transmitRequest or of getResponse.
pub data Call : Type 0 where
  sending : McRequest → Call
  receiving : Call

unfoldable pub call : Meters → Client → Call → Option Metered
call m c (sending req) = transmit_counted m c c.conn req
call m c receiving = get_response_counted m c c.conn

unfoldable pub run_calls : Meters → Client → List Call → Option (Meters × Client)
run_calls m c [] = some (m, c)
run_calls m c (x ∷ calls) = do out ← call m c x; run_calls out.meters out.reply.client calls

-- What was written to a connection and what can be read from it.
abbrev pub written : Option Conn → ℕ
written none = 0
written (some conn) = length conn.writer.sent

abbrev pub unread : Option Conn → ℕ
unread none = 0
unread (some conn) = length conn.reader.input

add_at-total :
    (xs ys : List ℕ) (i n : ℕ) → add_at xs i n ≡ some ys → sum xs + n < 2 ^ 64 → sum ys ≡ sum xs + n
unfolding add_at
add_at-total [] ys i n h b = absurd cc
add_at-total (x ∷ xs) ys zero n h b =
    let fits : (x + n) % 2 ^ 64 ≡ x + n = omega arith in ground (arith, h, fits)
add_at-total (x ∷ xs) ys (suc i) n h b = elim (Option-cases (add_at xs i n)) [
  | inl e ↦ absurd (cc (rw e at h))
  | inr (zs, e) ↦
      let IH = add_at-total xs zs i n e (omega arith) in
      let same = rw e at h in ground (arith, same, IH)
]

-- An array that the program only adds to, and that has moved on by `n`.
count-moved :
    (m m' : McOps) (i n : ℕ) (failed : Bool)
    → count m i n failed ≡ some m'
    → sum m.moved + n < 2 ^ 64
    → sum m'.moved ≡ sum m.moved + n
unfolding count count_outcome
count-moved m m' i n failed h b = grind (arith, add_at-total)

transmit_writes :
    (req : McRequest) (w : Writer) (t : Request.Transmitted)
    → Request.transmit req w ≡ some t
    → length t.writer.sent ≡ length w.sent + t.n
transmit_writes req w t h =
    let (t', e, s) = transmit-Sent req w in
    let same : t' ≡ t = some-injective t' t (sym e ∙ h) in
    let sent : length t'.writer.sent ≡ length w.sent + t'.n =
      ap length s.sent
      ∙ omega (
        arith,
        length-append w.sent (take t'.n (wire req)),
        length-take t'.n (wire req),
        s.within,
      ) in
    subst (λ (t : Request.Transmitted). length t.writer.sent ≡ length w.sent + t.n) same sent

-- What a call does to a connection: the bytes written and read are counted.
record Balanced (m : Meters) (a : Option Conn) (m' : Meters) (b : Option Conn) : Type 0 where
  sent : sum m'.sent.moved + written a ≡ sum m.sent.moved + written b
  received : sum m'.received.moved + unread b ≡ sum m.received.moved + unread a

sending-grows :
    (m : Meters) (c : Client) (conn : Option Conn) (req : McRequest) (out : Metered)
    → transmit_counted m c conn req ≡ some out
    → c.conn ≡ conn
    → written conn ≤ written out.reply.client.conn
unfolding transmit_counted
sending-grows m c none req out h e = omega arith
sending-grows m c (some conn) req out h e = grind (arith, transmit_writes)

receiving-grows :
    (m : Meters) (c : Client) (conn : Option Conn) (out : Metered)
    → get_response_counted m c conn ≡ some out
    → c.conn ≡ conn
    → written conn ≤ written out.reply.client.conn
unfolding get_response_counted
receiving-grows m c none out h e = omega arith
receiving-grows m c (some conn) out h e = grind arith

sending-Balanced :
    (m : Meters) (c : Client) (conn : Option Conn) (req : McRequest) (out : Metered)
    → transmit_counted m c conn req ≡ some out
    → c.conn ≡ conn
    → sum m.sent.moved + written out.reply.client.conn < 2 ^ 64 + written conn
    → Balanced m conn out.meters out.reply.client.conn
unfolding transmit_counted
sending-Balanced m c none req out h e b = record {
  sent = ground (arith, h, e);
  received = ground (arith, h, e);
}
sending-Balanced m c (some conn) req out h e b = record {
  sent = grind (arith, transmit_writes, count-moved);
  received = grind arith;
}

receiving-Balanced :
    (m : Meters) (c : Client) (conn : Option Conn) (out : Metered)
    → get_response_counted m c conn ≡ some out
    → c.conn ≡ conn
    → sum m.received.moved + unread conn < 2 ^ 64
    → Balanced m conn out.meters out.reply.client.conn
unfolding get_response_counted
receiving-Balanced m c none out h e b = record {
  sent = ground (arith, h, e);
  received = ground (arith, h, e);
}
receiving-Balanced m c (some conn) out h e b = record {
  sent = grind arith;
  received = grind (arith, response_receive-Counts, count-moved);
}

call-grows :
    (m : Meters) (c : Client) (x : Call) (out : Metered)
    → call m c x ≡ some out
    → written c.conn ≤ written out.reply.client.conn
unfolding call
call-grows m c (sending req) out h = sending-grows m c c.conn req out h refl
call-grows m c receiving out h = receiving-grows m c c.conn out h refl

call-Balanced :
    (m : Meters) (c : Client) (x : Call) (out : Metered)
    → call m c x ≡ some out
    → sum m.sent.moved + written out.reply.client.conn < 2 ^ 64 + written c.conn
    → sum m.received.moved + unread c.conn < 2 ^ 64
    → Balanced m c.conn out.meters out.reply.client.conn
unfolding call
call-Balanced m c (sending req) out h a b = sending-Balanced m c c.conn req out h refl a
call-Balanced m c receiving out h a b = receiving-Balanced m c c.conn out h refl b

-- The first call and the others.
run_calls-cons :
    (m m' : Meters) (c c' : Client) (x : Call) (calls : List Call)
    → run_calls m c (x ∷ calls) ≡ some (m', c')
    → (out : Metered) × (call m c x ≡ some out)
      × (run_calls out.meters out.reply.client calls ≡ some (m', c'))
unfolding run_calls
run_calls-cons m m' c c' x calls h = elim (Option-cases (call m c x)) [
  | inl e ↦ absurd (cc (rw e at h))
  | inr (out, e) ↦ (out, e, rw e at h)
]

run_calls-grows :
    (calls : List Call) (m m' : Meters) (c c' : Client)
    → run_calls m c calls ≡ some (m', c')
    → written c.conn ≤ written c'.conn
unfolding run_calls
run_calls-grows [] m m' c c' h = let same : c ≡ c' = cc h in rw same (omega arith)
run_calls-grows (x ∷ calls) m m' c c' h =
    let (out, first, rest) = run_calls-cons m m' c c' x calls h in
    omega (
      arith,
      call-grows m c x out first,
      run_calls-grows calls out.meters m' out.reply.client c' rest,
    )

run_calls-Balanced :
    (calls : List Call) (m m' : Meters) (c c' : Client)
    → run_calls m c calls ≡ some (m', c')
    → sum m.sent.moved + written c'.conn < 2 ^ 64 + written c.conn
    → sum m.received.moved + unread c.conn < 2 ^ 64
    → Balanced m c.conn m' c'.conn
unfolding run_calls
run_calls-Balanced [] m m' c c' h a b =
    let same : c ≡ c' = cc h in
    let same' : m ≡ m' = cc h in
    record { sent = ground (arith, same, same'); received = ground (arith, same, same') }
run_calls-Balanced (x ∷ calls) m m' c c' h a b =
    let (out, first, rest) = run_calls-cons m m' c c' x calls h in
    let later' = run_calls-grows calls out.meters m' out.reply.client c' rest in
    let one = call-Balanced m c x out first (omega arith) b in
    let one_sent = one.sent in
    let one_received = one.received in
    let others =
      run_calls-Balanced calls out.meters m' out.reply.client c' rest (omega arith) (omega arith) in
    record { sent = omega (arith, others.sent); received = omega (arith, others.received) }

abbrev pub new_meters : Meters
new_meters = record { sent = new_ops; received = new_ops }

new_ops-sum : sum new_ops.moved ≡ 0
new_ops-sum = refl

-- The totals of the reports, when no call panicked.
pub run_calls-report :
    (calls : List Call) (m : Meters) (c c' : Client)
    → run_calls new_meters c calls ≡ some (m, c')
    → written c'.conn < 2 ^ 64
    → unread c.conn < 2 ^ 64
    → (sent taken : ℕ) × (written c'.conn ≡ written c.conn + sent)
      × (unread c.conn ≡ unread c'.conn + taken)
      × (lookup total (report m.sent.moved) ≡ shown sent)
      × (lookup total (report m.received.moved) ≡ shown taken)
run_calls-report calls m c c' run a b =
    let grown = run_calls-grows calls new_meters m c c' run in
    let balance =
      run_calls-Balanced calls new_meters m c c' run (omega (arith, new_ops-sum))
        (omega (arith, new_ops-sum)) in
    let sent : sum m.sent.moved + written c.conn ≡ written c'.conn =
      omega (arith, balance.sent, new_ops-sum) in
    let received : sum m.received.moved + unread c'.conn ≡ unread c.conn =
      omega (arith, balance.received, new_ops-sum) in
    (
      sum m.sent.moved,
      sum m.received.moved,
      omega (arith, sent),
      omega (arith, received),
      report-HasTotal m.sent.moved (omega (arith, sent)),
      report-HasTotal m.received.moved (omega (arith, received)),
    )
