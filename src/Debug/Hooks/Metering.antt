-- ===== src/Debug/Hooks/Metering.antt =====
-- A client's transmissions and receptions with the hooks of debug/mcdebug.go: the same as without
-- them, and measured.
use gomemcached.Prelude.{
  ℕ, ◌+◌, ◌^◌, ◌<◌, ◌≡◌, refl, sym, ap, subst, Option, none, some, Bytes, List, [], ◌∷◌, All,
  IsByte, ◌>>=◌, arith, Option-cases, inl, inr,
}
use mathlib.Core.Option.{some-injective}
use gomemcached.GoMap.{lookup, bytes_eq}
use gomemcached.Wire.Request.{McRequest}
use gomemcached.Wire.Response
use gomemcached.Wire.Response.{empty_response}
use gomemcached.Wire.Response.Typing.{response_receive-IsTyped}
use gomemcached.Client.{Client, Conn, Reply, get_response_from, transmit_request_to}
use gomemcached.Debug.{total, report}
use gomemcached.Debug.Reports.{shown}
use gomemcached.Debug.Hooks.{Meters, get_response_counted}
use gomemcached.Debug.Hooks.Sessions.{
  Call, sending, receiving, call, run_calls, new_meters, written, unread, run_calls-report,
}
use gomemcached.Debug.Hooks.Transparency.{
  IsMeters, Keeps, transmit-Keeps, receive-Keeps, empty_response-IsTyped,
}

-- A call with the hooks unset.
unfoldable pub plain_call : Client → Call → Option Reply
plain_call c (sending req) = transmit_request_to c c.conn req
plain_call c receiving = get_response_from c c.conn

unfoldable pub plain_calls : Client → List Call → Option Client
plain_calls c [] = some c
plain_calls c (x ∷ calls) = do reply ← plain_call c x; plain_calls reply.client calls

abbrev pub IsCall : Call → Type 0
IsCall (sending req) = IsByte req.opcode
IsCall receiving = Unit

abbrev pub input_of : Option Conn → Bytes
input_of none = []
input_of (some conn) = conn.reader.input

sending-input :
    (c : Client) (conn : Option Conn) (req : McRequest) (reply : Reply)
    → transmit_request_to c conn req ≡ some reply
    → c.conn ≡ conn
    → input_of reply.client.conn ≡ input_of conn
unfolding transmit_request_to
sending-input c none req reply h e = ground (arith, h, e)
sending-input c (some conn) req reply h e = grind arith

receiving-input :
    (c : Client) (conn : Option Conn) (reply : Reply)
    → get_response_from c conn ≡ some reply
    → c.conn ≡ conn
    → All IsByte (input_of conn)
    → All IsByte (input_of reply.client.conn)
unfolding get_response_from
receiving-input c none reply h e b =
    let same : c ≡ reply.client = ap (λ (r : Reply). r.client) (some-injective _ reply h) in
    subst (λ (d : Client). All IsByte (input_of d.conn)) same (rw e b)
receiving-input c (some conn) reply h e b =
    elim (Option-cases (Response.receive empty_response conn.reader c.hdr_buf)) [
      | inl g ↦ absurd (cc (rw g at h))
      | inr (got, g) ↦
          let (typed, rest) =
            response_receive-IsTyped empty_response conn.reader c.hdr_buf got empty_response-IsTyped
              b g in
          subst (λ (r : Reply). All IsByte (input_of r.client.conn))
            (some-injective _ reply (rw g at h)) rest
    ]

call-input :
    (c : Client) (x : Call) (reply : Reply)
    → plain_call c x ≡ some reply
    → All IsByte (input_of c.conn)
    → All IsByte (input_of reply.client.conn)
unfolding plain_call
call-input c (sending req) reply h b =
    subst (All IsByte) (sym (sending-input c c.conn req reply h refl)) b
call-input c receiving reply h b = receiving-input c c.conn reply h refl b

receiving-Keeps :
    (m : Meters) (c : Client) (conn : Option Conn) (reply : Reply)
    → IsMeters m
    → All IsByte (input_of conn)
    → get_response_from c conn ≡ some reply
    → Keeps (get_response_counted m c conn) reply
unfolding get_response_counted get_response_from
receiving-Keeps m c none reply o b h = (_, refl, some-injective _ reply h, o)
receiving-Keeps m c (some conn) reply o b h = receive-Keeps m c conn reply o b h

call-Keeps :
    (m : Meters) (c : Client) (x : Call) (reply : Reply)
    → IsMeters m
    → IsCall x
    → All IsByte (input_of c.conn)
    → plain_call c x ≡ some reply
    → Keeps (call m c x) reply
unfolding call plain_call
call-Keeps m c (sending req) reply o i b h = transmit-Keeps m c c.conn req reply o i h
call-Keeps m c receiving reply o i b h = receiving-Keeps m c c.conn reply o b h

-- The calls with the hooks end as the calls without them.
run_calls-plain :
    (calls : List Call) (m : Meters) (c c' : Client)
    → IsMeters m
    → All IsCall calls
    → All IsByte (input_of c.conn)
    → plain_calls c calls ≡ some c'
    → (m' : Meters) × (run_calls m c calls ≡ some (m', c'))
unfolding run_calls plain_calls
run_calls-plain [] m c c' o i b h = (m, ap (λ d. some (m, d)) (some-injective c c' h))
run_calls-plain (x ∷ calls) m c c' o (i, is) b h = elim (Option-cases (plain_call c x)) [
  | inl e ↦ absurd (cc (rw e at h))
  | inr (reply, e) ↦
      let (out, k, same, o') = call-Keeps m c x reply o i b e in
      let (m', run) =
        run_calls-plain calls out.meters reply.client c' o' is (call-input c x reply e b)
          (rw e at h) in
      (m', rw (k, same) run)
]

new_meters-IsMeters : IsMeters new_meters
new_meters-IsMeters = record {
  sent = record { moved = refl; success = refl; errored = refl };
  received = record { moved = refl; success = refl; errored = refl };
}

-- Some transmissions and receptions of a client, whatever errors they have, of requests whose opcodes
-- are bytes, on a connection that gives bytes, with less than 2^64 bytes written in the end and to
-- be read at the start. If they return with the hooks unset, they do so with the hooks of
-- debug/mcdebug.go set and new counters, and leave the same client; the total of the report of the
-- bytes sent is then the number of bytes that they wrote to the connection, and that of the bytes
-- received the number that they took from it, where a total of 0 is left out.
pub run_calls-metered :
    (calls : List Call) (c c' : Client)
    → All IsCall calls
    → All IsByte (input_of c.conn)
    → written c'.conn < 2 ^ 64
    → unread c.conn < 2 ^ 64
    → plain_calls c calls ≡ some c'
    → (m : Meters) × (sent taken : ℕ) × (run_calls new_meters c calls ≡ some (m, c'))
      × (written c'.conn ≡ written c.conn + sent)
      × (unread c.conn ≡ unread c'.conn + taken)
      × (lookup total (report m.sent.moved) ≡ shown sent)
      × (lookup total (report m.received.moved) ≡ shown taken)
run_calls-metered calls c c' i b wide long h =
    let (m, run) = run_calls-plain calls new_meters c c' new_meters-IsMeters i b h in
    let (sent, taken, a, d, e, f) = run_calls-report calls m c c' run wide long in
    (m, sent, taken, run, a, d, e, f)
