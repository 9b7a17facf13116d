-- ===== src/Upr/Feed/Channels/Sends.antt =====
-- What runFeed sends on the channels, turn by turn.
use gomemcached.Prelude.{
  ℕ, zero, suc, ◌+◌, ◌%◌, ◌^◌, ◌≡◌, ◌≢◌, refl, sym, ap, ◌∙◌, Bool, Option, none, some, List, [],
  ◌∷◌, ◌++◌, map, ◌==◌, if◌then◌else◌, ltb, arith, append-nil, append_assoc, Option-cases, inl, inr,
}
use gomemcached.Io.{Reader}
use gomemcached.GoMap.{nat_eq}
use gomemcached.Wire.Layout.{WireError}
use gomemcached.Wire.Opcode
use gomemcached.Wire.Request
use gomemcached.Wire.Request.{McRequest, empty_request}
use gomemcached.Upr.{UprEvent}
use gomemcached.Upr.Feed.{
  UprFeed, Step, break_loop, next, ended, with_stream, stream_answered, handle_packet,
  count_mutation, count_snap_shot, count_bytes, close_event, do_stream_close, send_buffer_ack,
  transmit_ack, buffer_ack, deliver, after_event, after_packet, after_error, after_receive,
  feed_loop,
}
use gomemcached.Upr.Feed.Channels.{event_list, received, turned}

-- The commands of a packet.
abbrev pub noop_answer : McRequest → List McRequest
noop_answer pkt =
    if pkt.opcode == Opcode.upr_noop
    then record empty_request { opcode = Opcode.upr_noop } ∷ []
    else []

pub handle_packet-sends :
    (feed feed' : UprFeed) (pkt : McRequest) (ev : Option UprEvent) (ack : Bool)
    → handle_packet feed pkt ≡ some (next feed' ev ack)
    → (feed'.events ≡ feed.events)
      × (feed'.takes ≡ feed.takes)
      × (feed'.commands ≡ feed.commands ++ noop_answer pkt)
unfolding handle_packet with_stream stream_answered count_mutation count_snap_shot
handle_packet-sends feed feed' pkt ev ack h = ground (arith, h, append-nil feed.commands)

-- The acknowledgment of a turn, if it has one.
abbrev pub ack_of : UprFeed → Bool → ℕ → List McRequest
ack_of feed send_ack n =
    let total_bytes = (feed.to_ack_bytes + n % 2 ^ 32) % 2 ^ 32 in
    if send_ack
    then (if ltb feed.max_ack_bytes total_bytes then buffer_ack total_bytes ∷ [] else [])
    else []

pub turned-sends :
    (feed : UprFeed) (ev : Option UprEvent) (send_ack : Bool) (n : ℕ)
    → ((turned feed ev send_ack n).events ≡ feed.events ++ event_list ev)
      × ((turned feed ev send_ack n).takes ≡ feed.takes)
      × ((turned feed ev send_ack n).commands ≡ feed.commands ++ ack_of feed send_ack n)
unfolding transmit_ack send_buffer_ack
turned-sends feed ev send_ack n = ground (arith, append-nil feed.commands)

deliver_open :
    (feed : UprFeed) (ev : Option UprEvent)
    → feed.takes ≡ none
    → deliver feed ev ≡ some (record feed { events = feed.events ++ event_list ev })
unfolding deliver
deliver_open feed none o = rw (append-nil feed.events) refl
deliver_open feed (some e) o = rw o refl

-- A turn of the loop.
pub loop-turn :
    (fuel : ℕ) (feed feed' : UprFeed) (pkt : McRequest) (r : Reader) (got : Request.Received)
    (ev : Option UprEvent) (ack : Bool)
    → feed.takes ≡ none
    → received pkt r ≡ some got
    → got.err ≡ none
    → handle_packet (count_bytes feed got.n) got.req ≡ some (next feed' ev ack)
    → feed_loop (suc fuel) feed pkt r
      ≡ feed_loop fuel (turned feed' ev ack got.n) got.req got.reader
unfolding feed_loop after_receive after_error after_packet after_event count_bytes
loop-turn fuel feed feed' pkt r got ev ack o e n h =
    let (same, still, more) = handle_packet-sends (count_bytes feed got.n) feed' got.req ev ack h in
    rw (e, n, h, deliver_open feed' ev (still ∙ o)) refl

-- A feed that has sent what another has, and more.
abbrev pub Extends : UprFeed → UprFeed → Type 0
Extends feed feed' =
    (es : List UprEvent) × (cs : List McRequest) × (feed'.events ≡ feed.events ++ es)
    × (feed'.commands ≡ feed.commands ++ cs)

extend :
    (feed feed' last : UprFeed) (es : List UprEvent) (cs : List McRequest)
    → feed'.events ≡ feed.events ++ es
    → feed'.commands ≡ feed.commands ++ cs
    → Extends feed' last
    → Extends feed last
extend feed feed' last es cs x y (es', cs', x', y') = (
  es ++ es',
  cs ++ cs',
  x' ∙ (ap (λ l. l ++ es') x ∙ append_assoc feed.events es es'),
  y' ∙ (ap (λ l. l ++ cs') y ∙ append_assoc feed.commands cs cs'),
)

turned-Extends :
    (feed feed' last : UprFeed) (pkt : McRequest) (n m : ℕ) (ev : Option UprEvent) (ack : Bool)
    → handle_packet (count_bytes feed n) pkt ≡ some (next feed' ev ack)
    → Extends (turned feed' ev ack m) last
    → Extends feed last
unfolding count_bytes
turned-Extends feed feed' last pkt n m ev ack h x =
    let (same, still, more) = handle_packet-sends (count_bytes feed n) feed' pkt ev ack h in
    let (events, takes, commands) = turned-sends feed' ev ack m in
    extend feed feed' last [] (noop_answer pkt) (same ∙ sym (append-nil feed.events)) more (
      extend feed' (turned feed' ev ack m) last (event_list ev) (ack_of feed' ack m) events commands
        x)

break-keeps :
    (feed feed' : UprFeed) (pkt : McRequest)
    → handle_packet feed pkt ≡ some (break_loop feed')
    → (feed'.events ≡ feed.events) × (feed'.commands ≡ feed.commands)
unfolding handle_packet with_stream stream_answered
break-keeps feed feed' pkt h = ground (arith, h)

ended-eq : (a b : UprFeed) → ended a ≡ ended b → a ≡ b
ended-eq a b h = cc h

pub failed-last :
    (fuel : ℕ) (feed last : UprFeed) (pkt : McRequest) (r : Reader) (got : Request.Received)
    (err : WireError)
    → received pkt r ≡ some got
    → got.err ≡ some err
    → feed_loop (suc fuel) feed pkt r ≡ ended last
    → (last.events ≡ feed.events ++ map close_event (feed.range.order feed.vbstreams))
      × (last.commands ≡ feed.commands)
unfolding feed_loop after_receive after_error do_stream_close
failed-last fuel feed last pkt r got err e n h =
    let it = rw (e, n) at h in
    let same = ended-eq _ last it in
    (ap (λ (f : UprFeed). f.events) (sym same), ap (λ (f : UprFeed). f.commands) (sym same))

pub break-last :
    (fuel : ℕ) (feed feed' last : UprFeed) (pkt : McRequest) (r : Reader) (got : Request.Received)
    → received pkt r ≡ some got
    → got.err ≡ none
    → handle_packet (count_bytes feed got.n) got.req ≡ some (break_loop feed')
    → feed_loop (suc fuel) feed pkt r ≡ ended last
    → (last.events ≡ feed.events) × (last.commands ≡ feed.commands)
unfolding feed_loop after_receive after_error after_packet count_bytes
break-last fuel feed feed' last pkt r got e n k h =
    let it = rw (e, n, k) at h in
    let same = ended-eq _ last it in
    let (x, y) = break-keeps (count_bytes feed got.n) feed' got.req k in
    (ap (λ (f : UprFeed). f.events) (sym same) ∙ x, ap (λ (f : UprFeed). f.commands) (sym same) ∙ y)

pub packet-ends :
    (fuel : ℕ) (feed last : UprFeed) (pkt : McRequest) (r : Reader) (got : Request.Received)
    → received pkt r ≡ some got
    → got.err ≡ none
    → handle_packet (count_bytes feed got.n) got.req ≡ none
    → feed_loop (suc fuel) feed pkt r ≢ ended last
unfolding feed_loop after_receive after_error after_packet count_bytes
packet-ends fuel feed last pkt r got e n k h = let it = rw (e, n, k) at h in cc it

pub receive-ends :
    (fuel : ℕ) (feed last : UprFeed) (pkt : McRequest) (r : Reader)
    → received pkt r ≡ none
    → feed_loop (suc fuel) feed pkt r ≢ ended last
unfolding feed_loop after_receive
receive-ends fuel feed last pkt r e h = let it = rw e at h in cc it

step-Extends :
    (fuel : ℕ) (feed last : UprFeed) (pkt : McRequest) (r : Reader) (got : Request.Received)
    (step : Step)
    → ((feed : UprFeed) (pkt : McRequest) (r : Reader)
        → feed.takes ≡ none
        → feed_loop fuel feed pkt r ≡ ended last
        → Extends feed last)
    → feed.takes ≡ none
    → received pkt r ≡ some got
    → got.err ≡ none
    → handle_packet (count_bytes feed got.n) got.req ≡ some step
    → feed_loop (suc fuel) feed pkt r ≡ ended last
    → Extends feed last
unfolding count_bytes
step-Extends fuel feed last pkt r got (break_loop feed') ih o e n k h =
    let (x, y) = break-last fuel feed feed' last pkt r got e n k h in
    ([], [], x ∙ sym (append-nil feed.events), y ∙ sym (append-nil feed.commands))
step-Extends fuel feed last pkt r got (next feed' ev ack) ih o e n k h =
    let (same, still, more) = handle_packet-sends (count_bytes feed got.n) feed' got.req ev ack k in
    let (events, takes, commands) = turned-sends feed' ev ack got.n in
    turned-Extends feed feed' last got.req got.n got.n ev ack k (
      ih (turned feed' ev ack got.n) got.req got.reader (takes ∙ (still ∙ o))
        (sym (loop-turn fuel feed feed' pkt r got ev ack o e n k) ∙ h))

-- Where the loop ends, it has sent what it had sent before.
pub feed_loop-Extends :
    (fuel : ℕ) (feed last : UprFeed) (pkt : McRequest) (r : Reader)
    → feed.takes ≡ none
    → feed_loop fuel feed pkt r ≡ ended last
    → Extends feed last
unfolding feed_loop
feed_loop-Extends zero feed last pkt r o h = absurd cc
feed_loop-Extends (suc fuel) feed last pkt r o h = elim (Option-cases (received pkt r)) [
  | inl e ↦ absurd (receive-ends fuel feed last pkt r e h)
  | inr (got, e) ↦ elim (Option-cases got.err) [
    | inr (err, n) ↦
        let (x, y) = failed-last fuel feed last pkt r got err e n h in
        (
          map close_event (feed.range.order feed.vbstreams),
          [],
          x,
          y ∙ sym (append-nil feed.commands),
        )
    | inl n ↦ elim (Option-cases (handle_packet (count_bytes feed got.n) got.req)) [
      | inl k ↦ absurd (packet-ends fuel feed last pkt r got e n k h)
      | inr (step, k) ↦
          step-Extends fuel feed last pkt r got step
            (λ f p s o' h'. feed_loop-Extends fuel f last p s o' h') o e n k h
    ]
  ]
]
