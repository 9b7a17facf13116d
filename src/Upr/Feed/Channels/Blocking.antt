-- ===== src/Upr/Feed/Channels/Blocking.antt =====
-- When the goroutines of a feed block.
use gomemcached.Prelude.{
  ◌<◌, ◌≡◌, ◌≢◌, refl, Option, none, some, List, [], ◌∷◌, length, arith, Option-cases, inl, inr,
}
use gomemcached.Io.{Reader}
use gomemcached.Wire.Request
use gomemcached.Wire.Request.Transmission.{transmit-Sent}
use gomemcached.Wire.Request.{McRequest}
use gomemcached.Client.{Client, Conn, Reply, transmit_request_to}
use gomemcached.Client.Commands.{transmit, doubt}
use gomemcached.Upr.{UprEvent}
use gomemcached.Upr.Feed.{UprFeed, Step, break_loop, next, handle_packet, count_bytes}
use gomemcached.Upr.Feed.Channels.{
  command, event, buffer_size, received, Loop, starting, running, closing, stopping, returned,
  crashed, Sender, ready, transmitting, stopped, System, Move, take_over, turn, unknown_stream,
  failed, receive_panics, packet_panics, hand, send, leave, send_end, all_ended, transmitted,
  not_transmitted, stop, take, close, Reach, here, later,
}
use gomemcached.Upr.Feed.Channels.Sends.{noop_answer, ack_of, handle_packet-sends, turned-sends}

-- sendCommands has ended, and runFeed has not returned.
abbrev pub IsAbandoned : List McRequest → System → Type 0
IsAbandoned handed s = (s.sender ≡ stopped) × (s.loop ≢ returned) × (s.handed ≡ handed)

Move-IsAbandoned :
    (handed : List McRequest) (s t : System)
    → IsAbandoned handed s
    → Move s t
    → IsAbandoned handed t
Move-IsAbandoned handed s t (a, b, c) (take_over feed r e) = (a, λ x. cc, c)
Move-IsAbandoned handed s t (a, b, c) (turn feed pkt r got feed' ev ack noops acks e g n k p q) =
    (a, λ x. cc, c)
Move-IsAbandoned handed s t (a, b, c) (unknown_stream feed feed' pkt r got e g n k) =
    (a, λ x. cc, c)
Move-IsAbandoned handed s t (a, b, c) (failed feed pkt r got err e g n) = (a, λ x. cc, c)
Move-IsAbandoned handed s t (a, b, c) (receive_panics feed pkt r e g) = (a, λ x. cc, c)
Move-IsAbandoned handed s t (a, b, c) (packet_panics feed pkt r got e g n k) = (a, λ x. cc, c)
Move-IsAbandoned handed s t (a, b, c) (hand feed pkt r req rest e ready_eq) =
    absurd (cc (a, ready_eq))
Move-IsAbandoned handed s t (a, b, c) (send feed pkt r ev rest e room) = (a, λ x. cc, c)
Move-IsAbandoned handed s t (a, b, c) (leave feed pkt r ev rest e closed) = (a, λ x. cc, c)
Move-IsAbandoned handed s t (a, b, c) (send_end ev rest e room) = (a, λ x. cc, c)
Move-IsAbandoned handed s t (a, b, c) (all_ended e) = (a, λ x. cc, c)
Move-IsAbandoned handed s t (a, b, c) (transmitted req sent e h n) = absurd (cc (a, e))
Move-IsAbandoned handed s t (a, b, c) (not_transmitted req sent e h n) = absurd (cc (a, e))
Move-IsAbandoned handed s t (a, b, c) (stop e ready_eq) = absurd (cc (a, ready_eq))
Move-IsAbandoned handed s t (a, b, c) (take ev rest e) = (a, b, c)
Move-IsAbandoned handed s t (a, b, c) (close e) = (a, b, c)

-- Once sendCommands has ended and runFeed has not returned: whatever steps follow, runFeed never
-- returns, which is when it would close C, and no other command is received from transmitCh.
pub stopped_sender_blocks :
    (s t : System)
    → s.sender ≡ stopped
    → s.loop ≢ returned
    → Reach s t
    → (t.sender ≡ stopped) × (t.loop ≢ returned) × (t.handed ≡ s.handed)
stopped_sender_blocks s t a b here = (a, b, refl)
stopped_sender_blocks s u a b (later {t} r m) =
    Move-IsAbandoned s.handed t u (stopped_sender_blocks s t a b r) m

sent_or_failed :
    (c : Client) (conn : Option Conn) (req : McRequest) → transmit_request_to c conn req ≢ none
unfolding transmit_request_to
sent_or_failed c none req = λ e. cc
sent_or_failed c (some conn) req = let (t, x, y) = transmit-Sent req conn.writer in rw x (λ e. cc)

transmit_returns : (c : Client) (req : McRequest) → (sent : Reply) × (transmit c req ≡ some sent)
unfolding transmit
transmit_returns c req = elim (Option-cases (transmit_request_to c c.conn req)) [
  | inl e ↦ absurd (sent_or_failed c c.conn req e)
  | inr (sent, e) ↦ (doubt sent sent.err, rw e refl)
]

-- A step that is not the application's Close.
abbrev pub CanMove : System → Type 0
CanMove s = (t : System) × Move s t × (t.closed ≡ s.closed)

sender_moves : (s : System) (req : McRequest) → s.sender ≡ transmitting req → CanMove s
sender_moves s req e =
    let (sent, t) = transmit_returns s.client req in
    elim (Option-cases sent.err) [
      | inl n ↦ (_, transmitted req sent e t n, refl)
      | inr (err, n) ↦ (_, not_transmitted req sent e t (λ z. cc (n, z)), refl)
    ]

step_moves :
    (s : System) (feed : UprFeed) (pkt : McRequest) (r : Reader) (got : Request.Received)
    (step : Step)
    → s.loop ≡ running feed pkt r []
    → received pkt r ≡ some got
    → got.err ≡ none
    → handle_packet (count_bytes feed got.n) got.req ≡ some step
    → CanMove s
unfolding count_bytes
step_moves s feed pkt r got (break_loop feed') e g n k =
    (_, unknown_stream feed feed' pkt r got e g n k, refl)
step_moves s feed pkt r got (next feed' ev ack) e g n k =
    let (same, still, more) = handle_packet-sends (count_bytes feed got.n) feed' got.req ev ack k in
    let (events, takes, commands) = turned-sends feed' ev ack got.n in
    (
      _,
      turn feed pkt r got feed' ev ack (noop_answer got.req) (ack_of feed' ack got.n) e g n k more
          commands,
      refl,
    )

receiver_moves :
    (s : System) (feed : UprFeed) (pkt : McRequest) (r : Reader)
    → s.loop ≡ running feed pkt r []
    → CanMove s
receiver_moves s feed pkt r e = elim (Option-cases (received pkt r)) [
  | inl g ↦ (_, receive_panics feed pkt r e g, refl)
  | inr (got, g) ↦ elim (Option-cases got.err) [
    | inr (err, n) ↦ (_, failed feed pkt r got err e g n, refl)
    | inl n ↦ elim (Option-cases (handle_packet (count_bytes feed got.n) got.req)) [
      | inl k ↦ (_, packet_panics feed pkt r got e g n k, refl)
      | inr (step, k) ↦ step_moves s feed pkt r got step e g n k
    ]
  ]
]

-- A buffer that is full is one that the application can take from.
buffer_moves :
    (s : System) (buffer : List UprEvent)
    → s.buffer ≡ buffer
    → (length s.buffer < buffer_size → CanMove s)
    → CanMove s
buffer_moves s [] e k = k (rw e (omega arith))
buffer_moves s (ev ∷ rest) e k = (_, take ev rest e, refl)

ready_moves :
    (s : System) (loop : Loop)
    → s.loop ≡ loop
    → s.sender ≡ ready
    → s.loop ≢ returned
    → s.loop ≢ crashed
    → CanMove s
ready_moves s (starting feed r) e a b c = (_, take_over feed r e, refl)
ready_moves s (running feed pkt r []) e a b c = receiver_moves s feed pkt r e
ready_moves s (running feed pkt r (command req ∷ rest)) e a b c =
    (_, hand feed pkt r req rest e a, refl)
ready_moves s (running feed pkt r (event ev ∷ rest)) e a b c =
    buffer_moves s s.buffer refl (λ room. (_, send feed pkt r ev rest e room, refl))
ready_moves s (closing []) e a b c = (_, all_ended e, refl)
ready_moves s (closing (ev ∷ rest)) e a b c =
    buffer_moves s s.buffer refl (λ room. (_, send_end ev rest e room, refl))
ready_moves s stopping e a b c = (_, stop e a, refl)
ready_moves s returned e a b c = absurd (b e)
ready_moves s crashed e a b c = absurd (c e)

sender_cases :
    (s : System) (sender : Sender)
    → s.sender ≡ sender
    → s.sender ≢ stopped
    → s.loop ≢ returned
    → s.loop ≢ crashed
    → CanMove s
sender_cases s ready e a b c = ready_moves s s.loop refl e b c
sender_cases s (transmitting req) e a b c = sender_moves s req e
sender_cases s stopped e a b c = absurd (a e)

-- While sendCommands has not ended, and runFeed neither returned nor crashed, the goroutines and an
-- application that takes events do not block each other: some step is possible that is not a call
-- of Close.
pub Move-progress :
    (s : System)
    → s.sender ≢ stopped
    → s.loop ≢ returned
    → s.loop ≢ crashed
    → (t : System) × Move s t × (t.closed ≡ s.closed)
Move-progress s a b c = sender_cases s s.sender refl a b c
