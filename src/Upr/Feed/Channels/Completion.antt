-- ===== src/Upr/Feed/Channels/Completion.antt =====
-- A feed whose goroutines are not blocked comes to its end.
use gomemcached.Prelude.{
  ℕ, zero, suc, ◌≡◌, refl, sym, ap, ◌∙◌, subst, false, none, some, Bytes, List, [], ◌∷◌, ◌++◌, map,
  length, arith, Option-cases, inl, inr, append-nil, append_assoc,
}
use gomemcached.Io.{Reader, Writer}
use gomemcached.Wire.Request
use gomemcached.Wire.Request.{McRequest, empty_request}
use gomemcached.Wire.Request.Encoding.{wire}
use gomemcached.Wire.Request.Delivery.{request_transmit_unlimited}
use gomemcached.Server.Refinement.{stream}
use gomemcached.Client.{Client, Conn, Reply, transmit_request_to}
use gomemcached.Client.Commands.{transmit, doubt, hijack}
use gomemcached.Upr.{UprEvent}
use gomemcached.Upr.Feed.{
  UprFeed, Step, break_loop, next, ended, handle_packet, count_bytes, close_event, feed_loop,
  run_feed,
}
use gomemcached.Upr.Feed.Channels.{
  Action, command, event, actions, received, turned, Loop, running, closing, stopping, returned,
  ready, System, take_over, turn, unknown_stream, failed, hand, send, send_end, all_ended,
  transmitted, stop, take, Reach, here, later, start,
}
use gomemcached.Upr.Feed.Channels.Sends.{
  noop_answer, ack_of, handle_packet-sends, turned-sends, loop-turn, packet-ends, receive-ends,
}
use gomemcached.Upr.Feed.Channels.Order.{Reach-run_feed}

Reach-trans : (s t u : System) → Reach s t → Reach t u → Reach s u
Reach-trans s t u x here = x
Reach-trans s t v x (later {t = u} y m) = later (Reach-trans s t u x y) m

stream-snoc :
    (reqs : List McRequest) (req : McRequest)
    → stream (reqs ++ (req ∷ [])) ≡ stream reqs ++ wire req
stream-snoc [] req = append-nil (wire req)
stream-snoc (r ∷ reqs) req =
    ap (λ l. wire r ++ l) (stream-snoc reqs req)
    ∙ sym (append_assoc (wire r) (stream reqs) (wire req))

module _ (c : Client) (conn : Conn) (w : Writer) (free : w.room ≡ none) where
  -- The client when `sent` was written to its connection.
  abbrev client_with : Bytes → Client
  client_with sent = record c { conn = some (record conn { writer = record w { sent = sent } }) }

  -- A system in which nothing is under way but the loop.
  abbrev calm : Loop → Bytes → List UprEvent → List McRequest → System
  calm loop sent taken handed = record {
    loop = loop;
    sender = ready;
    client = client_with sent;
    buffer = [];
    taken = taken;
    handed = handed;
    closed = false;
  }

  abbrev after_command : McRequest → Bytes → Reply
  after_command req sent = record {
    res = none;
    err = none;
    client = client_with (sent ++ wire req);
  }

  transmit_unlimited :
      (req : McRequest) (sent : Bytes)
      → transmit (client_with sent) req ≡ some (after_command req sent)
  unfolding transmit transmit_request_to doubt
  transmit_unlimited req sent =
      let (n, t) = request_transmit_unlimited req (record w { sent = sent }) free in rw t refl

  -- An end at which everything was taken and every command transmitted.
  record IsEnd (t : System) : Type 0 where
    over : t.loop ≡ returned
    open_ : t.closed ≡ false
    drained : t.buffer ≡ []
    written : t.client ≡ client_with (w.sent ++ stream t.handed)

  abbrev Ends : System → Type 0
  Ends s = (t : System) × Reach s t × IsEnd t

  prepend : (s t : System) → Reach s t → Ends t → Ends s
  prepend s t x (u, y, e) = (u, Reach-trans s t u x y, e)

  abbrev IsWritten : Bytes → List McRequest → Type 0
  IsWritten sent handed = sent ≡ w.sent ++ stream handed

  stop_ends :
      (sent : Bytes) (taken : List UprEvent) (handed : List McRequest)
      → IsWritten sent handed
      → Ends (calm stopping sent taken handed)
  stop_ends sent taken handed e = (
    _,
    later here (stop refl refl),
    record { over = refl; open_ = refl; drained = refl; written = ap client_with e },
  )

  closing_ends :
      (es : List UprEvent) (sent : Bytes) (taken : List UprEvent) (handed : List McRequest)
      → IsWritten sent handed
      → Ends (calm (closing es) sent taken handed)
  closing_ends [] sent taken handed e =
      prepend _ (calm stopping sent taken handed) (later here (all_ended refl))
        (stop_ends sent taken handed e)
  closing_ends (x ∷ es) sent taken handed e =
      prepend _ (calm (closing es) sent (taken ++ (x ∷ [])) handed)
        (later (later here (send_end x es refl (omega arith))) (take x [] refl))
        (closing_ends es sent (taken ++ (x ∷ [])) handed e)

  -- What is pending is sent, and then the loop receives.
  pending_ends :
      (feed : UprFeed) (pkt : McRequest) (r : Reader)
      → ((sent : Bytes) (taken : List UprEvent) (handed : List McRequest)
          → IsWritten sent handed
          → Ends (calm (running feed pkt r []) sent taken handed))
      → (rest : List Action) (sent : Bytes) (taken : List UprEvent) (handed : List McRequest)
      → IsWritten sent handed
      → Ends (calm (running feed pkt r rest) sent taken handed)
  pending_ends feed pkt r k [] sent taken handed e = k sent taken handed e
  pending_ends feed pkt r k (command req ∷ rest) sent taken handed e =
      prepend _ (calm (running feed pkt r rest) (sent ++ wire req) taken (handed ++ (req ∷ [])))
        (later (later here (hand feed pkt r req rest refl refl))
          (transmitted req (after_command req sent) refl (transmit_unlimited req sent) refl))
        (pending_ends feed pkt r k rest (sent ++ wire req) taken (handed ++ (req ∷ [])) (
          ap (λ l. l ++ wire req) e
          ∙ (append_assoc w.sent (stream handed) (wire req)
              ∙ ap (λ l. w.sent ++ l) (sym (stream-snoc handed req)))))
  pending_ends feed pkt r k (event x ∷ rest) sent taken handed e =
      prepend _ (calm (running feed pkt r rest) sent (taken ++ (x ∷ [])) handed)
        (later (later here (send feed pkt r x rest refl (omega arith))) (take x [] refl))
        (pending_ends feed pkt r k rest sent (taken ++ (x ∷ [])) handed e)

  abbrev LoopEnds : ℕ → Type 0
  LoopEnds fuel =
      (feed last : UprFeed) (pkt : McRequest) (r : Reader) (sent : Bytes) (taken : List UprEvent)
      (handed : List McRequest)
      → feed.takes ≡ none
      → feed_loop fuel feed pkt r ≡ ended last
      → IsWritten sent handed
      → Ends (calm (running feed pkt r []) sent taken handed)

  step_ends :
      (fuel : ℕ) (feed last : UprFeed) (pkt : McRequest) (r : Reader) (sent : Bytes)
      (taken : List UprEvent) (handed : List McRequest) (got : Request.Received) (step : Step)
      → LoopEnds fuel
      → feed.takes ≡ none
      → feed_loop (suc fuel) feed pkt r ≡ ended last
      → IsWritten sent handed
      → received pkt r ≡ some got
      → got.err ≡ none
      → handle_packet (count_bytes feed got.n) got.req ≡ some step
      → Ends (calm (running feed pkt r []) sent taken handed)
  unfolding count_bytes
  step_ends fuel feed last pkt r sent taken handed got (break_loop feed') ih o h e g n k =
      prepend _ (calm stopping sent taken handed)
        (later here (unknown_stream feed feed' pkt r got refl g n k))
        (stop_ends sent taken handed e)
  step_ends fuel feed last pkt r sent taken handed got (next feed' ev ack) ih o h e g n k =
      let (same, still, more) =
        handle_packet-sends (count_bytes feed got.n) feed' got.req ev ack k in
      let (events, takes, commands) = turned-sends feed' ev ack got.n in
      let noops = noop_answer got.req in
      let acks = ack_of feed' ack got.n in
      let feed'' = turned feed' ev ack got.n in
      let go = sym (loop-turn fuel feed feed' pkt r got ev ack o g n k) ∙ h in
      prepend _ (calm (running feed'' got.req got.reader (actions noops ev acks)) sent taken handed)
        (later here (turn feed pkt r got feed' ev ack noops acks refl g n k more commands))
        (pending_ends feed'' got.req got.reader
          (λ s t a e'. ih feed'' last got.req got.reader s t a (takes ∙ (still ∙ o)) go e')
          (actions noops ev acks) sent taken handed e)

  loop_ends : (fuel : ℕ) → LoopEnds fuel
  unfolding feed_loop
  loop_ends zero feed last pkt r sent taken handed o h e = absurd cc
  loop_ends (suc fuel) feed last pkt r sent taken handed o h e =
      elim (Option-cases (received pkt r)) [
        | inl g ↦ absurd (receive-ends fuel feed last pkt r g h)
        | inr (got, g) ↦ elim (Option-cases got.err) [
          | inr (err, n) ↦
              prepend _
                (calm (closing (map close_event (feed.range.order feed.vbstreams))) sent taken
                  handed)
                (later here (failed feed pkt r got err refl g n))
                (closing_ends (map close_event (feed.range.order feed.vbstreams)) sent taken handed
                  e)
          | inl n ↦ elim (Option-cases (handle_packet (count_bytes feed got.n) got.req)) [
            | inl k ↦ absurd (packet-ends fuel feed last pkt r got g n k h)
            | inr (step, k) ↦
                step_ends fuel feed last pkt r sent taken handed got step (loop_ends fuel) o h e g n
                  k
          ]
        ]
      ]

  -- The end has the events and the commands of runFeed, for the client `before` Hijack.
  ends_with :
      (before : Client) (feed last : UprFeed) (r : Reader)
      → (hijack before).1 ≡ client_with w.sent
      → feed.takes ≡ none
      → feed.events ≡ []
      → feed.commands ≡ []
      → run_feed feed r ≡ ended last
      → (s : System) × Reach (start feed r before) s
        × (s.loop ≡ returned)
        × (s.taken ≡ last.events)
        × (s.client ≡ client_with (w.sent ++ stream last.commands))
  unfolding run_feed
  ends_with before feed last r hijacked o x y run =
      let (s, behind_start, e) =
        loop_ends (suc (length r.input)) feed last empty_request r w.sent [] [] o run
          (sym (append-nil w.sent)) in
      let first : Reach (start feed r before)
          (calm (running feed empty_request r []) w.sent [] []) =
        subst
          (λ c.
            Reach (start feed r before)
              (record (calm (running feed empty_request r []) w.sent [] []) { client = c }))
          hijacked (later here (take_over feed r refl)) in
      let reach = Reach-trans (start feed r before) _ s first behind_start in
      let (fine, (es, cs, events, commands, all)) =
        Reach-run_feed feed last r before s o x y run reach in
      let (no_es, no_cs) = all e.over e.open_ in
      let handed : last.commands ≡ s.handed =
        commands ∙ (ap (λ l. s.handed ++ l) no_cs ∙ append-nil s.handed) in
      let taken : last.events ≡ s.taken =
        events ∙ rw (no_es, e.drained) (append-nil (s.taken ++ []) ∙ append-nil s.taken) in
      (
        s,
        reach,
        e.over,
        sym taken,
        e.written ∙ ap (λ l. client_with (w.sent ++ stream l)) (sym handed),
      )

pub run_feed_completes :
    (feed last : UprFeed) (r : Reader) (client : Client) (conn : Conn)
    → feed.takes ≡ none
    → feed.events ≡ []
    → feed.commands ≡ []
    → client.conn ≡ some conn
    → conn.writer.room ≡ none
    → run_feed feed r ≡ ended last
    → (s : System) × Reach (start feed r client) s
      × (s.loop ≡ returned)
      × (s.taken ≡ last.events)
      × (s.client ≡ record client {
        healthy = false;
        conn = some (record conn {
          writer = record conn.writer { sent = conn.writer.sent ++ stream last.commands };
        });
      })
run_feed_completes feed last r client conn o x y e free run =
    ends_with (record client { healthy = false }) conn conn.writer free client feed last r
      (ap (λ m. record client { healthy = false; conn = m }) e) o x y run
