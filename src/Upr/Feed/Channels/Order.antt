-- ===== src/Upr/Feed/Channels/Order.antt =====
-- However the goroutines of a feed interleave, what passes their channels is what runFeed sends, in
-- its order.
use gomemcached.Prelude.{
  ℕ, zero, suc, ◌≡◌, ◌≢◌, refl, sym, ap, ◌∙◌, subst, Bool, true, false, Option, none, some, List,
  [], ◌∷◌, ◌++◌, map, length, append-nil, append_assoc,
}
use gomemcached.Io.{Reader}
use gomemcached.Wire.Request
use gomemcached.Wire.Request.{McRequest, empty_request}
use gomemcached.Client.{Client}
use gomemcached.Upr.{UprEvent}
use gomemcached.Upr.Feed.{
  UprFeed, next, ended, handle_packet, count_bytes, close_event, feed_loop, run_feed,
}
use gomemcached.Upr.Feed.Channels.{
  starting, take_over, Action, command, event, actions, received, turned, Loop, running, closing,
  stopping, returned, crashed, System, Move, turn, unknown_stream, failed, receive_panics,
  packet_panics, hand, send, leave, send_end, all_ended, transmitted, not_transmitted, stop, take,
  close, Reach, here, later, start,
}
use gomemcached.Upr.Feed.Channels.Actions.{
  events_of, commands_of, events_of-actions, commands_of-actions,
}
use gomemcached.Upr.Feed.Channels.Sends.{
  loop-turn, failed-last, break-last, packet-ends, receive-ends, feed_loop-Extends,
  handle_packet-sends, turned-sends,
}

-- What passed the channels is what runFeed sent in front of `es` and `cs`, which are missing only
-- when the application closed the feed.
abbrev Passed : UprFeed → List UprEvent → List McRequest → Bool → Type 0
Passed last shown handed closed =
    (es : List UprEvent) × (cs : List McRequest) × (last.events ≡ shown ++ es)
    × (last.commands ≡ handed ++ cs)
    × (closed ≡ false → (es ≡ []) × (cs ≡ []))

-- What is known of a loop that ends with `last`, when `shown` went to the channel C.
abbrev FollowsLoop : UprFeed → List UprEvent → List McRequest → Bool → Loop → Type 0
FollowsLoop last shown handed closed (starting feed r) =
    (feed.takes ≡ none)
    × (feed.events ≡ shown ++ [])
    × (feed.commands ≡ handed ++ [])
    × ((fuel : ℕ) × (feed_loop fuel feed empty_request r ≡ ended last))
FollowsLoop last shown handed closed (running feed pkt r rest) =
    (feed.takes ≡ none)
    × (feed.events ≡ shown ++ events_of rest)
    × (feed.commands ≡ handed ++ commands_of rest)
    × ((fuel : ℕ) × (feed_loop fuel feed pkt r ≡ ended last))
FollowsLoop last shown handed closed (closing es) =
    (last.events ≡ shown ++ es) × (last.commands ≡ handed)
FollowsLoop last shown handed closed stopping = Passed last shown handed closed
FollowsLoop last shown handed closed returned = Passed last shown handed closed
FollowsLoop last shown handed closed crashed = true ≡ false

abbrev Follows : UprFeed → System → Type 0
Follows last s = FollowsLoop last (s.taken ++ s.buffer) s.handed s.closed s.loop

append-one :
    {A : Type 0} (xs ys : List A) (x : A) (rest : List A)
    → (xs ++ (ys ++ (x ∷ []))) ++ rest ≡ (xs ++ ys) ++ (x ∷ rest)
append-one xs ys x rest =
    rw
      (
        append_assoc xs (ys ++ (x ∷ [])) rest,
        append_assoc ys (x ∷ []) rest,
        append_assoc xs ys (x ∷ rest),
      )
      refl

has_fuel :
    (fuel : ℕ) (feed last : UprFeed) (pkt : McRequest) (r : Reader)
    → feed_loop fuel feed pkt r ≡ ended last
    → (f : ℕ) × (feed_loop (suc f) feed pkt r ≡ ended last)
unfolding feed_loop
has_fuel zero feed last pkt r h = absurd cc
has_fuel (suc f) feed last pkt r h = (f, h)

-- The loop is at a receive: it has sent everything.
turn-Follows :
    (last feed feed' : UprFeed) (shown : List UprEvent) (handed : List McRequest) (closed : Bool)
    (pkt : McRequest) (r : Reader) (got : Request.Received) (ev : Option UprEvent) (ack : Bool)
    (noops acks : List McRequest)
    → FollowsLoop last shown handed closed (running feed pkt r [])
    → received pkt r ≡ some got
    → got.err ≡ none
    → handle_packet (count_bytes feed got.n) got.req ≡ some (next feed' ev ack)
    → feed'.commands ≡ feed.commands ++ noops
    → (turned feed' ev ack got.n).commands ≡ feed'.commands ++ acks
    → FollowsLoop last shown handed closed
        (running (turned feed' ev ack got.n) got.req got.reader (actions noops ev acks))
unfolding count_bytes
turn-Follows last feed feed' shown handed closed pkt r got ev ack noops acks (o, es, cs, (fuel, h))
      e n k x y =
    let (same, still, more) = handle_packet-sends (count_bytes feed got.n) feed' got.req ev ack k in
    let (events, takes, commands) = turned-sends feed' ev ack got.n in
    let (f, h') = has_fuel fuel feed last pkt r h in
    (
      takes ∙ (still ∙ o),
      events ∙ rw (same, es, append-nil shown, events_of-actions noops acks ev) refl,
      y
          ∙ rw
              (
                x,
                cs,
                append-nil handed,
                commands_of-actions noops acks ev,
                append_assoc handed noops acks,
              )
              refl,
      (f, sym (loop-turn f feed feed' pkt r got ev ack o e n k) ∙ h'),
    )

-- Everything was sent.
all-Passed :
    (last : UprFeed) (shown : List UprEvent) (handed : List McRequest) (closed : Bool)
    → last.events ≡ shown ++ []
    → last.commands ≡ handed
    → Passed last shown handed closed
all-Passed last shown handed closed x y =
    ([], [], x, y ∙ sym (append-nil handed), λ h. (refl, refl))

-- What a loop that goes on has yet to send.
rest-Sent :
    (last feed : UprFeed) (shown : List UprEvent) (handed : List McRequest) (closed : Bool)
    (pkt : McRequest) (r : Reader) (rest : List Action)
    → FollowsLoop last shown handed closed (running feed pkt r rest)
    → (es : List UprEvent) × (cs : List McRequest) × (last.events ≡ shown ++ es)
      × (last.commands ≡ handed ++ cs)
rest-Sent last feed shown handed closed pkt r rest (o, es, cs, (fuel, h)) =
    let (more, later', x, y) = feed_loop-Extends fuel feed last pkt r o h in
    (
      events_of rest ++ more,
      commands_of rest ++ later',
      x ∙ (ap (λ l. l ++ more) es ∙ append_assoc shown (events_of rest) more),
      y ∙ (ap (λ l. l ++ later') cs ∙ append_assoc handed (commands_of rest) later'),
    )

-- The application closed the feed.
leave-Passed :
    (last feed : UprFeed) (shown : List UprEvent) (handed : List McRequest) (closed : Bool)
    (pkt : McRequest) (r : Reader) (rest : List Action)
    → FollowsLoop last shown handed closed (running feed pkt r rest)
    → closed ≡ true
    → Passed last shown handed closed
leave-Passed last feed shown handed closed pkt r rest x c =
    let (es, cs, a, b) = rest-Sent last feed shown handed closed pkt r rest x in
    (es, cs, a, b, λ open_. absurd (cc (c, open_)))

Passed-close :
    (last : UprFeed) (shown : List UprEvent) (handed : List McRequest) (closed : Bool)
    → Passed last shown handed closed
    → Passed last shown handed true
Passed-close last shown handed closed (es, cs, x, y, z) = (es, cs, x, y, λ h. absurd cc)

close-Follows :
    (last : UprFeed) (shown : List UprEvent) (handed : List McRequest) (closed : Bool) (loop : Loop)
    → FollowsLoop last shown handed closed loop
    → FollowsLoop last shown handed true loop
close-Follows last shown handed closed (starting feed r) x = x
close-Follows last shown handed closed (running feed pkt r rest) x = x
close-Follows last shown handed closed (closing es) x = x
close-Follows last shown handed closed stopping x = Passed-close last shown handed closed x
close-Follows last shown handed closed returned x = Passed-close last shown handed closed x
close-Follows last shown handed closed crashed x = x

abbrev shown_of : System → List UprEvent
shown_of s = s.taken ++ s.buffer

-- The invariant, with the loop that the system has.
at_loop :
    (last : UprFeed) (s : System) (loop : Loop)
    → Follows last s
    → s.loop ≡ loop
    → FollowsLoop last (shown_of s) s.handed s.closed loop
at_loop last s loop x e = subst (FollowsLoop last (shown_of s) s.handed s.closed) e x

Move-Follows : (last : UprFeed) (s t : System) → Follows last s → Move s t → Follows last t
Move-Follows last s t x (take_over feed r e) = at_loop last s (starting feed r) x e
Move-Follows last s t x (turn feed pkt r got feed' ev ack noops acks e g n k p q) =
    turn-Follows last feed feed' (shown_of s) s.handed s.closed pkt r got ev ack noops acks
      (at_loop last s (running feed pkt r []) x e) g n k p q
Move-Follows last s t x (unknown_stream feed feed' pkt r got e g n k) =
    let (o, es, cs, (fuel, h)) = at_loop last s (running feed pkt r []) x e in
    let (f, h') = has_fuel fuel feed last pkt r h in
    let (a, b) = break-last f feed feed' last pkt r got g n k h' in
    all-Passed last (shown_of s) s.handed s.closed (a ∙ es) (b ∙ (cs ∙ append-nil s.handed))
Move-Follows last s t x (failed feed pkt r got err e g n) =
    let (o, es, cs, (fuel, h)) = at_loop last s (running feed pkt r []) x e in
    let (f, h') = has_fuel fuel feed last pkt r h in
    let (a, b) = failed-last f feed last pkt r got err g n h' in
    (
      a
          ∙ ap (λ l. l ++ map close_event (feed.range.order feed.vbstreams))
              (es ∙ append-nil (shown_of s)),
      b ∙ (cs ∙ append-nil s.handed),
    )
Move-Follows last s t x (receive_panics feed pkt r e g) =
    let (o, es, cs, (fuel, h)) = at_loop last s (running feed pkt r []) x e in
    let (f, h') = has_fuel fuel feed last pkt r h in absurd (receive-ends f feed last pkt r g h')
Move-Follows last s t x (packet_panics feed pkt r got e g n k) =
    let (o, es, cs, (fuel, h)) = at_loop last s (running feed pkt r []) x e in
    let (f, h') = has_fuel fuel feed last pkt r h in
    absurd (packet-ends f feed last pkt r got g n k h')
Move-Follows last s t x (hand feed pkt r req rest e ready_eq) =
    let (o, es, cs, h) = at_loop last s (running feed pkt r (command req ∷ rest)) x e in
    (o, es, cs ∙ sym (append_assoc s.handed (req ∷ []) (commands_of rest)), h)
Move-Follows last s t x (send feed pkt r ev rest e room) =
    let (o, es, cs, h) = at_loop last s (running feed pkt r (event ev ∷ rest)) x e in
    (o, es ∙ sym (append-one s.taken s.buffer ev (events_of rest)), cs, h)
Move-Follows last s t x (leave feed pkt r ev rest e c) =
    leave-Passed last feed (shown_of s) s.handed s.closed pkt r (event ev ∷ rest)
      (at_loop last s (running feed pkt r (event ev ∷ rest)) x e) c
Move-Follows last s t x (send_end ev rest e room) =
    let (a, b) = at_loop last s (closing (ev ∷ rest)) x e in
    (a ∙ sym (append-one s.taken s.buffer ev rest), b)
Move-Follows last s t x (all_ended e) =
    let (a, b) = at_loop last s (closing []) x e in
    all-Passed last (shown_of s) s.handed s.closed a b
Move-Follows last s t x (transmitted req sent e h n) = x
Move-Follows last s t x (not_transmitted req sent e h n) = x
Move-Follows last s t x (stop e ready_eq) = at_loop last s stopping x e
Move-Follows last s t x (take ev rest e) =
    let same : (s.taken ++ (ev ∷ [])) ++ rest ≡ s.taken ++ s.buffer =
      append_assoc s.taken (ev ∷ []) rest ∙ ap (λ l. s.taken ++ l) (sym e) in
    subst (λ l. FollowsLoop last l s.handed s.closed s.loop) (sym same) x
Move-Follows last s t x (close e) = close-Follows last (shown_of s) s.handed s.closed s.loop x

Reach-Follows : (last : UprFeed) (s u : System) → Follows last s → Reach s u → Follows last u
Reach-Follows last s u x here = x
Reach-Follows last s u x (later {t} r m) = Move-Follows last t u (Reach-Follows last s t x r) m

-- What is known of a system, wherever its loop stands.
seen :
    (last : UprFeed) (shown : List UprEvent) (handed : List McRequest) (closed : Bool) (loop : Loop)
    → FollowsLoop last shown handed closed loop
    → (loop ≢ crashed)
      × ((es : List UprEvent) × (cs : List McRequest) × (last.events ≡ shown ++ es)
          × (last.commands ≡ handed ++ cs)
          × (loop ≡ returned → closed ≡ false → (es ≡ []) × (cs ≡ [])))
seen last shown handed closed (starting feed r) x =
    let (es, cs, a, b) = rest-Sent last feed shown handed closed empty_request r [] x in
    (λ e. cc, (es, cs, a, b, λ e. absurd cc))
seen last shown handed closed (running feed pkt r rest) x =
    let (es, cs, a, b) = rest-Sent last feed shown handed closed pkt r rest x in
    (λ e. cc, (es, cs, a, b, λ e. absurd cc))
seen last shown handed closed (closing rest) (a, b) =
    (λ e. cc, (rest, [], a, b ∙ sym (append-nil handed), λ e. absurd cc))
seen last shown handed closed stopping (es, cs, x, y, z) = (λ e. cc, (es, cs, x, y, λ e c. z c))
seen last shown handed closed returned (es, cs, x, y, z) = (λ e. cc, (es, cs, x, y, λ e c. z c))
seen last shown handed closed crashed x = absurd cc

-- The goroutines of a feed that starts, on a connection on which runFeed ends when every event is
-- taken: whatever steps they have made, they have not crashed, the events that went to C are a first
-- part of those that runFeed sends, in its order, and the commands that sendCommands received are a
-- first part of its commands; and when runFeed has returned although the application did not close
-- the feed, they are all of them.
pub Reach-run_feed :
    (feed last : UprFeed) (r : Reader) (client : Client) (s : System)
    → feed.takes ≡ none
    → feed.events ≡ []
    → feed.commands ≡ []
    → run_feed feed r ≡ ended last
    → Reach (start feed r client) s
    → (s.loop ≢ crashed)
      × ((es : List UprEvent) × (cs : List McRequest) × (last.events ≡ (s.taken ++ s.buffer) ++ es)
          × (last.commands ≡ s.handed ++ cs)
          × (s.loop ≡ returned → s.closed ≡ false → (es ≡ []) × (cs ≡ [])))
unfolding run_feed
Reach-run_feed feed last r client s o es cs run reach =
    seen last (shown_of s) s.handed s.closed s.loop
      (Reach-Follows last (start feed r client) s (o, es, cs, (suc (length r.input), run)) reach)
