-- ===== src/Upr/Feed/Channels/Closing.antt =====
-- doStreamClose of client/upr_feed.go sends on C without a look at the feed's closer.
use gomemcached.Prelude.{
  ℕ, suc, ◌+◌, ◌<◌, ◌≤◌, ◌≡◌, ◌≢◌, refl, sym, ap, subst, true, false, List, [], ◌∷◌, ◌++◌, length,
  arith, length-append,
}
use gomemcached.Upr.{UprEvent}
use gomemcached.Upr.Feed.Channels.{
  Loop, starting, running, closing, stopping, returned, crashed, System, buffer_size, Move,
  take_over, turn, unknown_stream, failed, receive_panics, packet_panics, hand, send, leave,
  send_end, all_ended, transmitted, not_transmitted, stop, take, close, Reach, here, later,
}

-- What a loop in doStreamClose, or behind it, has sent and is to send, when `sent` went to C.
abbrev HasTotal : ℕ → ℕ → Loop → Type 0
HasTotal total sent (starting feed r) = true ≡ false
HasTotal total sent (running feed pkt r rest) = true ≡ false
HasTotal total sent (closing es) = sent + length es ≡ total
HasTotal total sent stopping = sent ≡ total
HasTotal total sent returned = sent ≡ total
HasTotal total sent crashed = true ≡ false

record IsClosing (total : ℕ) (s : System) : Type 0 where
  sum : HasTotal total (length s.taken + length s.buffer) s.loop
  fits : length s.buffer ≤ buffer_size

at_loop :
    (total : ℕ) (s : System) (loop : Loop)
    → IsClosing total s
    → s.loop ≡ loop
    → HasTotal total (length s.taken + length s.buffer) loop
at_loop total s loop x e = subst (HasTotal total (length s.taken + length s.buffer)) e x.sum

Move-IsClosing : (total : ℕ) (s t : System) → IsClosing total s → Move s t → IsClosing total t
Move-IsClosing n s t x (take_over feed r e) = absurd (cc (at_loop n s (starting feed r) x e))
Move-IsClosing n s t x (turn feed pkt r got feed' ev ack noops acks e g m k p q) =
    absurd (cc (at_loop n s (running feed pkt r []) x e))
Move-IsClosing n s t x (unknown_stream feed feed' pkt r got e g m k) =
    absurd (cc (at_loop n s (running feed pkt r []) x e))
Move-IsClosing n s t x (failed feed pkt r got err e g m) =
    absurd (cc (at_loop n s (running feed pkt r []) x e))
Move-IsClosing n s t x (receive_panics feed pkt r e g) =
    absurd (cc (at_loop n s (running feed pkt r []) x e))
Move-IsClosing n s t x (packet_panics feed pkt r got e g m k) =
    absurd (cc (at_loop n s (running feed pkt r []) x e))
Move-IsClosing n s t x (hand feed pkt r req rest e y) =
    absurd (cc (at_loop n s (running feed pkt r _) x e))
Move-IsClosing n s t x (send feed pkt r ev rest e room) =
    absurd (cc (at_loop n s (running feed pkt r _) x e))
Move-IsClosing n s t x (leave feed pkt r ev rest e c) =
    absurd (cc (at_loop n s (running feed pkt r _) x e))
Move-IsClosing n s t x (send_end ev rest e room) =
    let before = at_loop n s (closing (ev ∷ rest)) x e in
    record {
      sum = omega (arith, before, length-append s.buffer (ev ∷ []));
      fits = omega (arith, length-append s.buffer (ev ∷ []));
    }
Move-IsClosing n s t x (all_ended e) =
    let before = at_loop n s (closing []) x e in
    record { sum = omega (arith, before); fits = x.fits }
Move-IsClosing n s t x (transmitted req sent e h m) = record { sum = x.sum; fits = x.fits }
Move-IsClosing n s t x (not_transmitted req sent e h m) = record { sum = x.sum; fits = x.fits }
Move-IsClosing n s t x (stop e y) = record { sum = at_loop n s stopping x e; fits = x.fits }
Move-IsClosing n s t x (take ev rest e) =
    let size : length s.buffer ≡ suc (length rest) = ap length e in
    let same : length s.taken + length s.buffer ≡ length (s.taken ++ (ev ∷ [])) + length rest =
      omega (arith, size, length-append s.taken (ev ∷ [])) in
    record { sum = subst (λ k. HasTotal n k s.loop) same x.sum; fits = omega (arith, size, x.fits) }
Move-IsClosing n s t x (close e) = record { sum = x.sum; fits = x.fits }

Reach-IsClosing : (total : ℕ) (s u : System) → IsClosing total s → Reach s u → IsClosing total u
Reach-IsClosing n s u x here = x
Reach-IsClosing n s u x (later {t} r m) = Move-IsClosing n t u (Reach-IsClosing n s t x r) m

-- When doStreamClose has more events to send than the channel C has room for, and the application
-- takes none of them, whether or not it has called Close or calls it then: whatever steps are made,
-- runFeed never returns.
pub closing_blocks :
    (s t : System) (es : List UprEvent)
    → s.loop ≡ closing es
    → length s.buffer ≤ buffer_size
    → buffer_size < length s.buffer + length es
    → Reach s t
    → t.taken ≡ s.taken
    → t.loop ≢ returned
closing_blocks s t es e fits many reach same over =
    let n = length s.taken + length s.buffer + length es in
    let first : IsClosing n s = record {
      sum = subst (HasTotal n (length s.taken + length s.buffer)) (sym e) refl;
      fits = fits;
    } in
    let last = Reach-IsClosing n s t first reach in
    let all = at_loop n t returned last over in
    let taken : length t.taken ≡ length s.taken = ap length same in
    omega (arith, all, taken, last.fits)
