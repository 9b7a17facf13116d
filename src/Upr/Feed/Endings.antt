-- ===== src/Upr/Feed/Endings.antt =====
-- Every stream of a feed that ends by an error of the connection has an event that says so.
use mathlib.Core.List.{Permᴰ}
use gomemcached.Prelude.{
  ℕ, zero, suc, ◌≡◌, ◌≢◌, refl, sym, subst, ◌∙◌, ap, append-nil, Bool, true, Option, none, some,
  List, [], ◌∷◌, ◌++◌, map, length, ◌==◌, ==_iff, arith, Option-cases, Bool-cases, inl, inr, ◌⊎◌,
  ◌%◌, ◌^◌,
}
use gomemcached.Io.{Reader}
use gomemcached.GoMap.{GoMap, lookup, nat_eq, lookup-insert, lookup-delete}
use gomemcached.Wire.Buffer.{make_bytes}
use gomemcached.Wire.Layout.{hdr_len, WireError}
use gomemcached.Wire.Request
use gomemcached.Wire.Request.{McRequest, receive, empty_request}
use gomemcached.Upr.{UprEvent, UprStream, vb_opaque}
use gomemcached.Upr.Feed.{
  UprFeed, Step, break_loop, next, Outcome, ended, deliver, handle_packet, count_bytes, after_event,
  after_packet, after_error, after_receive, feed_loop, run_feed, do_stream_close, close_event,
  transmit_ack, send_buffer_ack,
}
use gomemcached.Upr.Feed.Streams.{
  ends, has_end, has_end-append, IsKeyed, Change, Same, other_changes, packet_changes, break_same,
}

Change-IsKeyed :
    (vb : ℕ) (feed feed' : UprFeed) (ev : Option UprEvent)
    → Change vb feed feed' ev
    → IsKeyed feed.vbstreams
    → IsKeyed feed'.vbstreams
unfolding IsKeyed
Change-IsKeyed vb feed feed' ev (inl same) k = subst IsKeyed (sym same) k
Change-IsKeyed vb feed feed' ev (inr (inl (gone, _))) k =
    λ j s h. ground (arith, rw gone at h, lookup-delete vb j feed.vbstreams, k j s)
Change-IsKeyed vb feed feed' ev (inr (inr (t, new, o))) k =
    λ j s h. ground (arith, rw new at h, lookup-insert vb j t feed.vbstreams, k j s)

-- A stream that a packet takes off the map has its event.
Change-live :
    (j vb : ℕ) (feed feed' : UprFeed) (ev : Option UprEvent)
    → Change vb feed feed' ev
    → lookup j feed.vbstreams ≢ none
    → (lookup j feed'.vbstreams ≢ none) ⊎ ((e : UprEvent) × (ev ≡ some e) × (ends j e ≡ true))
Change-live j vb feed feed' ev (inl same) l = inl (rw same l)
Change-live j vb feed feed' ev (inr (inl (gone, (e, x, y)))) l = elim (Bool-cases (vb == j)) [
  | inl i ↦ inr (e, x, subst (λ i. ends i e ≡ true) ((==_iff vb j).0 i) y)
  | inr n ↦ inl (rw (gone, lookup-delete vb j feed.vbstreams, n) l)
]
Change-live j vb feed feed' ev (inr (inr (t, new, o))) l =
    inl (rw (new, lookup-insert vb j t feed.vbstreams) (ground (arith, l)))

-- The stream of `j` is on the map, or its end was sent.
abbrev IsLive : ℕ → UprFeed → Type 0
IsLive j feed = (lookup j feed.vbstreams ≢ none) ⊎ (has_end j feed.events ≡ true)

record Tracked (j : ℕ) (feed : UprFeed) : Type 0 where
  keyed : IsKeyed feed.vbstreams
  open_end : feed.takes ≡ none
  no_error : feed.error ≡ none
  live : IsLive j feed

-- A loop that ends with an error has sent the end of `j`.
abbrev Closes : ℕ → Outcome → Type 0
Closes j out =
    (last : UprFeed) → out ≡ ended last → last.error ≢ none → has_end j last.events ≡ true

has_end-close :
    (j : ℕ) (m : GoMap ℕ UprStream) → lookup j m ≢ none → has_end j (map close_event m) ≡ true
unfolding lookup has_end
has_end-close j [] l = absurd (l refl)
has_end-close j ((i, s) ∷ m) l = ground (arith, has_end-close j m)

-- An end is found in whatever order the ends were sent.
has_end-perm :
    (j : ℕ) {xs ys : List (ℕ × UprStream)}
    → Permᴰ xs ys
    → has_end j (map close_event xs) ≡ has_end j (map close_event ys)
unfolding has_end
has_end-perm j Permᴰ.nil = refl
has_end-perm j (Permᴰ.cons e p) = rw (e, has_end-perm j p) refl
has_end-perm j (Permᴰ.swap e f) = rw (e, f) (ground arith)
has_end-perm j (Permᴰ.trans p q) = has_end-perm j p ∙ has_end-perm j q

has_end-range :
    (j : ℕ) (feed : UprFeed)
    → lookup j feed.vbstreams ≢ none
    → has_end j (map close_event (feed.range.order feed.vbstreams)) ≡ true
has_end-range j feed l =
    sym (has_end-perm j (feed.range.perm feed.vbstreams)) ∙ has_end-close j feed.vbstreams l

do_stream_close-Closes :
    (j : ℕ) (feed : UprFeed) → IsLive j feed → Closes j (ended (do_stream_close feed))
unfolding do_stream_close
do_stream_close-Closes j feed l last e n =
    let same : last.events ≡ feed.events ++ map close_event (feed.range.order feed.vbstreams) =
      cc e in
    rw (same, has_end-append j feed.events (map close_event (feed.range.order feed.vbstreams)))
      (ground (arith, l, has_end-range j feed))

ack-Same :
    (feed : UprFeed) (send_ack : Bool) (n : ℕ)
    → Same feed (transmit_ack (send_buffer_ack feed send_ack n))
      × ((transmit_ack (send_buffer_ack feed send_ack n)).vbstreams ≡ feed.vbstreams)
unfolding transmit_ack send_buffer_ack
ack-Same feed send_ack n = ground arith

packet-Tracked :
    (j : ℕ) (feed feed' : UprFeed) (pkt : McRequest) (ev : Option UprEvent) (ack : Bool)
    → Tracked j feed
    → handle_packet feed pkt ≡ some (next feed' ev ack)
    → Change (vb_opaque pkt.opaque) feed feed' ev × Same feed feed'
unfolding IsKeyed
packet-Tracked j feed feed' pkt ev ack t h =
    elim (Option-cases (lookup (vb_opaque pkt.opaque) feed.vbstreams)) [
      | inl e ↦ let (x, y) = other_changes feed feed' pkt ev ack e h in (inl x, y)
      | inr (stream, e) ↦
          packet_changes feed feed' pkt stream ev ack e (t.keyed (vb_opaque pkt.opaque) stream e) h
    ]

abbrev event_list : Option UprEvent → List UprEvent
event_list none = []
event_list (some event) = event ∷ []

deliver_open :
    (feed sent : UprFeed) (ev : Option UprEvent)
    → feed.takes ≡ none
    → deliver feed ev ≡ some sent
    → (sent.vbstreams ≡ feed.vbstreams)
      × (sent.takes ≡ feed.takes)
      × (sent.error ≡ feed.error)
      × (sent.events ≡ feed.events ++ event_list ev)
unfolding deliver
deliver_open feed sent none o h = ground (arith, h, append-nil feed.events)
deliver_open feed sent (some event) o h = let h' = rw o at h in ground (arith, h')

has_end_list :
    (j : ℕ) (xs : List UprEvent) (ev : Option UprEvent) (e : UprEvent)
    → ev ≡ some e
    → ends j e ≡ true
    → has_end j (xs ++ event_list ev) ≡ true
unfolding has_end
has_end_list j xs none e h y = absurd cc
has_end_list j xs (some event) e h y =
    let same : event ≡ e = cc h in rw (has_end-append j xs (event ∷ []), same) (ground (arith, y))

deliver-IsLive :
    (j vb : ℕ) (feed feed' sent : UprFeed) (ev : Option UprEvent)
    → IsLive j feed
    → Change vb feed feed' ev
    → sent.vbstreams ≡ feed'.vbstreams
    → sent.events ≡ feed.events ++ event_list ev
    → IsLive j sent
deliver-IsLive j vb feed feed' sent ev (inl l) c same more =
    elim (Change-live j vb feed feed' ev c l) [
      | inl l' ↦ inl (rw same l')
      | inr (e, x, y) ↦ inr (rw more (has_end_list j feed.events ev e x y))
    ]
deliver-IsLive j vb feed feed' sent ev (inr l) c same more =
    inr (rw (more, has_end-append j feed.events (event_list ev)) (ground (arith, l)))

-- What the event of a packet adds.
deliver-Tracked :
    (j vb : ℕ) (feed feed' sent : UprFeed) (ev : Option UprEvent)
    → Tracked j feed
    → Change vb feed feed' ev
    → Same feed feed'
    → deliver feed' ev ≡ some sent
    → Tracked j sent
deliver-Tracked j vb feed feed' sent ev t c (a, b, d) h =
    let (x, y, z, w) = deliver_open feed' sent ev (b ∙ t.open_end) h in
    record {
      keyed = subst IsKeyed (sym x) (Change-IsKeyed vb feed feed' ev c t.keyed);
      open_end = y ∙ (b ∙ t.open_end);
      no_error = z ∙ (d ∙ t.no_error);
      live =
          deliver-IsLive j vb feed feed' sent ev t.live c x
            (w ∙ ap (λ (l : List UprEvent). l ++ event_list ev) a);
    }

Same-Tracked :
    (j : ℕ) (feed feed' : UprFeed)
    → Same feed feed' × (feed'.vbstreams ≡ feed.vbstreams)
    → Tracked j feed
    → Tracked j feed'
Same-Tracked j feed feed' ((a, b, c), d) t = record {
  keyed = subst IsKeyed (sym d) t.keyed;
  open_end = b ∙ t.open_end;
  no_error = c ∙ t.no_error;
  live = rw (d, a) t.live;
}

module _ (j : ℕ) (again : UprFeed → McRequest → Reader → Outcome)
    (ih : (feed : UprFeed) (pkt : McRequest) (r : Reader)
      → Tracked j feed
      → Closes j (again feed pkt r)) where
  after_packet-Closes :
      (got : Request.Received) (feed : UprFeed) (step : Option Step)
      → Tracked j feed
      → handle_packet feed got.req ≡ step
      → Closes j (after_packet again got step)
  unfolding after_packet after_event
  after_packet-Closes got feed none t h last e n = absurd cc
  after_packet-Closes got feed (some (break_loop feed')) t h last e n =
      let same = break_same feed feed' got.req h in
      let it : last ≡ feed' = cc e in
      absurd (n (ap (λ (f : UprFeed). f.error) it ∙ (same ∙ t.no_error)))
  after_packet-Closes got feed (some (next feed' ev ack)) t h last e n =
      let (c, same) = packet-Tracked j feed feed' got.req ev ack t h in
      elim (Option-cases (deliver feed' ev)) [
        | inl d ↦
            let it : last ≡ feed' = cc (rw d at e) in
            absurd (n (ap (λ (f : UprFeed). f.error) it ∙ (same.2 ∙ t.no_error)))
        | inr (sent, d) ↦
            let t' = deliver-Tracked j _ feed feed' sent ev t c same d in
            ih _ got.req got.reader (Same-Tracked j sent _ (ack-Same sent ack (got.n % 2 ^ 32)) t')
              last (rw d at e) n
      ]

  after_error-Closes :
      (feed : UprFeed) (got : Request.Received) (err : Option WireError)
      → Tracked j feed
      → Closes j (after_error again feed got err)
  unfolding after_error count_bytes
  after_error-Closes feed got none t =
      after_packet-Closes got (count_bytes feed got.n) _
        (Same-Tracked j feed (count_bytes feed got.n) ((refl, refl, refl), refl) t) refl
  after_error-Closes feed got (some err) t =
      do_stream_close-Closes j (record feed { error = some err }) t.live

  after_receive-Closes :
      (feed : UprFeed) (res : Option Request.Received)
      → Tracked j feed
      → Closes j (after_receive again feed res)
  unfolding after_receive
  after_receive-Closes feed none t = λ last e n. absurd cc
  after_receive-Closes feed (some got) t = after_error-Closes feed got got.err t

feed_loop-Closes :
    (j fuel : ℕ) (feed : UprFeed) (pkt : McRequest) (r : Reader)
    → Tracked j feed
    → Closes j (feed_loop fuel feed pkt r)
unfolding feed_loop
feed_loop-Closes j zero feed pkt r t = λ last e n. absurd cc
feed_loop-Closes j (suc fuel) feed pkt r t =
    after_receive-Closes j (feed_loop fuel) (feed_loop-Closes j fuel) feed
      (receive pkt r (make_bytes hdr_len)) t

-- A feed whose application takes every event, with no error so far and every stream under its own
-- vbucket: if the loop ends with an error, which is one of the connection's, then each stream that
-- the feed had when the loop started has an event that says that it is over, a STREAMEND or a
-- rollback.
pub run_feed_closes :
    (feed last : UprFeed) (r : Reader) (vb : ℕ)
    → IsKeyed feed.vbstreams
    → feed.takes ≡ none
    → feed.error ≡ none
    → lookup vb feed.vbstreams ≢ none
    → run_feed feed r ≡ ended last
    → last.error ≢ none
    → has_end vb last.events ≡ true
unfolding run_feed
run_feed_closes feed last r vb k o e l run n =
    feed_loop-Closes vb (suc (length r.input)) feed empty_request r
      (record { keyed = k; open_end = o; no_error = e; live = inl l }) last run n
