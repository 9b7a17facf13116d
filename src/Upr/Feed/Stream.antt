-- ===== src/Upr/Feed/Stream.antt =====
-- runFeed of client/upr_feed.go on a stream of data packets: what it does is stated on the packets,
-- without bytes or turns.
use gomemcached.Prelude.{
  ℕ, zero, suc, ◌+◌, ◌<◌, ◌≤◌, ◌≡◌, refl, sym, subst, ◌∙◌, ◌%◌, ◌^◌, Bool, true, false, ◌≢◌, ◌||◌,
  Option, none, some, List, [], ◌∷◌, ◌++◌, map, All, length, ◌==◌, if◌then◌else◌, ◌>>=◌, arith,
  append_assoc, length-append, length-replicate, IsU64, Option-cases, inl, inr,
}
use gomemcached.Io.{Reader, IoError, short_read}
use gomemcached.GoMap.{GoMap, lookup, nat_eq}
use gomemcached.Wire.Buffer.{make_bytes}
use gomemcached.Wire.Layout.{hdr_len, WireError}
use gomemcached.Wire.Layout
use gomemcached.Wire.Opcode
use gomemcached.Wire.Request
use gomemcached.Wire.Request.{McRequest, empty_request, receive}
use gomemcached.Wire.Request.Encoding.{wire, length-wire}
use gomemcached.Wire.Request.RoundTrip.{receive-wire}
use gomemcached.Wire.Request.Faults.{receive_short_header}
use gomemcached.Server.Refinement.{IsPlain, stream, size_pos}
use gomemcached.Upr.Events.{make_upr_event_panics}
use gomemcached.Upr.{backing, UprEvent, UprStream, make_upr_event, vb_opaque}
use gomemcached.Upr.Feed.{
  UprFeed, next, Outcome, ended, count_mutation, count_snap_shot, with_stream, handle_packet,
  send_buffer_ack, transmit_ack, deliver, count_bytes, do_stream_close, close_event, after_event,
  after_packet, after_error, after_receive, feed_loop, run_feed,
}

-- Mutations, deletions and expirations.
abbrev pub is_change : McRequest → Bool
is_change pkt =
    (pkt.opcode == Opcode.upr_mutation)
    || ((pkt.opcode == Opcode.upr_deletion) || (pkt.opcode == Opcode.upr_expiration))

abbrev pub is_snap_shot : McRequest → Bool
is_snap_shot pkt = pkt.opcode == Opcode.upr_snapshot

-- The event of a data packet on the streams that are open: `none` when its vbucket has no stream or
-- when the packet has too few bytes for its kind.
abbrev pub event_of : GoMap ℕ UprStream → McRequest → Option UprEvent
event_of streams pkt = do s ← lookup (vb_opaque pkt.opaque) streams; make_upr_event pkt s

abbrev pub event_list : Option UprEvent → List UprEvent
event_list none = []
event_list (some event) = event ∷ []

abbrev pub upr_events : GoMap ℕ UprStream → List McRequest → List UprEvent
upr_events streams [] = []
upr_events streams (pkt ∷ pkts) = event_list (event_of streams pkt) ++ upr_events streams pkts

abbrev pub count_if : (McRequest → Bool) → List McRequest → ℕ
count_if test [] = 0
count_if test (pkt ∷ pkts) = (if test pkt then 1 else 0) + count_if test pkts

-- A well-formed packet with a change, a snapshot marker or a flush, on one of the streams, and enough
-- bytes behind its header if it is an expiration.
pub record IsNotification (streams : GoMap ℕ UprStream) (pkt : McRequest) : Type 0 where
  pub plain : IsPlain pkt
  pub kind : (is_change pkt || (is_snap_shot pkt || (pkt.opcode == Opcode.upr_flush))) ≡ true
  pub known : lookup (vb_opaque pkt.opaque) streams ≢ none
  pub enough : pkt.opcode ≡ Opcode.upr_expiration → 18 ≤ length (backing pkt)

makes-event :
    (streams : GoMap ℕ UprStream) (pkt : McRequest)
    → IsNotification streams pkt
    → (event : UprEvent) × (event_of streams pkt ≡ some event)
makes-event streams pkt note = elim (Option-cases (lookup (vb_opaque pkt.opaque) streams)) [
  | inl e ↦ absurd (note.known e)
  | inr (s, e) ↦ elim (Option-cases (make_upr_event pkt s)) [
    | inl m ↦
        let (expires, short) = (make_upr_event_panics pkt s).0 m in
        let enough = note.enough expires in absurd (omega arith)
    | inr (event, m) ↦ (event, rw e m)
  ]
]

-- What a turn on a data packet does to the feed.
record IsTurn (feed : UprFeed) (pkt : McRequest) (feed' : UprFeed) : Type 0 where
  streams : feed'.vbstreams ≡ feed.vbstreams
  range : feed'.range ≡ feed.range
  takes : feed'.takes ≡ feed.takes
  events : feed'.events ≡ feed.events ++ event_list (event_of feed.vbstreams pkt)
  mutations : feed'.stats.total_mutation ≡ (
      if is_change pkt then (feed.stats.total_mutation + 1) % 2 ^ 64 else feed.stats.total_mutation)
  snap_shots : feed'.stats.total_snap_shot ≡ (
      if is_snap_shot pkt
      then (feed.stats.total_snap_shot + 1) % 2 ^ 64
      else feed.stats.total_snap_shot)

abbrev counted : UprFeed → McRequest → UprFeed
counted feed pkt =
    if is_change pkt
    then count_mutation feed
    else if is_snap_shot pkt
    then count_snap_shot feed
    else feed

handle_packet-next :
    (feed : UprFeed) (pkt : McRequest) (event : UprEvent)
    → event_of feed.vbstreams pkt ≡ some event
    → (is_change pkt || (is_snap_shot pkt || (pkt.opcode == Opcode.upr_flush))) ≡ true
    → handle_packet feed pkt
      ≡ some (next (counted feed pkt) (some event) (is_change pkt || is_snap_shot pkt))
unfolding handle_packet with_stream
handle_packet-next feed pkt event makes kind =
    elim (Option-cases (lookup (vb_opaque pkt.opaque) feed.vbstreams)) [
      | inl known ↦ absurd (cc (rw known at makes))
      | inr (s, known) ↦
          let made : make_upr_event pkt s ≡ some event = rw known at makes in
          ground (arith, kind, known, made)
    ]

transmit_ack-IsTurn :
    (feed feed' : UprFeed) (pkt : McRequest) (ack : Bool) (n : ℕ)
    → IsTurn feed pkt feed'
    → IsTurn feed pkt (transmit_ack (send_buffer_ack feed' ack n))
unfolding transmit_ack send_buffer_ack
transmit_ack-IsTurn feed feed' pkt ack n t = record {
  streams = ground (arith, t.streams);
  range = ground (arith, t.range);
  takes = ground (arith, t.takes);
  events = ground (arith, t.events);
  mutations = ground (arith, t.mutations);
  snap_shots = ground (arith, t.snap_shots);
}

delivered :
    (feed : UprFeed) (pkt : McRequest) (event : UprEvent)
    → feed.takes ≡ none
    → event_of feed.vbstreams pkt ≡ some event
    → (sent : UprFeed) × (deliver (counted feed pkt) (some event) ≡ some sent)
      × IsTurn feed pkt sent
unfolding deliver count_mutation count_snap_shot
delivered feed pkt event takes makes = (
  record (counted feed pkt) { events = feed.events ++ (event ∷ []) },
  ground (arith, takes),
  record {
    streams = ground arith;
    range = ground arith;
    takes = ground arith;
    events = rw makes refl;
    mutations = ground arith;
    snap_shots = ground arith;
  },
)

count_bytes-IsTurn :
    (feed feed' : UprFeed) (pkt : McRequest) (n : ℕ)
    → IsTurn (count_bytes feed n) pkt feed'
    → IsTurn feed pkt feed'
unfolding count_bytes
count_bytes-IsTurn feed feed' pkt n t = record {
  streams = t.streams;
  range = t.range;
  takes = t.takes;
  events = t.events;
  mutations = t.mutations;
  snap_shots = t.snap_shots;
}

turn :
    (again : UprFeed → McRequest → Reader → Outcome) (feed : UprFeed) (got : Request.Received)
    → feed.takes ≡ none
    → IsNotification feed.vbstreams got.req
    → (feed' : UprFeed) × (after_error again feed got none ≡ again feed' got.req got.reader)
      × IsTurn feed got.req feed'
unfolding after_error after_packet after_event count_bytes
turn again feed got takes note =
    let pkt = got.req in
    let ack = is_change pkt || is_snap_shot pkt in
    let n = got.n % 2 ^ 32 in
    let (event, makes) = makes-event feed.vbstreams pkt note in
    let (sent, sends, t) = delivered (count_bytes feed got.n) pkt event takes makes in
    (
      transmit_ack (send_buffer_ack sent ack n),
      rw (handle_packet-next (count_bytes feed got.n) pkt event makes note.kind, sends) refl,
      transmit_ack-IsTurn feed sent pkt ack n (count_bytes-IsTurn feed sent pkt got.n t),
    )

-- What the feed has when the stream `pkts` is over.
record IsServed (feed : UprFeed) (pkts : List McRequest) (e : IoError) (last : UprFeed)
    : Type 0 where
  events :
      last.events
      ≡ feed.events
        ++ (upr_events feed.vbstreams pkts ++ map close_event (feed.range.order feed.vbstreams))
  error : last.error ≡ some (Layout.io e)
  mutations :
      IsU64 feed.stats.total_mutation
      → last.stats.total_mutation ≡ (feed.stats.total_mutation + count_if is_change pkts) % 2 ^ 64
  snap_shots :
      IsU64 feed.stats.total_snap_shot
      → last.stats.total_snap_shot
        ≡ (feed.stats.total_snap_shot + count_if is_snap_shot pkts) % 2 ^ 64

-- A uint64 counter that goes up by one, and then by `more`.
counter_goes_on :
    (up : Bool) (before after more last : ℕ)
    → after ≡ (if up then (before + 1) % 2 ^ 64 else before)
    → (IsU64 after → last ≡ (after + more) % 2 ^ 64)
    → IsU64 before
    → last ≡ (before + ((if up then 1 else 0) + more)) % 2 ^ 64
counter_goes_on true before after more last e h b = omega (arith, e, h (omega (arith, e)))
counter_goes_on false before after more last e h b = omega (arith, e, h (omega (arith, e)))

turn-IsServed :
    (feed feed' last : UprFeed) (pkt : McRequest) (pkts : List McRequest) (e : IoError)
    → IsTurn feed pkt feed'
    → IsServed feed' pkts e last
    → IsServed feed (pkt ∷ pkts) e last
turn-IsServed feed feed' last pkt pkts e t served = record {
  events =
      served.events
      ∙ rw
          (
            t.events,
            t.streams,
            t.range,
            append_assoc (event_list (event_of feed.vbstreams pkt)) (upr_events feed.vbstreams pkts)
                (map close_event (feed.range.order feed.vbstreams)),
          )
          (append_assoc feed.events (event_list (event_of feed.vbstreams pkt))
            (upr_events feed.vbstreams pkts ++ map close_event (feed.range.order feed.vbstreams)));
  error = served.error;
  mutations =
      counter_goes_on (is_change pkt) feed.stats.total_mutation feed'.stats.total_mutation
        (count_if is_change pkts) last.stats.total_mutation t.mutations served.mutations;
  snap_shots =
      counter_goes_on (is_snap_shot pkt) feed.stats.total_snap_shot feed'.stats.total_snap_shot
        (count_if is_snap_shot pkts) last.stats.total_snap_shot t.snap_shots served.snap_shots;
}

closed-IsServed :
    (feed : UprFeed) (e : IoError)
    → IsServed feed [] e (do_stream_close (record feed { error = some (Layout.io e) }))
unfolding do_stream_close
closed-IsServed feed e = record {
  events = refl;
  error = refl;
  mutations = λ h. omega arith;
  snap_shots = λ h. omega arith;
}

feed_loop-stream :
    (pkts : List McRequest) (fuel : ℕ) (feed : UprFeed) (pkt : McRequest) (e : IoError)
    → feed.takes ≡ none
    → All (IsNotification feed.vbstreams) pkts
    → length (stream pkts) < fuel
    → (last : UprFeed) × (feed_loop fuel feed pkt (record { input = stream pkts; ending = e })
        ≡ ended last)
      × IsServed feed pkts e last
unfolding feed_loop after_receive after_error short_read
feed_loop-stream pkts zero feed pkt e takes notes f = absurd (omega arith)
feed_loop-stream [] (suc fuel) feed pkt e takes notes f =
    let r : Reader = record { input = []; ending = e } in
    let size : length (make_bytes hdr_len) ≤ hdr_len =
      omega (arith, length-replicate {A = ℕ} hdr_len 0) in
    (
      do_stream_close (record feed { error = some (Layout.io e) }),
      rw (receive_short_header pkt r (make_bytes hdr_len) size (omega arith)) refl,
      closed-IsServed feed e,
    )
feed_loop-stream (p ∷ pkts) (suc fuel) feed pkt e takes (note, notes) f =
    let (fits, plain) = note.plain in
    let size : length (make_bytes hdr_len) ≤ hdr_len =
      omega (arith, length-replicate {A = ℕ} hdr_len 0) in
    let got : Request.Received = record {
      n = Request.size p;
      err = none;
      req = p;
      reader = record { input = stream pkts; ending = e };
    } in
    let (feed', goes, t) = turn (feed_loop fuel) feed got takes note in
    let (last, runs, served) =
      feed_loop-stream pkts fuel feed' p e (t.takes ∙ takes)
        (subst (λ m. All (IsNotification m) pkts) (sym t.streams) notes)
        (omega (arith, length-append (wire p) (stream pkts), length-wire p, size_pos p)) in
    (
      last,
      rw (receive-wire p fits pkt (stream pkts) e (make_bytes hdr_len) plain size) (goes ∙ runs),
      turn-IsServed feed feed' last p pkts e t served,
    )

-- A UPR feed on a connection that sends packets whose fields fit the header, each a change, a snapshot marker or a
-- flush for a vbucket that has a stream, and none an expiration with less than 18 bytes behind its
-- header, and that then ends with `e`; the application takes every event, and the feed's counters
-- are uint64. The loop ends; the application gets exactly the events of the packets in their order
-- and then, in the order in which Go ranges over the map, one for the end of each stream; the feed's
-- error is `e`, and its counters of mutations and of snapshots have grown by the numbers of changes
-- and of snapshot markers, and wrap.
pub run_feed-upr_events :
    (pkts : List McRequest) (e : IoError) (feed : UprFeed)
    → feed.takes ≡ none
    → IsU64 feed.stats.total_mutation
    → IsU64 feed.stats.total_snap_shot
    → All (IsNotification feed.vbstreams) pkts
    → (last : UprFeed) × (run_feed feed (record { input = stream pkts; ending = e }) ≡ ended last)
      × (last.events
          ≡ feed.events
            ++ (upr_events feed.vbstreams pkts
                ++ map close_event (feed.range.order feed.vbstreams)))
      × (last.error ≡ some (Layout.io e))
      × (last.stats.total_mutation ≡ (feed.stats.total_mutation + count_if is_change pkts) % 2 ^ 64)
      × (last.stats.total_snap_shot
          ≡ (feed.stats.total_snap_shot + count_if is_snap_shot pkts) % 2 ^ 64)
unfolding run_feed
run_feed-upr_events pkts e feed takes mutations snap_shots notes =
    let (last, runs, served) =
      feed_loop-stream pkts (suc (length (stream pkts))) feed empty_request e takes notes
        (omega arith) in
    (
      last,
      runs,
      served.events,
      served.error,
      served.mutations mutations,
      served.snap_shots snap_shots,
    )
