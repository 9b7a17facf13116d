-- ===== src/Upr/Feed/Streams.antt =====
-- What becomes of the streams of a feed.
use gomemcached.Prelude.{
  ℕ, ◌≡◌, refl, Bool, true, false, ◌&&◌, ◌||◌, Option, none, some, List, [], ◌∷◌, ==_iff, ◌++◌,
  ◌==◌, arith, Option-cases, Bool-cases, Bytes, inl, inr, ◌⊎◌,
}
use gomemcached.GoMap.{GoMap, lookup, insert, delete, nat_eq}
use gomemcached.Wire.Opcode
use gomemcached.Wire.Status
use gomemcached.Wire.Request.{McRequest}
use gomemcached.Upr.{
  UprEvent, UprStream, StreamReply, handle_stream_request, vb_opaque, make_upr_event, base_event,
  backing, mutation_fields, deletion_fields, snapshot_fields,
}
use gomemcached.Upr.Feed.{
  UprFeed, break_loop, next, handle_packet, with_stream, stream_answered, count_mutation,
  response_of, count_snap_shot,
}

-- An event that tells the application that the stream of `vb` is over: its end, or a rollback.
abbrev pub ends : ℕ → UprEvent → Bool
ends vb event =
    (event.vbucket == vb)
    && ((event.opcode == Opcode.upr_streamend)
        || ((event.opcode == Opcode.upr_streamreq) && (event.status == Status.rollback)))

unfoldable pub has_end : ℕ → List UprEvent → Bool
has_end vb [] = false
has_end vb (event ∷ events) = ends vb event || has_end vb events

pub has_end-append :
    (vb : ℕ) (xs ys : List UprEvent) → has_end vb (xs ++ ys) ≡ (has_end vb xs || has_end vb ys)
unfolding has_end
has_end-append vb [] ys = refl
has_end-append vb (x ∷ xs) ys = ground (arith, has_end-append vb xs ys)

-- Every stream stands under its own vbucket.
unfoldable pub IsKeyed : GoMap ℕ UprStream → Type 0
IsKeyed m = (vb : ℕ) (stream : UprStream) → lookup vb m ≡ some stream → stream.vbucket ≡ vb

mutation_fields_keeps :
    (event event' : UprEvent) (extras : Bytes)
    → mutation_fields event extras ≡ some event'
    → (event'.opcode ≡ event.opcode) × (event'.vbucket ≡ event.vbucket)
unfolding mutation_fields
mutation_fields_keeps event event' extras h = grind arith

deletion_fields_keeps :
    (event event' : UprEvent) (extras : Bytes)
    → deletion_fields event extras ≡ some event'
    → (event'.opcode ≡ event.opcode) × (event'.vbucket ≡ event.vbucket)
unfolding deletion_fields
deletion_fields_keeps event event' extras h = grind arith

snapshot_fields_keeps :
    (event event' : UprEvent) (extras : Bytes)
    → snapshot_fields event extras ≡ some event'
    → (event'.opcode ≡ event.opcode) × (event'.vbucket ≡ event.vbucket)
unfolding snapshot_fields
snapshot_fields_keeps event event' extras h = grind arith

make_upr_event_keeps :
    (rq : McRequest) (stream : UprStream) (event : UprEvent)
    → make_upr_event rq stream ≡ some event
    → (event.opcode ≡ rq.opcode) × (event.vbucket ≡ stream.vbucket)
unfolding make_upr_event
make_upr_event_keeps rq stream event h =
    let start = base_event rq stream in
    let all = backing rq in
    ground (
      arith,
      mutation_fields_keeps (base_event rq stream) event (backing rq),
      deletion_fields_keeps (base_event rq stream) event (backing rq),
      snapshot_fields_keeps (base_event rq stream) event (backing rq),
    )

-- What a packet for `vb` does to the map of the streams.
abbrev pub Change : ℕ → UprFeed → UprFeed → Option UprEvent → Type 0
Change vb feed feed' ev =
    (feed'.vbstreams ≡ feed.vbstreams)
    ⊎ (((feed'.vbstreams ≡ delete vb feed.vbstreams)
          × ((e : UprEvent) × (ev ≡ some e) × (ends vb e ≡ true)))
        ⊎ ((s : UprStream) × (feed'.vbstreams ≡ insert vb s feed.vbstreams) × (s.vbucket ≡ vb)))

answered_changes :
    (feed feed' : UprFeed) (vb : ℕ) (pkt : McRequest) (stream : UprStream) (reply : StreamReply)
    (ev : Option UprEvent) (ack : Bool)
    → pkt.opcode ≡ Opcode.upr_streamreq
    → stream.vbucket ≡ vb
    → stream_answered feed vb pkt stream reply ≡ some (next feed' ev ack)
    → Change vb feed feed' ev
unfolding stream_answered
answered_changes feed feed' vb pkt stream reply ev ack o k h =
    elim (Option-cases (make_upr_event pkt stream)) [
      | inl e ↦ inl (ground (arith, e, h))
      | inr (event, e) ↦
          let (op, v) = make_upr_event_keeps pkt stream event e in
          elim (Bool-cases (reply.status == Status.rollback)) [
            | inl r ↦
                let h' = rw (e, r) at h in
                inr (
                  inl (
                    cc h',
                    (record event { status = reply.status }, cc h', ground (arith, r, op, v, o, k)),
                  ))
            | inr r ↦ elim (Bool-cases (reply.status == Status.success)) [
              | inl s ↦
                  let h' = rw (e, r, s) at h in
                  inr (inr (record stream { connected = true }, cc h', k))
              | inr s ↦ let h' = rw (r, s) at h in inl (cc h')
            ]
          ]
    ]

-- What no packet does to the feed.
abbrev pub Same : UprFeed → UprFeed → Type 0
Same feed feed' =
    (feed'.events ≡ feed.events) × (feed'.takes ≡ feed.takes) × (feed'.error ≡ feed.error)

answered-Same :
    (feed feed' : UprFeed) (vb : ℕ) (pkt : McRequest) (stream : UprStream) (reply : StreamReply)
    (ev : Option UprEvent) (ack : Bool)
    → stream_answered feed vb pkt stream reply ≡ some (next feed' ev ack)
    → Same feed feed'
unfolding stream_answered
answered-Same feed feed' vb pkt stream reply ev ack h = grind arith

-- The packets that are not about a stream.
pub other_changes :
    (feed feed' : UprFeed) (pkt : McRequest) (ev : Option UprEvent) (ack : Bool)
    → lookup (vb_opaque pkt.opaque) feed.vbstreams ≡ none
    → handle_packet feed pkt ≡ some (next feed' ev ack)
    → (feed'.vbstreams ≡ feed.vbstreams) × Same feed feed'
unfolding handle_packet with_stream
other_changes feed feed' pkt ev ack e h = let h' = rw e at h in ground (arith, h')

pub packet_changes :
    (feed feed' : UprFeed) (pkt : McRequest) (stream : UprStream) (ev : Option UprEvent)
    (ack : Bool)
    → lookup (vb_opaque pkt.opaque) feed.vbstreams ≡ some stream
    → stream.vbucket ≡ vb_opaque pkt.opaque
    → handle_packet feed pkt ≡ some (next feed' ev ack)
    → Change (vb_opaque pkt.opaque) feed feed' ev × Same feed feed'
unfolding handle_packet with_stream count_mutation count_snap_shot
packet_changes feed feed' pkt stream ev ack e k h =
    elim (Bool-cases (pkt.opcode == Opcode.upr_streamreq)) [
      | inl o ↦ elim (Option-cases (handle_stream_request (response_of pkt))) [
        | inl r ↦ absurd (cc (rw (e, o, r) at h))
        | inr (reply, r) ↦
            let h' = rw (e, o, r) at h in
            (
              answered_changes feed feed' _ pkt stream reply ev ack ((==_iff _ _).0 o) k h',
              answered-Same feed feed' _ pkt stream reply ev ack h',
            )
      ]
      | inr o ↦ elim (Option-cases (make_upr_event pkt stream)) [
        | inl m ↦
            let h' = rw (e, o, m) at h in
            let both : (feed'.vbstreams ≡ feed.vbstreams) × Same feed feed' = ground (arith, h') in
            let (x, z) = both in (inl x, z)
        | inr (event, m) ↦
            let h' = rw (e, o, m) at h in
            let (op, v) = make_upr_event_keeps pkt stream event m in
            elim (Bool-cases (pkt.opcode == Opcode.upr_streamend)) [
              | inl p ↦
                  let both : (feed'.vbstreams ≡ delete (vb_opaque pkt.opaque) feed.vbstreams)
                      × (ev ≡ some event)
                      × Same feed feed' =
                    ground (arith, h', p) in
                  let (x, y, z) = both in
                  (inr (inl (x, (event, y, ground (arith, op, v, k, p)))), z)
              | inr p ↦ elim (Bool-cases (pkt.opcode == Opcode.upr_closestream)) [
                | inl c ↦
                    let event' = record event { opcode = Opcode.upr_streamend } in
                    let both : (feed'.vbstreams ≡ delete (vb_opaque pkt.opaque) feed.vbstreams)
                        × (ev ≡ some event')
                        × Same feed feed' =
                      ground (arith, h', c) in
                    let (x, y, z) = both in (inr (inl (x, (event', y, ground (arith, v, k)))), z)
                | inr c ↦
                    let both : (feed'.vbstreams ≡ feed.vbstreams) × Same feed feed' =
                      ground (arith, h', p, c) in
                    let (x, z) = both in (inl x, z)
              ]
            ]
      ]
    ]

-- Breaking the loop leaves the feed.
pub break_same :
    (feed feed' : UprFeed) (pkt : McRequest)
    → handle_packet feed pkt ≡ some (break_loop feed')
    → feed'.error ≡ feed.error
unfolding handle_packet with_stream stream_answered
break_same feed feed' pkt h = grind arith
