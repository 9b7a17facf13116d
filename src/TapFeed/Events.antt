-- ===== src/TapFeed/Events.antt =====
-- makeTapEvent of client/tap_feed.go.
use Prim.Native.Nat.{bit_and}
use gomemcached.Prelude.{
  ℕ, ◌+◌, ◌≤◌, ◌≡◌, ◌≢◌, refl, Bool, false, not, Option, none, some, Bytes, ◌++◌, length, drop, leb,
  ltb, ◌==◌, arith, uint32, uint16_total, uint32_total, uint32_put, put_uint32, IsU32, Option-cases,
  Bool-cases, inl, inr, length-drop, le→leb, sym, ap, ◌∙◌, length-append, append_assoc,
}
use gomemcached.Wire.Buffer.{slice_from, slice_from-append}
use gomemcached.Wire.Opcode
use gomemcached.Wire.Request.{McRequest}
use gomemcached.TapFeed.{
  TapEvent, mutation, start_event, add_meta, finish_event, make_tap_event, wants_ack,
}

slice_from_fits :
    (bs : Bytes) (lo n : ℕ)
    → lo + n ≤ length bs
    → (x : Bytes) × (slice_from bs lo ≡ some x) × (n ≤ length x)
unfolding slice_from
slice_from_fits bs lo n h =
    (drop lo bs, rw (le→leb lo (length bs) (omega arith)), omega (arith, length-drop lo bs))

uint32_at :
    (bs : Bytes) (lo : ℕ)
    → lo + 4 ≤ length bs
    → (x : Bytes) × (v : ℕ) × (slice_from bs lo ≡ some x) × (uint32 x ≡ some v)
uint32_at bs lo h =
    let (x, e, l) = slice_from_fits bs lo 4 h in let (v, f) = uint32_total x l in (x, v, e, f)

start_event_returns : (req : McRequest) → start_event req ≢ none
unfolding start_event
start_event_returns req = elim (Bool-cases (ltb (length req.extras) 12)) [
  | inl short ↦ ground (arith, short)
  | inr long ↦
      let (x, v, e, f) = uint32_at req.extras 8 (ground (arith, long)) in ground (arith, long, e, f)
]

add_meta_returns : (req : McRequest) (event : TapEvent) → add_meta req event ≢ none
unfolding add_meta
add_meta_returns req event = elim (Bool-cases (leb 16 (length req.extras))) [
  | inl long ↦
      let (x, v, e, f) = uint32_at req.extras 8 (ground (arith, long)) in
      let (y, u, g, h) = uint32_at req.extras 12 (ground (arith, long)) in
      rw (e, f, g, h) (ground (arith, long))
  | inr short ↦ ground (arith, short)
]

-- makeTapEvent never panics.
pub make_tap_event_returns :
    (req : McRequest) → (event : Option TapEvent) × (make_tap_event req ≡ some event)
unfolding make_tap_event finish_event
make_tap_event_returns req = elim (Option-cases (start_event req)) [
  | inl e ↦ absurd (start_event_returns req e)
  | inr (none, e) ↦ (none, rw e refl)
  | inr (some event, e) ↦ elim (Option-cases (add_meta req event)) [
    | inl f ↦ absurd (add_meta_returns req event f)
    | inr (event', f) ↦ (some event', rw (e, f) refl)
  ]
]

-- Nor does the test for the acknowledgment.
pub wants_ack_returns : (pkt : McRequest) → (b : Bool) × (wants_ack pkt ≡ some b)
unfolding wants_ack
wants_ack_returns pkt = elim (Bool-cases (leb 4 (length pkt.extras))) [
  | inl long ↦
      let (x, e, l) = slice_from_fits pkt.extras 2 2 (ground (arith, long)) in
      let (v, f) = uint16_total x l in (not (bit_and v 1 == 0), rw (long, e, f) refl)
  | inr short ↦ (false, rw short refl)
]

-- A TAP mutation whose extras are 8 bytes, the item's flags and its expiration, both uint32, and
-- anything behind them, gives an event with these, the packet's vBucket, key and CAS, and its body as
-- the value.
pub make_tap_event-mutation :
    (req : McRequest) (front rest : Bytes) (flags expiry : ℕ)
    → req.opcode ≡ Opcode.tap_mutation
    → req.extras ≡ front ++ (put_uint32 flags ++ (put_uint32 expiry ++ rest))
    → length front ≡ 8
    → IsU32 flags
    → IsU32 expiry
    → make_tap_event req
      ≡ some (
          some (record {
            opcode = mutation;
            vbucket = req.vbucket;
            flags = flags;
            expiry = expiry;
            key = req.key;
            value = req.body;
            cas = req.cas;
          }))
unfolding make_tap_event start_event finish_event add_meta
make_tap_event-mutation req front rest flags expiry o x l f e =
    let after : Bytes = put_uint32 expiry ++ rest in
    let all : Bytes = front ++ (put_uint32 flags ++ after) in
    let size : length all ≡ length front + (8 + length rest) =
      length-append front (put_uint32 flags ++ after) ∙ omega arith in
    let first : slice_from all 8 ≡ some (put_uint32 flags ++ after) =
      slice_from-append front (put_uint32 flags ++ after) 8 (sym l) in
    let second : slice_from all 12 ≡ some after =
      ap (λ (b : Bytes). slice_from b 12) (sym (append_assoc front (put_uint32 flags) after))
      ∙ slice_from-append (front ++ put_uint32 flags) after 12
          (omega (arith, length-append front (put_uint32 flags))) in
    rw
      (
        o,
        x,
        le→leb 16 (length all) (omega (arith, size)),
        first,
        second,
        uint32_put flags after f,
        uint32_put expiry rest e,
      )
      refl
