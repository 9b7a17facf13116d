-- ===== src/Upr/Events.antt =====
-- The opaque words of client/upr_feed.go, and what makeUprEvent reads from a packet.
use gomemcached.Prelude.{
  ℕ, ◌+◌, ◌≤◌, ◌<◌, ◌≡◌, ◌↔◌, ◌≢◌, refl, none, some, Bytes, [], ◌++◌, length, arith, Option-cases,
  le→leb, true, leb, inl, inr, uint16, uint32, uint64, uint16_total, uint32_total, uint64_total,
  put_uint16, put_uint32, put_uint64, uint16_put, uint32_put, uint64_put, IsU16, IsU32, IsU64,
  length-append,
}
use gomemcached.Wire.Buffer.{slice, slice_panics, length-slice, slice-append}
use gomemcached.Wire.Opcode
use gomemcached.Wire.Request.{McRequest}
use gomemcached.Upr.{
  upr_mutation_extra_len, UprEvent, empty_event, UprStream, compose_opaque, app_opaque, vb_opaque,
  backing, mutation_fields, deletion_fields, snapshot_fields, make_upr_event,
}

-- The two halves of an opaque word: composed they fit a uint32 and come apart again, and every
-- uint32 is composed of its halves.
pub opaque_halves :
    (vbno opaque_msb opq32 : ℕ)
    → IsU16 vbno
    → IsU16 opaque_msb
    → IsU32 opq32
    → IsU32 (compose_opaque vbno opaque_msb)
      × (vb_opaque (compose_opaque vbno opaque_msb) ≡ vbno)
      × (app_opaque (compose_opaque vbno opaque_msb) ≡ opaque_msb)
      × (compose_opaque (vb_opaque opq32) (app_opaque opq32) ≡ opq32)
unfolding compose_opaque vb_opaque app_opaque
opaque_halves vbno opaque_msb opq32 v o q = (omega arith, omega arith, omega arith, omega arith)

slice_not_none : (bs : Bytes) (lo hi : ℕ) → lo ≤ hi → hi ≤ length bs → slice bs lo hi ≢ none
unfolding slice
slice_not_none bs lo hi h k e = ground arith

-- A slice in range is one.
slice_fits :
    (bs : Bytes) (lo hi : ℕ)
    → lo ≤ hi
    → hi ≤ length bs
    → (x : Bytes) × (slice bs lo hi ≡ some x) × (length x + lo ≡ hi)
slice_fits bs lo hi h k = elim (Option-cases (slice bs lo hi)) [
  | inl e ↦ absurd (slice_not_none bs lo hi h k e)
  | inr (x, e) ↦ (x, e, (length-slice bs lo hi x e).0)
]

uint16-slice :
    (bs : Bytes) (lo hi : ℕ)
    → lo + 2 ≡ hi
    → hi ≤ length bs
    → (x : Bytes) × (v : ℕ) × (slice bs lo hi ≡ some x) × (uint16 x ≡ some v)
uint16-slice bs lo hi h k =
    let (x, e, l) = slice_fits bs lo hi (omega arith) k in
    let (v, f) = uint16_total x (omega arith) in (x, v, e, f)

uint32-slice :
    (bs : Bytes) (lo hi : ℕ)
    → lo + 4 ≡ hi
    → hi ≤ length bs
    → (x : Bytes) × (v : ℕ) × (slice bs lo hi ≡ some x) × (uint32 x ≡ some v)
uint32-slice bs lo hi h k =
    let (x, e, l) = slice_fits bs lo hi (omega arith) k in
    let (v, f) = uint32_total x (omega arith) in (x, v, e, f)

uint64-slice :
    (bs : Bytes) (lo hi : ℕ)
    → lo + 8 ≡ hi
    → hi ≤ length bs
    → (x : Bytes) × (v : ℕ) × (slice bs lo hi ≡ some x) × (uint64 x ≡ some v)
uint64-slice bs lo hi h k =
    let (x, e, l) = slice_fits bs lo hi (omega arith) k in
    let (v, f) = uint64_total x (omega arith) in (x, v, e, f)

mutation_fields_total :
    (event : UprEvent) (bs : Bytes) → 30 ≤ length bs → mutation_fields event bs ≢ none
unfolding mutation_fields
mutation_fields_total event bs k =
    let (_, _, a, a') = uint64-slice bs 0 8 refl (omega arith) in
    let (_, _, b, b') = uint64-slice bs 8 16 refl (omega arith) in
    let (_, _, c, c') = uint32-slice bs 16 20 refl (omega arith) in
    let (_, _, d, d') = uint32-slice bs 20 24 refl (omega arith) in
    let (_, _, e, e') = uint32-slice bs 24 28 refl (omega arith) in
    let (_, _, f, f') = uint16-slice bs 28 30 refl (omega arith) in
    rw (a, a', b, b', c, c', d, d', e, e', f, f') (λ z. cc)

deletion_fields_total :
    (event : UprEvent) (bs : Bytes) → 18 ≤ length bs → deletion_fields event bs ≢ none
unfolding deletion_fields
deletion_fields_total event bs k =
    let (_, _, a, a') = uint64-slice bs 0 8 refl (omega arith) in
    let (_, _, b, b') = uint64-slice bs 8 16 refl (omega arith) in
    let (_, _, f, f') = uint16-slice bs 16 18 refl (omega arith) in
    rw (a, a', b, b', f, f') (λ z. cc)

snapshot_fields_total :
    (event : UprEvent) (bs : Bytes) → 20 ≤ length bs → snapshot_fields event bs ≢ none
unfolding snapshot_fields
snapshot_fields_total event bs k =
    let (_, _, a, a') = uint64-slice bs 0 8 refl (omega arith) in
    let (_, _, b, b') = uint64-slice bs 8 16 refl (omega arith) in
    let (_, _, f, f') = uint32-slice bs 16 20 refl (omega arith) in
    rw (a, a', b, b', f, f') (λ z. cc)

mutation_fields_short :
    (event : UprEvent) (bs : Bytes) → mutation_fields event bs ≡ none → length bs < 30
mutation_fields_short event bs h = ground (arith, mutation_fields_total event bs)

deletion_fields_short :
    (event : UprEvent) (bs : Bytes) → deletion_fields event bs ≡ none → length bs < 18
deletion_fields_short event bs h = ground (arith, deletion_fields_total event bs)

snapshot_fields_short :
    (event : UprEvent) (bs : Bytes) → snapshot_fields event bs ≡ none → length bs < 20
snapshot_fields_short event bs h = ground (arith, snapshot_fields_total event bs)

deletion_fields_fits :
    (event : UprEvent) (bs : Bytes) → length bs < 18 → deletion_fields event bs ≡ none
unfolding deletion_fields
deletion_fields_fits event bs h = grind (arith, slice_panics bs 16 18 h)

-- makeUprEvent panics exactly on an expiration with less than 18 bytes of extras, key and body
-- together.
pub make_upr_event_panics :
    (rq : McRequest) (stream : UprStream)
    → (make_upr_event rq stream ≡ none)
      ↔ ((rq.opcode ≡ Opcode.upr_expiration) × (length (backing rq) < 18))
unfolding make_upr_event
make_upr_event_panics rq stream = grind (
  arith,
  length-append rq.extras (rq.key ++ rq.body),
  mutation_fields_short,
  deletion_fields_short,
  snapshot_fields_short,
  deletion_fields_fits,
)

-- The extras of a mutation as the producer sends them, with what may follow the fields.
abbrev pub mutation_extras : UprEvent → Bytes → Bytes
mutation_extras event more =
    put_uint64 event.seqno
    ++ (put_uint64 event.rev_seqno
        ++ (put_uint32 event.flags
            ++ (put_uint32 event.expiry
                ++ (put_uint32 event.lock_time ++ (put_uint16 event.metadata_size ++ more)))))

pub record InWords (event : UprEvent) : Type 0 where
  pub seqno : IsU64 event.seqno
  pub rev_seqno : IsU64 event.rev_seqno
  pub flags : IsU32 event.flags
  pub expiry : IsU32 event.expiry
  pub lock_time : IsU32 event.lock_time
  pub metadata_size : IsU16 event.metadata_size

mutation_fields-extras :
    (event numbers : UprEvent) (t : Bytes)
    → InWords numbers
    → mutation_fields event (mutation_extras numbers t)
      ≡ some (record event {
        seqno = numbers.seqno;
        rev_seqno = numbers.rev_seqno;
        flags = numbers.flags;
        expiry = numbers.expiry;
        lock_time = numbers.lock_time;
        metadata_size = numbers.metadata_size;
      })
unfolding mutation_fields
mutation_fields-extras event numbers t w =
    let a = put_uint64 numbers.seqno in
    let b = put_uint64 numbers.rev_seqno in
    let c = put_uint32 numbers.flags in
    let d = put_uint32 numbers.expiry in
    let l = put_uint32 numbers.lock_time in
    let m = put_uint16 numbers.metadata_size in
    rw (
      slice-append [] a (b ++ (c ++ (d ++ (l ++ (m ++ t))))) 0 8 refl refl,
      slice-append a b (c ++ (d ++ (l ++ (m ++ t)))) 8 16 refl refl,
      slice-append (a ++ b) c (d ++ (l ++ (m ++ t))) 16 20 refl refl,
      slice-append (a ++ b ++ c) d (l ++ (m ++ t)) 20 24 refl refl,
      slice-append (a ++ b ++ c ++ d) l (m ++ t) 24 28 refl refl,
      slice-append (a ++ b ++ c ++ d ++ l) m t 28 30 refl refl,
      uint64_put numbers.seqno [] w.seqno,
      uint64_put numbers.rev_seqno [] w.rev_seqno,
      uint32_put numbers.flags [] w.flags,
      uint32_put numbers.expiry [] w.expiry,
      uint32_put numbers.lock_time [] w.lock_time,
      uint16_put numbers.metadata_size [] w.metadata_size,
    )

-- A mutation whose extras hold six numbers, each within its word, gives an event with these numbers,
-- the packet's key, body, CAS and upper half of the opaque, and the stream's vbucket and uuid.
pub make_upr_event_mutation :
    (rq : McRequest) (stream : UprStream) (numbers : UprEvent) (more : Bytes)
    → rq.opcode ≡ Opcode.upr_mutation
    → rq.extras ≡ mutation_extras numbers more
    → InWords numbers
    → make_upr_event rq stream
      ≡ some (record empty_event {
        opcode = Opcode.upr_mutation;
        vbucket = stream.vbucket;
        vbuuid = stream.vbuuid;
        key = rq.key;
        value = rq.body;
        cas = rq.cas;
        opaque = app_opaque rq.opaque;
        seqno = numbers.seqno;
        rev_seqno = numbers.rev_seqno;
        flags = numbers.flags;
        expiry = numbers.expiry;
        lock_time = numbers.lock_time;
        metadata_size = numbers.metadata_size;
      })
unfolding make_upr_event
make_upr_event_mutation rq stream numbers more o x w =
    let long : leb upr_mutation_extra_len (length (mutation_extras numbers more)) ≡ true =
      le→leb 30 (length (mutation_extras numbers more)) (omega arith) in
    rw (o, x, long)
      (mutation_fields-extras
        (record empty_event {
          opcode = Opcode.upr_mutation;
          vbucket = stream.vbucket;
          vbuuid = stream.vbuuid;
          key = rq.key;
          value = rq.body;
          cas = rq.cas;
          opaque = app_opaque rq.opaque;
        })
        numbers (more ++ (rq.key ++ rq.body)) w)
