-- ===== src/Wire/Request/Encoding.antt =====
-- The encoders of mc_req.go write the packet layout, whatever the request, and never panic.
use gomemcached.Prelude.{
  ℕ, ◌+◌, ◌-◌, ◌%◌, ◌^◌, ◌≡◌, refl, ap, ◌∙◌, some, Bytes, [], ◌∷◌, ◌++◌, length, ◌==◌,
  if◌then◌else◌, put_uint16, put_uint32, put_uint64, arith, append_assoc, append-nil, Bool-cases,
  inl, inr, length-append, ==_iff,
}
use gomemcached.Wire.Buffer.{
  write_at, make_bytes, write_at-zeros, skip_zeros, copy_field-zeros, write_at_rest_test,
}
use gomemcached.Wire.Layout.{Fields, encode, req_magic}
use gomemcached.Wire.Request.{McRequest, size, fill_header_bytes, header_bytes, bytes}

-- The header of a request, in wire order. Lengths are cut to their fields as Go's conversions do.
abbrev pub request_fields : McRequest → Fields
request_fields req = record {
  magic = req_magic;
  opcode = req.opcode;
  klen = length req.key % 2 ^ 16;
  elen = length req.extras % 2 ^ 8;
  reserved = 0;
  word = req.vbucket;
  total = (length req.body + length req.key + length req.extras) % 2 ^ 32;
  opaque = req.opaque;
  cas = req.cas;
}

abbrev pub request_header : McRequest → Bytes
request_header req = encode (request_fields req)

-- What follows the header.
abbrev pub payload : McRequest → Bytes
payload req = req.extras ++ (req.key ++ req.body)

-- The whole packet.
abbrev pub wire : McRequest → Bytes
wire req = request_header req ++ payload req

pub length-wire : (req : McRequest) → length (wire req) ≡ size req
unfolding size
length-wire req = omega (
  arith,
  length-append (request_header req) (payload req),
  length-append req.extras (req.key ++ req.body),
  length-append req.key req.body,
)

cas_step :
    (pre : Bytes) (cas n m : ℕ)
    → 16 ≡ length pre
    → n ≡ 8 + m
    → (if cas == 0
        then some (pre ++ make_bytes n)
        else write_at (pre ++ make_bytes n) 16 (put_uint64 cas))
      ≡ some ((pre ++ put_uint64 cas) ++ make_bytes m)
cas_step pre cas n m hp hn = elim (Bool-cases (cas == 0)) [
  | inl z ↦ rw (z, (==_iff cas 0).0 z, skip_zeros pre 8 n m hn)
  | inr nz ↦ rw (nz, write_at-zeros pre (put_uint64 cas) 16 n m hp hn)
]

fill_header_bytes-layout :
    (req : McRequest) (n m : ℕ)
    → n ≡ 24 + length req.extras + length req.key + m
    → fill_header_bytes req (make_bytes n)
      ≡ some (
        ((request_header req ++ req.extras) ++ req.key) ++ make_bytes m,
        24 + length req.extras + length req.key,
      )
unfolding fill_header_bytes
fill_header_bytes-layout req n m h =
    let total : ℕ = (length req.body + length req.key + length req.extras) % 2 ^ 32 in
    let p1 : Bytes = req_magic ∷ [] in
    let p2 : Bytes = p1 ++ (req.opcode ∷ []) in
    let p4 : Bytes = p2 ++ put_uint16 (length req.key % 2 ^ 16) in
    let p5 : Bytes = p4 ++ ((length req.extras % 2 ^ 8) ∷ []) in
    let p6 : Bytes = p5 ++ (0 ∷ []) in
    let p8 : Bytes = p6 ++ put_uint16 req.vbucket in
    let p12 : Bytes = p8 ++ put_uint32 total in
    let p16 : Bytes = p12 ++ put_uint32 req.opaque in
    let p24 : Bytes = p16 ++ put_uint64 req.cas in
    rw (
      write_at-zeros [] p1 0 n (n - 1) refl (omega arith),
      write_at-zeros p1 (req.opcode ∷ []) 1 (n - 1) (n - 2) refl (omega arith),
      write_at-zeros p2 (put_uint16 (length req.key % 2 ^ 16)) 2 (n - 2) (n - 4) refl (omega arith),
      write_at-zeros p4 ((length req.extras % 2 ^ 8) ∷ []) 4 (n - 4) (n - 5) refl (omega arith),
      skip_zeros p5 1 (n - 5) (n - 6) (omega arith),
      write_at-zeros p6 (put_uint16 req.vbucket) 6 (n - 6) (n - 8) refl (omega arith),
      write_at-zeros p8 (put_uint32 total) 8 (n - 8) (n - 12) refl (omega arith),
      write_at-zeros p12 (put_uint32 req.opaque) 12 (n - 12) (n - 16) refl (omega arith),
      cas_step p16 req.cas (n - 16) (n - 24) refl (omega arith),
      copy_field-zeros p24 req.extras 24 (n - 24) (length req.key + m) refl (omega arith),
      copy_field-zeros (p24 ++ req.extras) req.key (24 + length req.extras) (length req.key + m) m
          (omega (arith, length-append p24 req.extras)) refl,
    )

-- `HeaderBytes` gives the header, the extras and the key.
pub header_bytes-layout :
    (req : McRequest) → header_bytes req ≡ some (request_header req ++ (req.extras ++ req.key))
unfolding header_bytes
header_bytes-layout req =
    rw (fill_header_bytes-layout req (24 + length req.extras + length req.key) 0 (omega arith))
      (ap some (append-nil _ ∙ append_assoc (request_header req) req.extras req.key))

-- `Bytes` gives the header, the extras, the key and the body.
pub bytes-layout : (req : McRequest) → bytes req ≡ some (wire req)
unfolding bytes size
bytes-layout req =
    let front : Bytes = (request_header req ++ req.extras) ++ req.key in
    rw
      (fill_header_bytes-layout req (24 + length req.extras + length req.key + length req.body)
        (length req.body) refl)
      (write_at_rest_test front req.body (24 + length req.extras + length req.key) (
          omega (
            arith,
            length-append (request_header req ++ req.extras) req.key,
            length-append (request_header req) req.extras,
          ))
        ∙ ap some (
            append_assoc (request_header req ++ req.extras) req.key req.body
            ∙ append_assoc (request_header req) req.extras (req.key ++ req.body)))
