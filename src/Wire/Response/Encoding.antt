-- ===== src/Wire/Response/Encoding.antt =====
-- The encoders of mc_res.go write the packet layout, whatever the response, and never panic.
use gomemcached.Prelude.{
  ℕ, ◌+◌, ◌-◌, ◌%◌, ◌^◌, ◌≡◌, refl, ap, ◌∙◌, some, Bytes, [], ◌∷◌, ◌++◌, length, put_uint16,
  put_uint32, put_uint64, arith, append_assoc, append-nil, length-append,
}
use gomemcached.Wire.Buffer.{make_bytes, write_at-zeros, copy_field-zeros, write_at_rest}
use gomemcached.Wire.Layout.{Fields, encode, res_magic}
use gomemcached.Wire.Response.{McResponse, size, fill_header_bytes, header_bytes, bytes}

-- The header of a response, in wire order. Lengths are cut to their fields as Go's conversions do.
abbrev pub response_fields : McResponse → Fields
response_fields res = record {
  magic = res_magic;
  opcode = res.opcode;
  klen = length res.key % 2 ^ 16;
  elen = length res.extras % 2 ^ 8;
  reserved = 0;
  word = res.status;
  total = (length res.body + length res.key + length res.extras) % 2 ^ 32;
  opaque = res.opaque;
  cas = res.cas;
}

abbrev pub response_header : McResponse → Bytes
response_header res = encode (response_fields res)

-- What follows the header.
abbrev pub payload : McResponse → Bytes
payload res = res.extras ++ (res.key ++ res.body)

-- The whole packet.
abbrev pub wire : McResponse → Bytes
wire res = response_header res ++ payload res

pub length-wire : (res : McResponse) → length (wire res) ≡ size res
unfolding size
length-wire res = omega (
  arith,
  length-append (response_header res) (payload res),
  length-append res.extras (res.key ++ res.body),
  length-append res.key res.body,
)

fill_header_bytes-layout :
    (res : McResponse) (n m : ℕ)
    → n ≡ 24 + length res.extras + length res.key + m
    → fill_header_bytes res (make_bytes n)
      ≡ some (
        ((response_header res ++ res.extras) ++ res.key) ++ make_bytes m,
        24 + length res.extras + length res.key,
      )
unfolding fill_header_bytes
fill_header_bytes-layout res n m h =
    let total : ℕ = (length res.body + length res.key + length res.extras) % 2 ^ 32 in
    let p1 : Bytes = res_magic ∷ [] in
    let p2 : Bytes = p1 ++ (res.opcode ∷ []) in
    let p4 : Bytes = p2 ++ put_uint16 (length res.key % 2 ^ 16) in
    let p5 : Bytes = p4 ++ ((length res.extras % 2 ^ 8) ∷ []) in
    let p6 : Bytes = p5 ++ (0 ∷ []) in
    let p8 : Bytes = p6 ++ put_uint16 res.status in
    let p12 : Bytes = p8 ++ put_uint32 total in
    let p16 : Bytes = p12 ++ put_uint32 res.opaque in
    let p24 : Bytes = p16 ++ put_uint64 res.cas in
    rw (
      write_at-zeros [] p1 0 n (n - 1) refl (omega arith),
      write_at-zeros p1 (res.opcode ∷ []) 1 (n - 1) (n - 2) refl (omega arith),
      write_at-zeros p2 (put_uint16 (length res.key % 2 ^ 16)) 2 (n - 2) (n - 4) refl (omega arith),
      write_at-zeros p4 ((length res.extras % 2 ^ 8) ∷ []) 4 (n - 4) (n - 5) refl (omega arith),
      write_at-zeros p5 (0 ∷ []) 5 (n - 5) (n - 6) refl (omega arith),
      write_at-zeros p6 (put_uint16 res.status) 6 (n - 6) (n - 8) refl (omega arith),
      write_at-zeros p8 (put_uint32 total) 8 (n - 8) (n - 12) refl (omega arith),
      write_at-zeros p12 (put_uint32 res.opaque) 12 (n - 12) (n - 16) refl (omega arith),
      write_at-zeros p16 (put_uint64 res.cas) 16 (n - 16) (n - 24) refl (omega arith),
      copy_field-zeros p24 res.extras 24 (n - 24) (length res.key + m) refl (omega arith),
      copy_field-zeros (p24 ++ res.extras) res.key (24 + length res.extras) (length res.key + m) m
          (omega (arith, length-append p24 res.extras)) refl,
    )

-- `HeaderBytes` gives the header, the extras and the key.
pub header_bytes-layout :
    (res : McResponse) → header_bytes res ≡ some (response_header res ++ (res.extras ++ res.key))
unfolding header_bytes
header_bytes-layout res =
    rw (fill_header_bytes-layout res (24 + length res.extras + length res.key) 0 (omega arith))
      (ap some (append-nil _ ∙ append_assoc (response_header res) res.extras res.key))

-- `Bytes` gives the header, the extras, the key and the body.
pub bytes-layout : (res : McResponse) → bytes res ≡ some (wire res)
unfolding bytes size
bytes-layout res =
    let front : Bytes = (response_header res ++ res.extras) ++ res.key in
    rw
      (fill_header_bytes-layout res (24 + length res.extras + length res.key + length res.body)
        (length res.body) refl)
      (write_at_rest front res.body (24 + length res.extras + length res.key) (
          omega (
            arith,
            length-append (response_header res ++ res.extras) res.key,
            length-append (response_header res) res.extras,
          ))
        ∙ ap some (
            append_assoc (response_header res ++ res.extras) res.key res.body
            ∙ append_assoc (response_header res) res.extras (res.key ++ res.body)))
