-- ===== src/Wire/Response/Decoding.antt =====
-- What `Receive` of mc_res.go makes of a header whose fields are known, and of what follows it.
use gomemcached.Prelude.{
  ◌+◌, ◌%◌, ◌^◌, ◌≤◌, ◌<◌, ◌≡◌, refl, sym, ap, ◌∙◌, none, some, Bytes, [], ◌++◌, length, inl, inr,
  uint16_put, uint32_put, uint64_put, IsByte, IsU16, IsU32, IsU64, not, ◌&&◌, ◌==◌, false, arith,
  length-append, append_assoc, Option-cases,
}
use gomemcached.Io.{IoError, short_read, read_full, read_full-append, read_full_short}
use gomemcached.Wire.Buffer.{slice, slice-append, slice_from-append, slice_panics}
use gomemcached.Wire.Layout.{Fields, InRange, encode, IsMagic, req_magic, res_magic, hdr_len, io}
use gomemcached.Wire.Response.{
  McResponse, size, bytes, receive, receive_first, receive_header, receive_words, receive_body,
  header_size, split_body,
}
use gomemcached.Wire.Response.Encoding.{wire, payload, response_fields, bytes-layout, length-wire}

magic_test :
    (f : Fields) → IsMagic f → (not (f.magic == res_magic) && not (f.magic == req_magic)) ≡ false
magic_test f h = ground arith

module _ (res : McResponse) (f : Fields) (e : IoError) (hdr_bytes : Bytes) where
  abbrev with_header : McResponse
  with_header = record res { opcode = f.opcode; status = f.word; opaque = f.opaque; cas = f.cas }

  receive-encode :
      (rest : Bytes)
      → length hdr_bytes ≤ hdr_len
      → InRange f
      → IsMagic f
      → receive res (record { input = encode f ++ rest; ending = e }) hdr_bytes
        ≡ receive_body with_header hdr_len
            (read_full (record { input = rest; ending = e }) f.total)
            f.klen
            f.elen
  unfolding receive receive_first receive_header receive_words slice
  receive-encode rest short h m =
      let fixed : header_size hdr_bytes ≡ hdr_len = ground arith in
      rw (
        fixed,
        read_full-append (encode f) rest e hdr_len refl,
        magic_test f m,
        uint16_put f.klen [] h.klen,
        uint16_put f.word [] h.word,
        uint32_put f.opaque [] h.opaque,
        uint64_put f.cas [] h.cas,
        uint32_put f.total [] h.total,
      )

  -- A response whose key and extras are longer than the total: the slices reach past the buffer, and
  -- `Receive` panics.
  pub response_receive_panics :
      (body rest : Bytes)
      → length hdr_bytes ≤ hdr_len
      → InRange f
      → IsMagic f
      → f.total ≡ length body
      → f.total < f.klen + f.elen
      → receive res (record { input = encode f ++ (body ++ rest); ending = e }) hdr_bytes ≡ none
  unfolding receive_body split_body
  response_receive_panics body rest short range magic tot h =
      elim (Option-cases (slice body 0 f.elen)) [
        | inl x ↦ rw (
          receive-encode (body ++ rest) short range magic,
          read_full-append body rest e f.total tot,
          x,
        )
        | inr (extras, x) ↦ rw (
          receive-encode (body ++ rest) short range magic,
          read_full-append body rest e f.total tot,
          x,
          slice_panics body f.elen (f.klen + f.elen) (omega arith),
        )
      ]

  -- A stream that ends behind the header sets the header's fields and no others.
  pub response_receive_short_body :
      (rest : Bytes)
      → length hdr_bytes ≤ hdr_len
      → InRange f
      → IsMagic f
      → length rest < f.total
      → receive res (record { input = encode f ++ rest; ending = e }) hdr_bytes
        ≡ some (record {
          n = hdr_len + length rest;
          err = some (io (short_read (length rest) e));
          res = with_header;
          reader = record { input = []; ending = e };
        })
  unfolding receive_body
  response_receive_short_body rest short range magic h = rw (
    receive-encode rest short range magic,
    read_full_short (record { input = rest; ending = e }) f.total h,
  )

-- Every field of the response fits the bytes that the header has for it.
pub record Fits (res : McResponse) : Type 0 where
  pub opcode : IsByte res.opcode
  pub status : IsU16 res.status
  pub opaque : IsU32 res.opaque
  pub cas : IsU64 res.cas
  pub extras : IsByte (length res.extras)
  pub key : IsU16 (length res.key)
  pub total : length res.body + length res.key + length res.extras < 2 ^ 32

abbrev packet_fields : McResponse → Fields
packet_fields res = record {
  magic = res_magic;
  opcode = res.opcode;
  klen = length res.key;
  elen = length res.extras;
  reserved = 0;
  word = res.status;
  total = length (payload res);
  opaque = res.opaque;
  cas = res.cas;
}

module _ (res : McResponse) (fits : Fits res) where
  length-payload : length (payload res) ≡ length res.extras + (length res.key + length res.body)
  length-payload =
      omega (arith, length-append res.extras (res.key ++ res.body), length-append res.key res.body)

  response_fields-packet : response_fields res ≡ packet_fields res
  response_fields-packet =
      let k : length res.key % 2 ^ 16 ≡ length res.key = omega (arith, fits.key) in
      let x : length res.extras % 2 ^ 8 ≡ length res.extras = omega (arith, fits.extras) in
      let t : (length res.body + length res.key + length res.extras) % 2 ^ 32
          ≡ length (payload res) =
        omega (arith, length-payload, fits.total) in
      rw (k, x, t)

  packet-InRange : InRange (packet_fields res)
  packet-InRange = omega (arith, fits, length-payload)

  wire-packet :
      (rest : Bytes) → wire res ++ rest ≡ encode (packet_fields res) ++ (payload res ++ rest)
  wire-packet rest =
      ap (λ (f : Fields). (encode f ++ payload res) ++ rest) response_fields-packet
      ∙ append_assoc (encode (packet_fields res)) (payload res) rest

  split-payload :
      (res0 : McResponse)
      → split_body res0 (payload res) (length res.key) (length res.extras)
        ≡ some (record res0 { extras = res.extras; key = res.key; body = res.body })
  unfolding split_body
  split-payload res0 = rw (
    slice-append [] res.extras (res.key ++ res.body) 0 (length res.extras) refl (omega arith),
    slice-append res.extras res.key res.body (length res.extras)
        (length res.key + length res.extras) refl (omega arith),
    sym (append_assoc res.extras res.key res.body),
    slice_from-append (res.extras ++ res.key) res.body (length res.key + length res.extras)
        (omega (arith, length-append res.extras res.key)),
  )

  pub response_receive-wire :
      (res0 : McResponse) (rest : Bytes) (e : IoError) (hdr_bytes : Bytes)
      → length hdr_bytes ≤ hdr_len
      → receive res0 (record { input = wire res ++ rest; ending = e }) hdr_bytes
        ≡ some (record {
          n = size res;
          err = none;
          res = record res { fatal = res0.fatal };
          reader = record { input = rest; ending = e };
        })
  unfolding receive_body size
  response_receive-wire res0 rest e hb short =
      let count : hdr_len + length (payload res)
          ≡ hdr_len + length res.extras + length res.key + length res.body =
        omega (arith, length-payload) in
      rw (
        wire-packet rest,
        receive-encode res0 (packet_fields res) e hb (payload res ++ rest) short packet-InRange
            (inr refl),
        read_full-append (payload res) rest e (length (payload res)) refl,
        split-payload (with_header res0 (packet_fields res) e hb),
        count,
      )

-- `Bytes` of a response whose fields fit the header never panics and gives `Size` bytes, and
-- `Receive` reads them back, whatever follows on the stream, and leaves the rest. The Fatal flag is
-- not sent: the receiver keeps its own.
pub response_receive-bytes :
    (res : McResponse) (res0 : McResponse) (rest : Bytes) (e : IoError) (hdr_bytes : Bytes)
    → Fits res
    → length hdr_bytes ≤ hdr_len
    → (bs : Bytes) × (bytes res ≡ some bs)
      × (length bs ≡ size res)
      × (receive res0 (record { input = bs ++ rest; ending = e }) hdr_bytes
          ≡ some (record {
            n = size res;
            err = none;
            res = record res { fatal = res0.fatal };
            reader = record { input = rest; ending = e };
          }))
response_receive-bytes res res0 rest e hb fits short = (
  wire res,
  bytes-layout res,
  length-wire res,
  response_receive-wire res fits res0 rest e hb short,
)
