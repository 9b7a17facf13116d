-- ===== src/Wire/Request/Faults.antt =====
-- `Receive` of mc_req.go on packets that it does not accept.
use gomemcached.Prelude.{
  ℕ, ◌+◌, ◌*◌, ◌^◌, ◌≤◌, ◌<◌, ◌≡◌, ◌≢◌, none, some, Bytes, [], ◌∷◌, ◌++◌, length, if◌then◌else◌,
  uint16, arith, inl, inr, ◌⊎◌, le→not_ltb, lt→ltb, le→leb, Option-cases,
}
use gomemcached.Io.{IoError, Reader, short_read, read_full, read_full-append, read_full_short}
use gomemcached.Wire.Buffer.{slice, slice_panics}
use gomemcached.Wire.Layout.{
  Fields, InRange, encode, IsMagic, req_magic, res_magic, hdr_len, max_body_len, io, bad_magic,
  too_big,
}
use gomemcached.Wire.Opcode
use gomemcached.Wire.Request.{
  McRequest, receive, receive_first, receive_header, receive_body, split_body, has_engine_private,
  header_size,
}
use gomemcached.Wire.Request.Decoding.{receive-encode, receive_header_lem, body_length}

-- A stream that ends inside the header: an EOF before the first byte stays one, and any later one
-- is unexpected. The request is not touched, and the stream is used up.
pub receive_short_header :
    (req : McRequest) (r : Reader) (hdr_bytes : Bytes)
    → length hdr_bytes ≤ hdr_len
    → length r.input < hdr_len
    → receive req r hdr_bytes
      ≡ some (record {
        n = length r.input;
        err = some (io (short_read (length r.input) r.ending));
        req = req;
        reader = record r { input = [] };
      })
unfolding receive receive_first
receive_short_header req r hb short h =
    let size : header_size hb ≡ hdr_len = ground arith in rw (size, read_full_short r hdr_len h)

-- Behind a first byte that is neither magic nothing is read, and the request is not touched.
pub receive_bad_magic :
    (req : McRequest) (f : Fields) (rest : Bytes) (e : IoError) (hdr_bytes : Bytes)
    → length hdr_bytes ≤ hdr_len
    → f.magic ≢ req_magic
    → f.magic ≢ res_magic
    → receive req (record { input = encode f ++ rest; ending = e }) hdr_bytes
      ≡ some (record {
        n = hdr_len;
        err = some (bad_magic f.magic);
        req = req;
        reader = record { input = rest; ending = e };
      })
unfolding receive_header
receive_bad_magic req f rest e hb short h k =
    rw (receive-encode req f rest e hb short) (ground arith)

-- A header whose total is less than the key and the extras that it announces is refused, as is a
-- body past the limit: the uint32 difference wraps to a number past the limit.
pub receive_bad_lengths :
    (req : McRequest) (f : Fields) (rest : Bytes) (e : IoError) (hdr_bytes : Bytes)
    → length hdr_bytes ≤ hdr_len
    → InRange f
    → IsMagic f
    → (f.total < f.klen + f.elen) ⊎ (f.klen + f.elen + max_body_len < f.total)
    → receive req (record { input = encode f ++ rest; ending = e }) hdr_bytes
      ≡ some (record {
        n = hdr_len;
        err = some (too_big (body_length f) max_body_len);
        req = record req { opcode = f.opcode; vbucket = f.word };
        reader = record { input = rest; ending = e };
      })
receive_bad_lengths req f rest e hb short range magic h =
    let big : max_body_len < body_length f = omega (arith, range) in
    rw (
      receive-encode req f rest e hb short,
      receive_header_lem req hdr_len f (record { input = rest; ending = e }) range magic,
      lt→ltb max_body_len (body_length f) big,
    )

-- The lengths of a header that `Receive` accepts.
abbrev pub IsConsistent : Fields → Type 0
IsConsistent f = (f.klen + f.elen ≤ f.total) × (f.total ≤ f.klen + f.elen + max_body_len)

-- Lengths that reach past the buffer make a slice panic.
split_body_panics :
    (req : McRequest) (buf : Bytes) (klen elen private_len : ℕ)
    → (if has_engine_private req.opcode (length buf) then uint16 buf else some 0) ≡ some private_len
    → length buf < klen + (elen + private_len)
    → split_body req buf klen elen ≡ none
unfolding split_body
split_body_panics req buf klen elen p hp h = elim (Option-cases (slice buf 0 (elen + p))) [
  | inl x ↦ rw (hp, x)
  | inr (extras, x) ↦ rw (hp, x, slice_panics buf (elen + p) (klen + (elen + p)) h)
]

module _ (req : McRequest) (f : Fields) (e : IoError) (hdr_bytes : Bytes) where
  abbrev with_header : McRequest
  with_header = record req { opcode = f.opcode; vbucket = f.word; opaque = f.opaque; cas = f.cas }

  receive-consistent :
      (rest : Bytes)
      → length hdr_bytes ≤ hdr_len
      → InRange f
      → IsMagic f
      → IsConsistent f
      → receive req (record { input = encode f ++ rest; ending = e }) hdr_bytes
        ≡ receive_body with_header hdr_len
            (read_full (record { input = rest; ending = e }) f.total)
            f.klen
            f.elen
  receive-consistent rest short range magic ok =
      let small : body_length f ≤ max_body_len = omega (arith, range) in
      let whole : f.klen + f.elen + body_length f ≡ f.total = omega (arith, range) in
      rw (
        receive-encode req f rest e hdr_bytes short,
        receive_header_lem req hdr_len f (record { input = rest; ending = e }) range magic,
        le→not_ltb max_body_len (body_length f) small,
        whole,
      )

  -- A stream that ends behind a good header: the fields of the header are set and the rest of the
  -- request is not. Where nothing at all follows the header, the error is the plain EOF that also
  -- stands for a stream that ended between two packets.
  pub receive_short_body :
      (rest : Bytes)
      → length hdr_bytes ≤ hdr_len
      → InRange f
      → IsMagic f
      → IsConsistent f
      → length rest < f.total
      → receive req (record { input = encode f ++ rest; ending = e }) hdr_bytes
        ≡ some (record {
          n = hdr_len + length rest;
          err = some (io (short_read (length rest) e));
          req = with_header;
          reader = record { input = []; ending = e };
        })
  unfolding receive_body
  receive_short_body rest short range magic ok h = rw (
    receive-consistent rest short range magic ok,
    read_full_short (record { input = rest; ending = e }) f.total h,
  )

  -- A TAP notification whose private data is said to be longer than its body: the slice of the key
  -- ends past the buffer, and `Receive` panics.
  pub receive_private_panics :
      (a b : ℕ) (more rest : Bytes)
      → length hdr_bytes ≤ hdr_len
      → InRange f
      → IsMagic f
      → IsConsistent f
      → Opcode.tap_mutation ≤ f.opcode
      → f.opcode ≤ Opcode.tap_checkpoint_end
      → f.total ≡ 2 + length more
      → f.total < f.klen + f.elen + (a * 2 ^ 8 + b)
      → receive req (record { input = encode f ++ (a ∷ b ∷ more ++ rest); ending = e }) hdr_bytes
        ≡ none
  unfolding receive_body has_engine_private uint16
  receive_private_panics a b more rest short range magic ok lo hi tot h = rw (
    receive-consistent ((a ∷ b ∷ more) ++ rest) short range magic ok,
    read_full-append (a ∷ b ∷ more) rest e f.total (omega arith),
    split_body_panics with_header (a ∷ b ∷ more) f.klen f.elen (a * 2 ^ 8 + b)
        (rw (
          le→leb Opcode.tap_mutation f.opcode lo,
          le→leb f.opcode Opcode.tap_checkpoint_end hi,
          lt→ltb 1 (length (a ∷ b ∷ more)) (omega arith),
        ))
        (omega arith),
  )
