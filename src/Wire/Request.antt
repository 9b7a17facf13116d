-- ===== src/Wire/Request.antt =====
-- mc_req.go: the request packet, its encoding, and its transmission and reception.
pub mod Encoding
pub mod Transmission
pub mod Delivery
pub mod Consumption
pub mod Faults
pub mod RoundTrip
pub mod Decoding
use gomemcached.Prelude.{
  ℕ, ◌+◌, ◌-◌, ◌*◌, ◌%◌, ◌^◌, Bool, not, ◌&&◌, ◌||◌, Option, none, some, Bytes, [], ◌∷◌, length,
  ltb, leb, ◌==◌, if◌then◌else◌, ◌>>=◌, get_elem?, put_uint16, put_uint32, put_uint64, uint16,
  uint32, uint64, sub_uint32,
}
use gomemcached.Io.{IoError, Reader, ReadResult, read_full, Writer, WriteResult, write}
use gomemcached.Wire.Buffer.{write_at, copy_field, slice, slice_from, make_bytes}
use gomemcached.Wire.Layout.{
  req_magic, res_magic, hdr_len, max_body_len, WireError, io, bad_magic, too_big,
}
use gomemcached.Wire.Opcode

pub record McRequest : Type 0 where
  pub opcode : ℕ
  pub cas : ℕ
  pub opaque : ℕ
  pub vbucket : ℕ
  pub extras : Bytes
  pub key : Bytes
  pub body : Bytes

-- The zero value `MCRequest{}`.
abbrev pub empty_request : McRequest
empty_request = record {
  opcode = 0;
  cas = 0;
  opaque = 0;
  vbucket = 0;
  extras = [];
  key = [];
  body = [];
}

unfoldable pub size : McRequest → ℕ
size req = hdr_len + length req.extras + length req.key + length req.body

-- `none` is a panic: the buffer is too short.
unfoldable pub fill_header_bytes : McRequest → Bytes → Option (Bytes × ℕ)
fill_header_bytes req buf = do
  buf ← write_at buf 0 (req_magic ∷ [])
  buf ← write_at buf 1 (req.opcode ∷ [])
  buf ← write_at buf 2 (put_uint16 (length req.key % 2 ^ 16))
  buf ← write_at buf 4 ((length req.extras % 2 ^ 8) ∷ [])
  buf ← write_at buf 6 (put_uint16 req.vbucket)
  let total = (length req.body + length req.key + length req.extras) % 2 ^ 32
  buf ← write_at buf 8 (put_uint32 total)
  buf ← write_at buf 12 (put_uint32 req.opaque)
  buf ← (if req.cas == 0 then some buf else write_at buf 16 (put_uint64 req.cas))
  (buf, pos) ← copy_field buf 24 req.extras
  copy_field buf pos req.key

unfoldable pub header_bytes : McRequest → Option Bytes
header_bytes req = do
  (buf, pos) ← fill_header_bytes req (make_bytes (hdr_len + length req.extras + length req.key))
  some buf

unfoldable pub bytes : McRequest → Option Bytes
bytes req = do
  (buf, pos) ← fill_header_bytes req (make_bytes (size req))
  if ltb 0 (length req.body) then write_at buf pos req.body else some buf

-- The result of `Transmit`: the count, the error (`none` is nil), and the writer after.
pub record Transmitted : Type 0 where
  pub n : ℕ
  pub err : Option IoError
  pub writer : Writer

-- What `Transmit` does with the error of its first write, the header's: it returns it, or writes the
-- body.
unfoldable pub transmit_rest : Option IoError → WriteResult → Bytes → Transmitted
transmit_rest (some e) first body = record { n = first.n; err = some e; writer = first.writer }
transmit_rest none first body =
    let second = write first.writer body in
    record { n = first.n + second.n; err = second.err; writer = second.writer }

unfoldable pub transmit : McRequest → Writer → Option Transmitted
transmit req w =
    if ltb (length req.body) 128
    then (do
      bs ← bytes req
      let first = write w bs
      some (record { n = first.n; err = first.err; writer = first.writer }))
    else (do
      bs ← header_bytes req
      let first = write w bs
      some (transmit_rest first.err first req.body))

-- The result of `Receive`: the count, the error, the packet that it was called on, which an error
-- leaves half filled, and the reader after.
pub record Received : Type 0 where
  pub n : ℕ
  pub err : Option WireError
  pub req : McRequest
  pub reader : Reader

-- The commands whose extras end in "engine private" data of a length that they give themselves.
unfoldable pub has_engine_private : ℕ → ℕ → Bool
has_engine_private opcode len =
    leb Opcode.tap_mutation opcode && leb opcode Opcode.tap_checkpoint_end && ltb 1 len

-- Extras, key and body from the bytes behind the header. A slice out of range panics.
unfoldable pub split_body : McRequest → Bytes → ℕ → ℕ → Option McRequest
split_body req buf klen elen = do
  private_len ← (if has_engine_private req.opcode (length buf) then uint16 buf else some 0)
  let elen = elen + private_len
  extras ← slice buf 0 elen
  key ← slice buf elen (klen + elen)
  body ← slice_from buf (klen + elen)
  some (record req { extras = extras; key = key; body = body })

unfoldable pub receive_body : McRequest → ℕ → ReadResult → ℕ → ℕ → Option Received
receive_body req n rest klen elen = elim rest.err [
  | some e ↦ some (record { n = n + rest.n; err = some (io e); req = req; reader = rest.reader })
  | none ↦ do
    req' ← split_body req rest.buf klen elen
    some (record { n = n + rest.n; err = none; req = req'; reader = rest.reader })
]

-- The opaque and the CAS, once the lengths are accepted.
unfoldable pub receive_words : McRequest → ℕ → Bytes → Reader → ℕ → ℕ → ℕ → Option Received
receive_words req n hdr r klen elen body_len = do
  opaque ← uint32 (← slice_from hdr 12)
  cas ← uint64 (← slice_from hdr 16)
  receive_body (record req { opaque = opaque; cas = cas }) n (read_full r (klen + elen + body_len))
      klen elen

-- The lengths, opcode and vbucket. The body's length is a uint32 difference, which wraps, and Go's
-- int holds it.
unfoldable pub receive_lengths : McRequest → ℕ → Bytes → Reader → Option Received
receive_lengths req n hdr r = do
  klen ← uint16 (← slice_from hdr 2)
  elen ← get_elem? hdr 4
  opcode ← get_elem? hdr 1
  vbucket ← uint16 (← slice_from hdr 6)
  total ← uint32 (← slice_from hdr 8)
  let body_len = sub_uint32 (sub_uint32 total klen) elen
  let req = record req { opcode = opcode; vbucket = vbucket }
  if ltb max_body_len body_len
      then some
          (record { n = n; err = some (too_big body_len max_body_len); req = req; reader = r })
      else receive_words req n hdr r klen elen body_len

-- The header, once its 24 bytes are there.
unfoldable pub receive_header : McRequest → ℕ → Bytes → Reader → Option Received
receive_header req n hdr r = do
  magic ← get_elem? hdr 0
  if not (magic == res_magic) && not (magic == req_magic)
      then some (record { n = n; err = some (bad_magic magic); req = req; reader = r })
      else receive_lengths req n hdr r

-- A caller's header buffer that is too short is replaced. Its old contents are never read.
abbrev pub header_size : Bytes → ℕ
header_size hdr_bytes = if ltb (length hdr_bytes) hdr_len then hdr_len else length hdr_bytes

unfoldable pub receive_first : McRequest → ReadResult → Option Received
receive_first req first = elim first.err [
  | some e ↦ some (record { n = first.n; err = some (io e); req = req; reader = first.reader })
  | none ↦ receive_header req first.n first.buf first.reader
]

unfoldable pub receive : McRequest → Reader → Bytes → Option Received
receive req r hdr_bytes = receive_first req (read_full r (header_size hdr_bytes))
