-- ===== src/Wire/Response.antt =====
-- mc_res.go: the response packet, its encoding, its transmission and reception, and what it says
-- as an error.
pub mod Encoding
pub mod Decoding
pub mod Transmission
pub mod Delivery
pub mod Progress
pub mod Consumption
pub mod Typing
use gomemcached.Prelude.{
  ℕ, ◌+◌, ◌%◌, ◌^◌, Bool, true, false, not, ◌&&◌, ◌||◌, Option, none, some, Bytes, [], ◌∷◌, length,
  ltb, ◌==◌, if◌then◌else◌, ◌>>=◌, get_elem?, put_uint16, put_uint32, put_uint64, uint16, uint32,
  uint64,
}
use gomemcached.Io.{IoError, Reader, ReadResult, read_full, Writer, WriteResult, write}
use gomemcached.Wire.Buffer.{write_at, copy_field, slice, slice_from, make_bytes}
use gomemcached.Wire.Layout.{req_magic, res_magic, hdr_len, WireError, io, bad_magic}
use gomemcached.Wire.Status

pub record McResponse : Type 0 where
  pub opcode : ℕ
  pub status : ℕ
  pub opaque : ℕ
  pub cas : ℕ
  pub extras : Bytes
  pub key : Bytes
  pub body : Bytes
  pub fatal : Bool

-- The zero value `MCResponse{}`.
abbrev pub empty_response : McResponse
empty_response = record {
  opcode = 0;
  status = 0;
  opaque = 0;
  cas = 0;
  extras = [];
  key = [];
  body = [];
  fatal = false;
}

-- Go's error values as the packages make them: one of the wire's, a response, the client's
-- errNoConn, or a text.
pub data GoError : Type 0 where
  wire : WireError → GoError
  response : McResponse → GoError
  no_conn : GoError
  text : ℕ → GoError

-- The type assertion e.(*MCResponse) fails on nil and on every other error.
unfoldable pub err_status : Option GoError → ℕ
err_status (some (response res)) = res.status
err_status _ = 0xffff

unfoldable pub is_not_found : Option GoError → Bool
unfolding err_status
is_not_found e = err_status e == Status.key_enoent

unfoldable pub is_fatal : Option GoError → Bool
unfolding err_status
is_fatal none = false
is_fatal (some e) =
    let s = err_status (some e) in
    not (
      s == Status.key_enoent
      || s == Status.key_eexists
      || s == Status.not_stored
      || s == Status.tmpfail)

unfoldable pub size : McResponse → ℕ
size res = hdr_len + length res.extras + length res.key + length res.body

unfoldable pub fill_header_bytes : McResponse → Bytes → Option (Bytes × ℕ)
fill_header_bytes res buf = do
  buf ← write_at buf 0 (res_magic ∷ [])
  buf ← write_at buf 1 (res.opcode ∷ [])
  buf ← write_at buf 2 (put_uint16 (length res.key % 2 ^ 16))
  buf ← write_at buf 4 ((length res.extras % 2 ^ 8) ∷ [])
  buf ← write_at buf 5 (0 ∷ [])
  buf ← write_at buf 6 (put_uint16 res.status)
  let total = (length res.body + length res.key + length res.extras) % 2 ^ 32
  buf ← write_at buf 8 (put_uint32 total)
  buf ← write_at buf 12 (put_uint32 res.opaque)
  buf ← write_at buf 16 (put_uint64 res.cas)
  (buf, pos) ← copy_field buf 24 res.extras
  copy_field buf pos res.key

unfoldable pub header_bytes : McResponse → Option Bytes
header_bytes res = do
  (buf, pos) ← fill_header_bytes res (make_bytes (hdr_len + length res.extras + length res.key))
  some buf

unfoldable pub bytes : McResponse → Option Bytes
bytes res = do (buf, pos) ← fill_header_bytes res (make_bytes (size res)); write_at buf pos res.body

pub record Transmitted : Type 0 where
  pub n : ℕ
  pub err : Option IoError
  pub writer : Writer

-- Behind the header's write, `Transmit` adds the header's count to the body's (`m += n`) and returns
-- the header's, where the request's `Transmit` has `n += m`.
unfoldable pub transmit_rest : Option IoError → WriteResult → Bytes → Transmitted
transmit_rest (some e) first body = record { n = first.n; err = some e; writer = first.writer }
transmit_rest none first body =
    let second = write first.writer body in
    record { n = first.n; err = second.err; writer = second.writer }

unfoldable pub transmit : McResponse → Writer → Option Transmitted
transmit res w =
    if ltb (length res.body) 128
    then (do
      bs ← bytes res
      let first = write w bs
      some (record { n = first.n; err = first.err; writer = first.writer }))
    else (do
      bs ← header_bytes res
      let first = write w bs
      some (transmit_rest first.err first res.body))

-- The result of `Receive`, as for requests.
pub record Received : Type 0 where
  pub n : ℕ
  pub err : Option WireError
  pub res : McResponse
  pub reader : Reader

unfoldable pub split_body : McResponse → Bytes → ℕ → ℕ → Option McResponse
split_body res buf klen elen = do
  extras ← slice buf 0 elen
  key ← slice buf elen (klen + elen)
  body ← slice_from buf (klen + elen)
  some (record res { extras = extras; key = key; body = body })

unfoldable pub receive_body : McResponse → ℕ → ReadResult → ℕ → ℕ → Option Received
receive_body res n rest klen elen = elim rest.err [
  | some e ↦ some (record { n = n + rest.n; err = some (io e); res = res; reader = rest.reader })
  | none ↦ do
    res' ← split_body res rest.buf klen elen
    some (record { n = n + rest.n; err = none; res = res'; reader = rest.reader })
]

-- The buffer has klen+elen+bodyLen bytes, where bodyLen is the difference total - (klen+elen) of
-- Go's ints, which may be negative: together that is `total`. There is no limit on it.
unfoldable pub receive_words : McResponse → ℕ → Bytes → Reader → Option Received
receive_words res n hdr r = do
  klen ← uint16 (← slice hdr 2 4)
  elen ← get_elem? hdr 4
  opcode ← get_elem? hdr 1
  status ← uint16 (← slice hdr 6 8)
  opaque ← uint32 (← slice hdr 12 16)
  cas ← uint64 (← slice hdr 16 24)
  total ← uint32 (← slice hdr 8 12)
  receive_body (record res { opcode = opcode; status = status; opaque = opaque; cas = cas }) n
      (read_full r total) klen elen

unfoldable pub receive_header : McResponse → ℕ → Bytes → Reader → Option Received
receive_header res n hdr r = do
  magic ← get_elem? hdr 0
  if not (magic == res_magic) && not (magic == req_magic)
      then some (record { n = n; err = some (bad_magic magic); res = res; reader = r })
      else receive_words res n hdr r

abbrev pub header_size : Bytes → ℕ
header_size hdr_bytes = if ltb (length hdr_bytes) hdr_len then hdr_len else length hdr_bytes

unfoldable pub receive_first : McResponse → ReadResult → Option Received
receive_first res first = elim first.err [
  | some e ↦ some (record { n = first.n; err = some (io e); res = res; reader = first.reader })
  | none ↦ receive_header res first.n first.buf first.reader
]

unfoldable pub receive : McResponse → Reader → Bytes → Option Received
receive res r hdr_bytes = receive_first res (read_full r (header_size hdr_bytes))
