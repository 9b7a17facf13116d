-- ===== src/Wire/Response/Typing.antt =====
-- `Receive` of mc_res.go on bytes: what it leaves is in the ranges of Go's types.
use gomemcached.Prelude.{
  ℕ, ◌≡◌, some, Bytes, All, IsByte, IsU16, IsU32, IsU64, All-get_elem?, uint16_bound, uint32_bound,
  uint64_bound, arith,
}
use gomemcached.Io.{Reader, ReadResult, read_full}
use gomemcached.Io.Typing.{IsRead, read_full-IsRead}
use gomemcached.Wire.Buffer.Typing.{All-slice, All-slice_from}
use gomemcached.Wire.Response.{
  McResponse, Received, receive, receive_first, receive_header, receive_words, receive_body,
  split_body, header_size,
}

-- Every field is in the range of its type.
pub record IsTyped (res : McResponse) : Type 0 where
  pub opcode : IsByte res.opcode
  pub cas : IsU64 res.cas
  pub opaque : IsU32 res.opaque
  pub status : IsU16 res.status
  pub extras : All IsByte res.extras
  pub key : All IsByte res.key
  pub body : All IsByte res.body

-- The packet and what is left of the stream.
abbrev pub Typed : Received → Type 0
Typed got = IsTyped got.res × All IsByte got.reader.input

split_body-IsTyped :
    (res : McResponse) (buf : Bytes) (klen elen : ℕ) (out : McResponse)
    → IsTyped res
    → All IsByte buf
    → split_body res buf klen elen ≡ some out
    → IsTyped out
unfolding split_body
split_body-IsTyped res buf klen elen out t h e = grind (arith, All-slice, All-slice_from)

receive_body-IsTyped :
    (res : McResponse) (n : ℕ) (rest : ReadResult) (klen elen : ℕ) (got : Received)
    → IsTyped res
    → IsRead rest
    → receive_body res n rest klen elen ≡ some got
    → Typed got
unfolding receive_body
receive_body-IsTyped res n rest klen elen got t r e = grind (arith, split_body-IsTyped)

receive_words-IsTyped :
    (res : McResponse) (n : ℕ) (hdr : Bytes) (r : Reader) (got : Received)
    → IsTyped res
    → All IsByte hdr
    → All IsByte r.input
    → receive_words res n hdr r ≡ some got
    → Typed got
unfolding receive_words
receive_words-IsTyped res n hdr r got t h i e = grind (
  arith,
  receive_body-IsTyped,
  read_full-IsRead,
  All-slice,
  All-get_elem? IsByte,
  uint16_bound,
  uint32_bound,
  uint64_bound,
)

receive_header-IsTyped :
    (res : McResponse) (n : ℕ) (hdr : Bytes) (r : Reader) (got : Received)
    → IsTyped res
    → All IsByte hdr
    → All IsByte r.input
    → receive_header res n hdr r ≡ some got
    → Typed got
unfolding receive_header
receive_header-IsTyped res n hdr r got t h i e = grind (arith, receive_words-IsTyped)

receive_first-IsTyped :
    (res : McResponse) (first : ReadResult) (got : Received)
    → IsTyped res
    → IsRead first
    → receive_first res first ≡ some got
    → Typed got
unfolding receive_first
receive_first-IsTyped res first got t r e = grind (arith, receive_header-IsTyped)

-- From a stream of bytes `Receive` leaves a response, whether it returns an error or not, whose fields
-- are in the ranges of their Go types (when those of the response that it was called on are) and
-- whose extras, key and body are bytes.
pub response_receive-IsTyped :
    (res : McResponse) (r : Reader) (hdr_bytes : Bytes) (got : Received)
    → IsTyped res
    → All IsByte r.input
    → receive res r hdr_bytes ≡ some got
    → Typed got
unfolding receive
response_receive-IsTyped res r hdr_bytes got t h e =
    receive_first-IsTyped res (read_full r (header_size hdr_bytes)) got t
      (read_full-IsRead r (header_size hdr_bytes) h) e
