-- ===== src/Wire/Response/Progress.antt =====
-- `Receive` of mc_res.go on any stream: what it needs in order to return, and that it takes bytes.
use gomemcached.Prelude.{
  ℕ, ◌≤◌, ◌<◌, ◌≡◌, ◌≢◌, ◌⊎◌, inl, inr, none, some, Bytes, length, arith, length-drop, Option-cases,
}
use gomemcached.Io.{Reader, ReadResult, read_full}
use gomemcached.Wire.Layout.{io}
use gomemcached.Wire.Response.{
  McResponse, Received, receive, receive_first, receive_header, receive_words, receive_body,
  header_size,
}

read_full_shrinks :
    (r : Reader) (size : ℕ) → length (read_full r size).reader.input ≤ length r.input
unfolding read_full
read_full_shrinks r size = ground (arith, length-drop size r.input)

read_full_takes :
    (r : Reader) (size : ℕ)
    → 0 < size
    → (read_full r size).err ≡ none
    → length (read_full r size).reader.input < length r.input
unfolding read_full
read_full_takes r size pos h = ground (arith, length-drop size r.input)

receive_body_shrinks :
    (res : McResponse) (n : ℕ) (rest : ReadResult) (klen elen : ℕ) (got : Received)
    → receive_body res n rest klen elen ≡ some got
    → got.reader ≡ rest.reader
unfolding receive_body
receive_body_shrinks res n rest klen elen got h = ground (arith, h)

receive_words_shrinks :
    (res : McResponse) (n : ℕ) (hdr : Bytes) (r : Reader) (got : Received)
    → receive_words res n hdr r ≡ some got
    → length got.reader.input ≤ length r.input
unfolding receive_words
receive_words_shrinks res n hdr r got h = grind (arith, receive_body_shrinks, read_full_shrinks)

-- An error of the header's read leaves the response as it was; anything else has taken a byte.
pub receive_takes :
    (res : McResponse) (r : Reader) (hdr_bytes : Bytes) (got : Received)
    → receive res r hdr_bytes ≡ some got
    → (length got.reader.input < length r.input) ⊎ ((got.res ≡ res) × (got.err ≢ none))
unfolding receive receive_first receive_header
receive_takes res r hdr_bytes got h =
    elim (Option-cases (read_full r (header_size hdr_bytes)).err) [
      | inl e ↦
          let less = read_full_takes r (header_size hdr_bytes) (ground arith) e in
          inl (grind (arith, e, less, receive_words_shrinks))
      | inr (er, e) ↦
          inr (cc (rw e at h), let it : got.err ≡ some (io er) = cc (rw e at h) in rw it (λ z. cc))
    ]
