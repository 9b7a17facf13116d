-- ===== src/Wire/Request/Consumption.antt =====
-- `Receive` of mc_req.go on any stream: its count is what it took, and an accepted packet has the
-- size that it says and a body within the limit.
use gomemcached.Prelude.{
  ℕ, ◌+◌, ◌≤◌, ◌≡◌, refl, none, some, Bytes, length, arith, length-drop, length-take,
}
use gomemcached.Io.{Reader, ReadResult, read_full}
use gomemcached.Wire.Buffer.{length-slice, length-slice_from}
use gomemcached.Wire.Layout.{hdr_len, max_body_len, WireError}
use gomemcached.Wire.Request.{
  McRequest, Received, size, receive, receive_first, receive_header, receive_lengths, receive_words,
  receive_body, split_body, header_size,
}

-- A result of a read that accounts for `before` bytes of input.
record Took (before size : ℕ) (r : ReadResult) : Type 0 where
  total : before ≡ r.n + length r.reader.input
  full : r.err ≡ none → (r.n ≡ size) × (length r.buf ≡ size)

read_full-Took : (r : Reader) (size : ℕ) → Took (length r.input) size (read_full r size)
unfolding read_full
read_full-Took r size = ground (arith, length-drop size r.input, length-take size r.input)

split_body-size :
    (req : McRequest) (buf : Bytes) (klen elen : ℕ) (out : McRequest)
    → split_body req buf klen elen ≡ some out
    → size out ≡ hdr_len + length buf
unfolding split_body size
split_body-size req buf klen elen out h = grind (arith, length-slice, length-slice_from)

split_body_bound :
    (req : McRequest) (buf : Bytes) (klen elen : ℕ) (out : McRequest)
    → split_body req buf klen elen ≡ some out
    → klen + elen + length out.body ≤ length buf
unfolding split_body
split_body_bound req buf klen elen out h = grind (arith, length-slice_from)

-- The count is what was taken of `before` bytes of input, and a packet without an error has the size
-- that was counted and a body within the limit.
unfoldable pub IsAccounted : ℕ → Received → Type 0
IsAccounted before res =
    (before ≡ res.n + length res.reader.input)
    × (res.err ≡ none → (res.n ≡ size res.req) × (length res.req.body ≤ max_body_len))

receive_body-IsAccounted :
    (req : McRequest) (before : ℕ) (rest : ReadResult) (klen elen body_len : ℕ) (res : Received)
    → Took before (klen + elen + body_len) rest
    → body_len ≤ max_body_len
    → receive_body req hdr_len rest klen elen ≡ some res
    → IsAccounted (hdr_len + before) res
unfolding receive_body IsAccounted
receive_body-IsAccounted req before rest klen elen body_len res t small h = ground (
  arith,
  t.full,
  split_body-size req rest.buf klen elen res.req,
  split_body_bound req rest.buf klen elen res.req,
)

-- An error that stops behind the header has taken the header.
error-IsAccounted :
    (er : WireError) (req : McRequest) (r : Reader)
    → IsAccounted
        (hdr_len + length r.input)
        (record { n = hdr_len; err = some er; req = req; reader = r })
unfolding IsAccounted
error-IsAccounted er req r = (refl, λ e. cc)

receive_payload-IsAccounted :
    (req : McRequest) (r : Reader) (klen elen body_len : ℕ) (res : Received)
    → body_len ≤ max_body_len
    → receive_body req hdr_len (read_full r (klen + elen + body_len)) klen elen ≡ some res
    → IsAccounted (hdr_len + length r.input) res
receive_payload-IsAccounted req r klen elen body_len res =
    receive_body-IsAccounted req (length r.input) (read_full r (klen + elen + body_len)) klen elen
      body_len res (read_full-Took r _)

receive_words-IsAccounted :
    (req : McRequest) (hdr : Bytes) (r : Reader) (klen elen body_len : ℕ) (res : Received)
    → body_len ≤ max_body_len
    → receive_words req hdr_len hdr r klen elen body_len ≡ some res
    → IsAccounted (hdr_len + length r.input) res
unfolding receive_words
receive_words-IsAccounted req hdr r klen elen body_len res small h =
    grind (arith, receive_payload-IsAccounted)

receive_lengths-IsAccounted :
    (req : McRequest) (hdr : Bytes) (r : Reader) (res : Received)
    → receive_lengths req hdr_len hdr r ≡ some res
    → IsAccounted (hdr_len + length r.input) res
unfolding receive_lengths
receive_lengths-IsAccounted req hdr r res h =
    grind (arith, receive_words-IsAccounted, error-IsAccounted)

receive_header-IsAccounted :
    (req : McRequest) (hdr : Bytes) (r : Reader) (res : Received)
    → receive_header req hdr_len hdr r ≡ some res
    → IsAccounted (hdr_len + length r.input) res
unfolding receive_header
receive_header-IsAccounted req hdr r res h =
    grind (arith, receive_lengths-IsAccounted, error-IsAccounted)

receive_first-IsAccounted :
    (req : McRequest) (before : ℕ) (first : ReadResult) (res : Received)
    → Took before hdr_len first
    → receive_first req first ≡ some res
    → IsAccounted before res
unfolding receive_first IsAccounted
receive_first-IsAccounted req before first res t h =
    ground (arith, t.full, receive_header-IsAccounted req first.buf first.reader res)

-- Whatever the stream holds, `Receive` counts the bytes that it takes from it; if it returns no
-- error the packet has the size that was counted, and a body within the limit.
pub receive-IsAccounted :
    (req : McRequest) (r : Reader) (hdr_bytes : Bytes) (res : Received)
    → length hdr_bytes ≤ hdr_len
    → receive req r hdr_bytes ≡ some res
    → IsAccounted (length r.input) res
unfolding receive
receive-IsAccounted req r hb res short h =
    let fixed : header_size hb ≡ hdr_len = ground arith in
    receive_first-IsAccounted req (length r.input) (read_full r hdr_len) res
      (read_full-Took r hdr_len) (rw fixed at h)
