-- ===== src/Wire/Response/Consumption.antt =====
-- `Receive` of mc_res.go on any stream: its count is what it took.
use gomemcached.Prelude.{ℕ, ◌+◌, ◌≡◌, some, Bytes, length, arith, length-drop, length-take}
use gomemcached.Io.{Reader, ReadResult, read_full}
use gomemcached.Wire.Response.{
  McResponse, Received, receive, receive_first, receive_header, receive_words, receive_body,
  header_size,
}

-- A result of a read that accounts for `before` bytes of input.
abbrev Took : ℕ → ReadResult → Type 0
Took before r = before ≡ r.n + length r.reader.input

abbrev pub Counts : ℕ → Received → Type 0
Counts before got = before ≡ got.n + length got.reader.input

read_full-Took : (r : Reader) (size : ℕ) → Took (length r.input) (read_full r size)
unfolding read_full
read_full-Took r size = ground (arith, length-drop size r.input, length-take size r.input)

receive_body-Counts :
    (res : McResponse) (n before : ℕ) (rest : ReadResult) (klen elen : ℕ) (got : Received)
    → Took before rest
    → receive_body res n rest klen elen ≡ some got
    → Counts (n + before) got
unfolding receive_body
receive_body-Counts res n before rest klen elen got t h = grind arith

receive_words-Counts :
    (res : McResponse) (n : ℕ) (hdr : Bytes) (r : Reader) (got : Received)
    → receive_words res n hdr r ≡ some got
    → Counts (n + length r.input) got
unfolding receive_words
receive_words-Counts res n hdr r got h = grind (arith, receive_body-Counts, read_full-Took)

receive_header-Counts :
    (res : McResponse) (n : ℕ) (hdr : Bytes) (r : Reader) (got : Received)
    → receive_header res n hdr r ≡ some got
    → Counts (n + length r.input) got
unfolding receive_header
receive_header-Counts res n hdr r got h = grind (arith, receive_words-Counts)

receive_first-Counts :
    (res : McResponse) (before : ℕ) (first : ReadResult) (got : Received)
    → Took before first
    → receive_first res first ≡ some got
    → Counts before got
unfolding receive_first
receive_first-Counts res before first got t h = grind (arith, receive_header-Counts)

-- Whatever the stream holds, `Receive` counts the bytes that it takes from it.
pub response_receive-Counts :
    (res : McResponse) (r : Reader) (hdr_bytes : Bytes) (got : Received)
    → receive res r hdr_bytes ≡ some got
    → Counts (length r.input) got
unfolding receive
response_receive-Counts res r hdr_bytes got h =
    receive_first-Counts res (length r.input) (read_full r (header_size hdr_bytes)) got
      (read_full-Took r (header_size hdr_bytes)) h
