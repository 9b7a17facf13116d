-- ===== src/Wire/Request/Decoding.antt =====
-- What `Receive` of mc_req.go makes of a header whose fields are known.
use gomemcached.Prelude.{
  ℕ, ◌+◌, ◌≤◌, ◌≡◌, refl, sym, false, some, Bytes, [], ◌++◌, length, drop, ltb, ◌==◌, if◌then◌else◌,
  uint16, uint16_put, uint32_put, uint64_put, sub_uint32, arith, append_assoc, length-append, not,
  ◌&&◌,
}
use gomemcached.Io.{IoError, Reader, read_full, read_full-append}
use gomemcached.Wire.Buffer.{slice_from, slice-append, slice_from-append}
use gomemcached.Wire.Layout.{Fields, InRange, encode, IsMagic, req_magic, res_magic}
use gomemcached.Wire.Request.{
  McRequest, too_big, hdr_len, max_body_len, receive, receive_header, receive_lengths,
  receive_words, receive_body, receive_first, header_size, split_body, has_engine_private,
}

-- The length that `Receive` takes the body to have.
abbrev pub body_length : Fields → ℕ
body_length f = sub_uint32 (sub_uint32 f.total f.klen) f.elen

magic_test :
    (f : Fields) → IsMagic f → (not (f.magic == res_magic) && not (f.magic == req_magic)) ≡ false
magic_test f h = ground arith

pub receive_header_lem :
    (req : McRequest) (n : ℕ) (f : Fields) (r : Reader)
    → InRange f
    → IsMagic f
    → receive_header req n (encode f) r ≡ (
        if ltb max_body_len (body_length f)
        then some (record {
          n = n;
          err = some (too_big (body_length f) max_body_len);
          req = record req { opcode = f.opcode; vbucket = f.word };
          reader = r;
        })
        else receive_body
            (record req { opcode = f.opcode; vbucket = f.word; opaque = f.opaque; cas = f.cas })
            n
            (read_full r (f.klen + f.elen + body_length f))
            f.klen
            f.elen)
unfolding receive_header receive_lengths receive_words slice_from
receive_header_lem req n f r h m = rw (
  magic_test f m,
  uint16_put f.klen (drop 4 (encode f)) h.klen,
  uint16_put f.word (drop 8 (encode f)) h.word,
  uint32_put f.total (drop 12 (encode f)) h.total,
  uint32_put f.opaque (drop 16 (encode f)) h.opaque,
  uint64_put f.cas [] h.cas,
)

-- The header and what follows it, with a header buffer as the callers have it.
pub receive-encode :
    (req : McRequest) (f : Fields) (rest : Bytes) (e : IoError) (hdr_bytes : Bytes)
    → length hdr_bytes ≤ hdr_len
    → receive req (record { input = encode f ++ rest; ending = e }) hdr_bytes
      ≡ receive_header req hdr_len (encode f) (record { input = rest; ending = e })
unfolding receive receive_first
receive-encode req f rest e hdr_bytes h =
    let size : header_size hdr_bytes ≡ hdr_len = ground arith in
    rw (size, read_full-append (encode f) rest e hdr_len refl)

-- Behind a good header the reader holds extras, engine private data, key and body: the private
-- data joins the extras.
pub split_body-append :
    (req : McRequest) (extras key body : Bytes) (klen elen private_len : ℕ)
    → klen ≡ length key
    → elen + private_len ≡ length extras
    → (if has_engine_private req.opcode (length (extras ++ (key ++ body)))
        then uint16 (extras ++ (key ++ body))
        else some 0)
      ≡ some private_len
    → split_body req (extras ++ (key ++ body)) klen elen
      ≡ some (record req { extras = extras; key = key; body = body })
unfolding split_body
split_body-append req extras key body klen elen p hk he hp = rw (
  hp,
  slice-append [] extras (key ++ body) 0 (elen + p) refl (omega arith),
  slice-append extras key body (elen + p) (klen + (elen + p)) he (omega arith),
  sym (append_assoc extras key body),
  slice_from-append (extras ++ key) body (klen + (elen + p))
      (omega (arith, length-append extras key)),
)
