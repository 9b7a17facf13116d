-- ===== src/Wire/Request/RoundTrip.antt =====
-- `Receive` after `Bytes`.
use gomemcached.Prelude.{
  ℕ, ◌+◌, ◌*◌, ◌%◌, ◌^◌, ◌≤◌, ◌≡◌, refl, ap, ◌∙◌, false, none, some, Bytes, [], ◌∷◌, ◌++◌, length,
  if◌then◌else◌, uint16, IsByte, IsU16, IsU32, IsU64, arith, append_assoc, inl, length-append, ◌⊎◌,
  le→not_ltb, le→leb, lt→ltb,
}
use gomemcached.Io.{IoError, read_full-append}
use gomemcached.Wire.Layout.{Fields, InRange, encode, IsMagic, req_magic, hdr_len, max_body_len}
use gomemcached.Wire.Opcode
use gomemcached.Wire.Request.{McRequest, size, bytes, receive, receive_body, has_engine_private}
use gomemcached.Wire.Request.Encoding.{request_fields, wire, bytes-layout, length-wire, payload}
use gomemcached.Wire.Request.Decoding.{
  receive-encode, receive_header_lem, split_body-append, body_length,
}

-- Every field of the request fits the bytes that the header has for it.
pub record Fits (req : McRequest) : Type 0 where
  pub opcode : IsByte req.opcode
  pub cas : IsU64 req.cas
  pub opaque : IsU32 req.opaque
  pub vbucket : IsU16 req.vbucket
  pub extras : IsByte (length req.extras)
  pub key : IsU16 (length req.key)
  pub body : length req.body ≤ max_body_len

-- The request is no TAP notification with engine private data: the opcode is another one, or the
-- length that its extras begin with is 0.
abbrev pub HasNoPrivate : McRequest → Type 0
HasNoPrivate req =
    (has_engine_private req.opcode (length (payload req)) ≡ false) ⊎ (uint16 (payload req) ≡ some 0)

-- The header of a packet that carries `req`, with `elen` bytes of extras outside the private data.
abbrev pub packet_fields : McRequest → ℕ → ℕ → ℕ → Fields
packet_fields req magic elen reserved = record {
  magic = magic;
  opcode = req.opcode;
  klen = length req.key;
  elen = elen;
  reserved = reserved;
  word = req.vbucket;
  total = length (payload req);
  opaque = req.opaque;
  cas = req.cas;
}

-- A packet of either magic whose lengths agree with what follows its header is received as it
-- stands, with the engine private data (`p` bytes) as a part of the extras.
pub receive-packet :
    (req0 req : McRequest) (magic elen reserved p : ℕ) (rest : Bytes) (e : IoError)
    (hdr_bytes : Bytes)
    → InRange (packet_fields req magic elen reserved)
    → IsMagic (packet_fields req magic elen reserved)
    → elen + p ≡ length req.extras
    → length req.body + p ≤ max_body_len
    → (if has_engine_private req.opcode (length (payload req))
        then uint16 (payload req)
        else some 0)
      ≡ some p
    → length hdr_bytes ≤ hdr_len
    → receive req0
        (record {
          input = encode (packet_fields req magic elen reserved) ++ (payload req ++ rest);
          ending = e;
        })
        hdr_bytes
      ≡ some (record {
        n = size req;
        err = none;
        req = req;
        reader = record { input = rest; ending = e };
      })
unfolding receive_body size
receive-packet req0 req m elen rsv p rest e hb range magic el fits priv short = rw (
  receive-encode req0 f (payload req ++ rest) e hb short,
  receive_header_lem req0 hdr_len f (record { input = payload req ++ rest; ending = e }) range
      magic,
  le→not_ltb max_body_len (body_length f) small,
  read_full-append (payload req) rest e (f.klen + f.elen + body_length f) whole,
  split_body-append
      (record req0 {
        opcode = req.opcode;
        vbucket = req.vbucket;
        opaque = req.opaque;
        cas = req.cas;
      })
      req.extras req.key req.body (length req.key) elen p refl el priv,
  count,
)
  where
    f : Fields
    f = packet_fields req m elen rsv

    lens : length (payload req) ≡ length req.extras + (length req.key + length req.body)
    lens =
        omega
          (arith, length-append req.extras (req.key ++ req.body), length-append req.key req.body)

    body : body_length f ≡ length req.body + p
    body = omega (arith, lens, range.total)

    small : body_length f ≤ max_body_len
    small = omega (arith, body)

    whole : f.klen + f.elen + body_length f ≡ length (payload req)
    whole = omega (arith, body, lens)

    count :
        hdr_len + (f.klen + f.elen + body_length f)
        ≡ hdr_len + length req.extras + length req.key + length req.body
    count = omega (arith, body)

no_private :
    (req : McRequest)
    → HasNoPrivate req
    → (if has_engine_private req.opcode (length (payload req))
        then uint16 (payload req)
        else some 0)
      ≡ some 0
no_private req h = ground arith

module _ (req : McRequest) (fits : Fits req) where
  length-payload : length (payload req) ≡ length req.extras + (length req.key + length req.body)
  length-payload =
      omega (arith, length-append req.extras (req.key ++ req.body), length-append req.key req.body)

  -- Under the bounds the header's lengths are the true ones.
  pub request_fields-packet : request_fields req ≡ packet_fields req req_magic (length req.extras) 0
  request_fields-packet =
      let k : length req.key % 2 ^ 16 ≡ length req.key = omega (arith, fits.key) in
      let x : length req.extras % 2 ^ 8 ≡ length req.extras = omega (arith, fits.extras) in
      let t : (length req.body + length req.key + length req.extras) % 2 ^ 32
          ≡ length (payload req) =
        omega (arith, length-payload, fits.key, fits.extras, fits.body) in
      rw (k, x, t)

  packet-InRange : InRange (packet_fields req req_magic (length req.extras) 0)
  packet-InRange = omega (arith, fits, length-payload)

  -- The packet on the wire, in the terms of `receive-packet`.
  wire-packet :
      (rest : Bytes)
      → wire req ++ rest
        ≡ encode (packet_fields req req_magic (length req.extras) 0) ++ (payload req ++ rest)
  wire-packet rest =
      ap (λ (f : Fields). (encode f ++ payload req) ++ rest) request_fields-packet
      ∙ append_assoc (encode (packet_fields req req_magic (length req.extras) 0)) (payload req) rest

  pub receive-wire :
      (req0 : McRequest) (rest : Bytes) (e : IoError) (hdr_bytes : Bytes)
      → HasNoPrivate req
      → length hdr_bytes ≤ hdr_len
      → receive req0 (record { input = wire req ++ rest; ending = e }) hdr_bytes
        ≡ some (record {
          n = size req;
          err = none;
          req = req;
          reader = record { input = rest; ending = e };
        })
  receive-wire req0 rest e hb plain short = rw (wire-packet rest) (
      receive-packet req0 req req_magic (length req.extras) 0 0 rest e hb packet-InRange (inl refl)
        (omega arith) (omega (arith, fits.body)) (no_private req plain) short)

-- For a request whose fields fit the header and that is no TAP notification with engine private data:
-- `Bytes` never panics and gives `Size` bytes, and `Receive`, with a header buffer of at most 24
-- bytes, reads them back into any request, whatever follows on the stream, and leaves the rest.
pub receive-bytes :
    (req : McRequest) (req0 : McRequest) (rest : Bytes) (e : IoError) (hdr_bytes : Bytes)
    → Fits req
    → HasNoPrivate req
    → length hdr_bytes ≤ hdr_len
    → (bs : Bytes) × (bytes req ≡ some bs)
      × (length bs ≡ size req)
      × (receive req0 (record { input = bs ++ rest; ending = e }) hdr_bytes
          ≡ some (record {
            n = size req;
            err = none;
            req = req;
            reader = record { input = rest; ending = e };
          }))
receive-bytes req req0 rest e hb fits plain short =
    (wire req, bytes-layout req, length-wire req, receive-wire req fits req0 rest e hb plain short)

private_data :
    (opcode a b : ℕ) (extras more priv tail : Bytes)
    → Opcode.tap_mutation ≤ opcode
    → opcode ≤ Opcode.tap_checkpoint_end
    → extras ≡ a ∷ b ∷ more ++ priv
    → length priv ≡ a * 2 ^ 8 + b
    → (if has_engine_private opcode (length (extras ++ tail))
        then uint16 (extras ++ tail)
        else some 0)
      ≡ some (length priv)
unfolding has_engine_private uint16
private_data opcode a b extras more priv tail lo hi ex lp = rw (
  ex,
  le→leb Opcode.tap_mutation opcode lo,
  le→leb opcode Opcode.tap_checkpoint_end hi,
  lt→ltb 1 (length (a ∷ b ∷ (more ++ priv) ++ tail)) (omega arith),
  lp,
)

-- A TAP notification whose engine private data, `priv` of a length that the first two bytes of the
-- extras give, stands behind the extras: `Receive` counts it to the extras.
pub receive_engine_private :
    (req req0 : McRequest) (a b : ℕ) (more priv rest : Bytes) (magic reserved : ℕ) (e : IoError)
    → Opcode.tap_mutation ≤ req.opcode
    → req.opcode ≤ Opcode.tap_checkpoint_end
    → req.extras ≡ a ∷ b ∷ more ++ priv
    → length priv ≡ a * 2 ^ 8 + b
    → InRange (packet_fields req magic (2 + length more) reserved)
    → IsMagic (packet_fields req magic (2 + length more) reserved)
    → length req.body + length priv ≤ max_body_len
    → receive req0
        (record {
          input =
              encode (packet_fields req magic (2 + length more) reserved) ++ (payload req ++ rest);
          ending = e;
        })
        []
      ≡ some (record {
        n = size req;
        err = none;
        req = req;
        reader = record { input = rest; ending = e };
      })
receive_engine_private req req0 a b more priv rest m rsv e lo hi ex lp range magic fits =
    let elen = ap length ex ∙ length-append (a ∷ b ∷ more) priv in
    receive-packet req0 req m (2 + length more) rsv (length priv) rest e [] range magic
      (omega (arith, elen)) fits
      (private_data req.opcode a b req.extras more priv (req.key ++ req.body) lo hi ex lp)
      (omega arith)
