-- ===== src/Wire/Layout.antt =====
-- What the two kinds of packets share: the constants, the errors of reception, and the layout of a
-- header, stated without buffers or positions. Requests have the vbucket where responses have the
-- status (`word`).
use gomemcached.Prelude.{
  ℕ, ◌≡◌, ◌⊎◌, Bytes, ◌∷◌, ◌++◌, put_uint16, put_uint32, put_uint64, IsByte, IsU16, IsU32, IsU64,
}
use gomemcached.Io.{IoError}

abbrev pub req_magic : ℕ
req_magic = 0x80

abbrev pub res_magic : ℕ
res_magic = 0x81

abbrev pub hdr_len : ℕ
hdr_len = 24

-- A variable of the package that nothing in the repository assigns.
abbrev pub max_body_len : ℕ
max_body_len = 1_000_000

-- The errors that the package's functions return.
pub data WireError : Type 0 where
  io : IoError → WireError
  bad_magic : ℕ → WireError
  too_big : ℕ → ℕ → WireError

-- The fields of a header.
pub record Fields : Type 0 where
  pub magic : ℕ
  pub opcode : ℕ
  pub klen : ℕ
  pub elen : ℕ
  pub reserved : ℕ
  pub word : ℕ
  pub total : ℕ
  pub opaque : ℕ
  pub cas : ℕ

-- Every field is in the range of its bytes, as it is in whatever a peer sends.
pub record InRange (f : Fields) : Type 0 where
  pub magic : IsByte f.magic
  pub opcode : IsByte f.opcode
  pub klen : IsU16 f.klen
  pub elen : IsByte f.elen
  pub reserved : IsByte f.reserved
  pub word : IsU16 f.word
  pub total : IsU32 f.total
  pub opaque : IsU32 f.opaque
  pub cas : IsU64 f.cas

abbrev pub encode : Fields → Bytes
encode f =
    f.magic
    ∷ f.opcode
    ∷ (put_uint16 f.klen
        ++ (f.elen
            ∷ f.reserved
            ∷ (put_uint16 f.word
                ++ (put_uint32 f.total ++ (put_uint32 f.opaque ++ put_uint64 f.cas)))))

abbrev pub IsMagic : Fields → Type 0
IsMagic f = (f.magic ≡ req_magic) ⊎ (f.magic ≡ res_magic)
