-- ===== src/Io/Typing.antt =====
-- What io.ReadFull takes from a stream of bytes are bytes.
use gomemcached.Prelude.{ℕ, All, IsByte, All-take, All-drop, length, leb, Bool-cases, inl, inr}
use gomemcached.Io.{Reader, ReadResult, read_full}

pub record IsRead (got : ReadResult) : Type 0 where
  pub buf : All IsByte got.buf
  pub left : All IsByte got.reader.input

pub read_full-IsRead : (r : Reader) (size : ℕ) → All IsByte r.input → IsRead (read_full r size)
unfolding read_full
read_full-IsRead r size h = elim (Bool-cases (leb size (length r.input))) [
  | inl e ↦
      rw e (record { buf = All-take IsByte size r.input h; left = All-drop IsByte size r.input h })
  | inr e ↦ rw e (record { buf = h; left = tt })
]
