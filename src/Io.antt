-- ===== src/Io.antt =====
-- The parts of Go's `io` package that the program uses: a reader and a writer over one byte
-- stream, `io.ReadFull` and `Write`. How the network cuts the stream into chunks is not visible to
-- the program, since `ReadFull` loops until its buffer is full or the stream ends.
pub mod Typing
use gomemcached.Prelude.{
  ℕ, suc, ◌-◌, ◌≤◌, ◌<◌, ◌≡◌, refl, ap, Option, none, some, Bytes, [], ◌++◌, length, take, drop,
  leb, if◌then◌else◌, arith, length-append, take-append_length, drop-append_length, le→leb,
  lt→not_leb, take_all, sym,
}

-- io.EOF, io.ErrUnexpectedEOF, and any other error of a transport, by a number.
pub data IoError : Type 0 where
  eof unexpected_eof : IoError
  fault : ℕ → IoError

-- What is still to be read, and the error that every later read returns.
pub record Reader : Type 0 where
  pub input : Bytes
  pub ending : IoError

-- The result of a read: the count, the error (`none` is Go's nil), the bytes and the reader after.
pub record ReadResult : Type 0 where
  pub n : ℕ
  pub err : Option IoError
  pub buf : Bytes
  pub reader : Reader

-- A stream that ends after some bytes of the buffer makes an EOF unexpected.
unfoldable pub short_read : ℕ → IoError → IoError
short_read (suc n) eof = unexpected_eof
short_read _ e = e

-- io.ReadFull(r, buf) with a buffer of `size` bytes.
unfoldable pub read_full : Reader → ℕ → ReadResult
read_full r size =
    if leb size (length r.input)
    then record {
      n = size;
      err = none;
      buf = take size r.input;
      reader = record r { input = drop size r.input };
    }
    else record {
      n = length r.input;
      err = some (short_read (length r.input) r.ending);
      buf = r.input;
      reader = record r { input = [] };
    }

-- A writer has the bytes that went out, and room for the bytes that it still takes before it fails
-- with `fault` (`none`: it never fails). A failing write may have sent a part.
pub record Writer : Type 0 where
  pub sent : Bytes
  pub room : Option ℕ
  pub failure : IoError

pub record WriteResult : Type 0 where
  pub n : ℕ
  pub err : Option IoError
  pub writer : Writer

unfoldable pub write_limited : Writer → ℕ → Bytes → WriteResult
write_limited w room bs =
    if leb (length bs) room
    then record {
      n = length bs;
      err = none;
      writer = record w { sent = w.sent ++ bs; room = some (room - length bs) };
    }
    else record {
      n = room;
      err = some w.failure;
      writer = record w { sent = w.sent ++ take room bs; room = some 0 };
    }

abbrev write_to : Option ℕ → Writer → Bytes → WriteResult
write_to none w bs = record { n = length bs; err = none; writer = record w { sent = w.sent ++ bs } }
write_to (some room) w bs = write_limited w room bs

-- w.Write(bs)
unfoldable pub write : Writer → Bytes → WriteResult
unfolding write_limited
write w bs = write_to w.room w bs

-- A reader that still holds `front` fills a buffer of that size with it.
pub read_full-append :
    (front rest : Bytes) (e : IoError) (size : ℕ)
    → size ≡ length front
    → read_full (record { input = front ++ rest; ending = e }) size
      ≡ record { n = size; err = none; buf = front; reader = record { input = rest; ending = e } }
unfolding read_full
read_full-append front rest e size h = rw (
  le→leb size (length (front ++ rest)) (omega (arith, length-append front rest)),
  take-append_length size front rest h,
  drop-append_length size front rest h,
)

-- A reader that holds less than the buffer takes all of it and reports the end.
pub read_full_short :
    (r : Reader) (size : ℕ)
    → length r.input < size
    → read_full r size ≡ record {
      n = length r.input;
      err = some (short_read (length r.input) r.ending);
      buf = r.input;
      reader = record r { input = [] };
    }
unfolding read_full
read_full_short r size h = rw (lt→not_leb size (length r.input) h)

-- Without a limit every write sends all its bytes.
pub write_unlimited :
    (w : Writer) (bs : Bytes)
    → w.room ≡ none
    → write w bs ≡ record { n = length bs; err = none; writer = record w { sent = w.sent ++ bs } }
unfolding write
write_unlimited w bs h = rw h

-- What any write does: it sends a front of the bytes, of the length that it counts, and returns no
-- error exactly when that is all of them.
pub record Wrote (w : Writer) (bs : Bytes) (r : WriteResult) : Type 0 where
  pub sent : r.writer.sent ≡ w.sent ++ take r.n bs
  pub within : r.n ≤ length bs
  pub full : r.err ≡ none → r.n ≡ length bs
  pub done : r.n ≡ length bs → r.err ≡ none

write_limited-Wrote : (w : Writer) (room : ℕ) (bs : Bytes) → Wrote w bs (write_limited w room bs)
unfolding write_limited
write_limited-Wrote w room bs = ground (arith, take_all (length bs) bs)

write_to-Wrote : (room : Option ℕ) (w : Writer) (bs : Bytes) → Wrote w bs (write_to room w bs)
write_to-Wrote none w bs = record {
  sent = ap (λ (t : Bytes). w.sent ++ t) (sym (take_all (length bs) bs (omega arith)));
  within = omega arith;
  full = λ _. refl;
  done = λ _. refl;
}
write_to-Wrote (some room) w bs = write_limited-Wrote w room bs

pub write-Wrote : (w : Writer) (bs : Bytes) → Wrote w bs (write w bs)
unfolding write
write-Wrote w bs = write_to-Wrote w.room w bs
