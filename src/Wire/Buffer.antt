-- ===== src/Wire/Buffer.antt =====
-- Byte buffers as Go has them: writes and slices by position, with a panic (`none`) out of range.
pub mod Typing
use gomemcached.Prelude.{
  ℕ, zero, suc, ◌+◌, ◌-◌, ◌≤◌, ◌<◌, ◌≡◌, refl, sym, ap, Option, none, some, Bytes, [], ◌∷◌, ◌++◌,
  length, take, drop, replicate, ltb, leb, if◌then◌else◌, ◌>>=◌, ◌&&◌, arith, length-append,
  length-replicate, take-append_length, drop-append_length, le→leb, lt→ltb, length-take,
  length-drop, append_assoc, append-nil,
}

-- data[pos] = b for one byte, PutUintN(data[pos:pos+n], v), and copy(data[pos:pos+len(src)], src).
-- The capacity of every buffer here is its length.
unfoldable pub write_at : Bytes → ℕ → Bytes → Option Bytes
write_at buf pos src =
    if leb (pos + length src) (length buf)
    then some (take pos buf ++ (src ++ drop (pos + length src) buf))
    else none

-- if len(src) > 0 { copy(data[pos:pos+len(src)], src); pos += len(src) }
unfoldable pub copy_field : Bytes → ℕ → Bytes → Option (Bytes × ℕ)
copy_field buf pos src =
    if ltb 0 (length src)
    then (do buf' ← write_at buf pos src; some (buf', pos + length src))
    else some (buf, pos)

-- data[lo:hi]
unfoldable pub slice : Bytes → ℕ → ℕ → Option Bytes
slice buf lo hi =
    if leb lo hi && leb hi (length buf) then some (take (hi - lo) (drop lo buf)) else none

-- data[lo:]
unfoldable pub slice_from : Bytes → ℕ → Option Bytes
slice_from buf lo = if leb lo (length buf) then some (drop lo buf) else none

-- make([]byte, n)
abbrev pub make_bytes : ℕ → Bytes
make_bytes n = replicate n 0

-- A write over bytes `old` of the same number replaces them.
pub write_at-fits :
    (pre old post src : Bytes) (pos : ℕ)
    → pos ≡ length pre
    → length old ≡ length src
    → write_at (pre ++ (old ++ post)) pos src ≡ some (pre ++ (src ++ post))
unfolding write_at
write_at-fits pre old post src pos hp hs = rw (
  le→leb (pos + length src) (length (pre ++ (old ++ post))) fits,
  take-append_length pos pre (old ++ post) hp,
  sym (append_assoc pre old post),
  drop-append_length (pos + length src) (pre ++ old) post cut,
)
  where
    fits : pos + length src ≤ length (pre ++ (old ++ post))
    fits = omega (arith, length-append pre (old ++ post), length-append old post)

    cut : pos + length src ≡ length (pre ++ old)
    cut = omega (arith, length-append pre old)

make_bytes-add : (n m : ℕ) → make_bytes (n + m) ≡ make_bytes n ++ make_bytes m
make_bytes-add zero m = ap make_bytes (omega arith)
make_bytes-add (suc n) m =
    let e : suc n + m ≡ suc (n + m) = omega arith in
    rw e (ap (λ (t : Bytes). 0 ∷ t) (make_bytes-add n m))

-- Filling a fresh buffer from the left: `pre` is written, and of `n` zero bytes `m` are left.
pub write_at-zeros :
    (pre src : Bytes) (pos n m : ℕ)
    → pos ≡ length pre
    → n ≡ length src + m
    → write_at (pre ++ make_bytes n) pos src ≡ some ((pre ++ src) ++ make_bytes m)
write_at-zeros pre src pos n m hp hn =
    rw
      (
        hn,
        make_bytes-add (length src) m,
        write_at-fits pre (make_bytes (length src)) (make_bytes m) src pos hp
            (length-replicate (length src) 0),
      )
      (ap some (sym (append_assoc pre src (make_bytes m))))

-- Skipping `k` bytes of a fresh buffer leaves them zero.
pub skip_zeros :
    (pre : Bytes) (k n m : ℕ)
    → n ≡ k + m
    → pre ++ make_bytes n ≡ (pre ++ make_bytes k) ++ make_bytes m
skip_zeros pre k n m h =
    rw (h, make_bytes-add k m) (sym (append_assoc pre (make_bytes k) (make_bytes m)))

pub copy_field-zeros :
    (pre src : Bytes) (pos n m : ℕ)
    → pos ≡ length pre
    → n ≡ length src + m
    → copy_field (pre ++ make_bytes n) pos src
      ≡ some ((pre ++ src) ++ make_bytes m, pos + length src)
unfolding copy_field
copy_field-zeros pre [] pos n m hp hn =
    let e : n ≡ m = omega arith in let e' : pos + 0 ≡ pos = omega arith in rw (e, append-nil, e')
copy_field-zeros pre (b ∷ bs) pos n m hp hn =
    rw (lt→ltb 0 (length (b ∷ bs)) (omega arith), write_at-zeros pre (b ∷ bs) pos n m hp hn)

-- A write that fills what is left of the buffer.
pub write_at_rest :
    (pre src : Bytes) (pos : ℕ)
    → pos ≡ length pre
    → write_at (pre ++ make_bytes (length src)) pos src ≡ some (pre ++ src)
write_at_rest pre src pos hp =
    rw (write_at-zeros pre src pos (length src) 0 hp (omega arith)) (ap some (append-nil _))

-- The same under the test that skips an empty source.
pub write_at_rest_test :
    (pre src : Bytes) (pos : ℕ)
    → pos ≡ length pre
    → (if ltb 0 (length src)
        then write_at (pre ++ make_bytes (length src)) pos src
        else some (pre ++ make_bytes (length src)))
      ≡ some (pre ++ src)
write_at_rest_test pre [] pos hp = refl
write_at_rest_test pre (b ∷ bs) pos hp =
    rw (lt→ltb 0 (length (b ∷ bs)) (omega arith)) (write_at_rest pre (b ∷ bs) pos hp)

pub slice-append :
    (pre mid post : Bytes) (lo hi : ℕ)
    → lo ≡ length pre
    → hi ≡ lo + length mid
    → slice (pre ++ (mid ++ post)) lo hi ≡ some mid
unfolding slice
slice-append pre mid post lo hi hl hh =
    let whole = length-append pre (mid ++ post) in
    rw (
      le→leb lo hi (omega arith),
      le→leb hi (length (pre ++ (mid ++ post))) (omega (arith, whole, length-append mid post)),
      drop-append_length lo pre (mid ++ post) hl,
      take-append_length (hi - lo) mid post (omega arith),
    )

pub slice_from-append :
    (pre post : Bytes) (lo : ℕ) → lo ≡ length pre → slice_from (pre ++ post) lo ≡ some post
unfolding slice_from
slice_from-append pre post lo hl = rw (
  le→leb lo (length (pre ++ post)) (omega (arith, length-append pre post)),
  drop-append_length lo pre post hl,
)

-- An upper bound past the end of the buffer panics.
pub slice_panics : (buf : Bytes) (lo hi : ℕ) → length buf < hi → slice buf lo hi ≡ none
unfolding slice
slice_panics buf lo hi h = ground arith

-- So does one below the lower.
pub slice_below : (buf : Bytes) (lo hi : ℕ) → hi < lo → slice buf lo hi ≡ none
unfolding slice
slice_below buf lo hi h = ground arith

pub length-slice :
    (buf : Bytes) (lo hi : ℕ) (out : Bytes)
    → slice buf lo hi ≡ some out
    → (length out + lo ≡ hi) × (hi ≤ length buf)
unfolding slice
length-slice buf lo hi out h =
    ground (arith, length-take (hi - lo) (drop lo buf), length-drop lo buf)

pub length-slice_from :
    (buf : Bytes) (lo : ℕ) (out : Bytes)
    → slice_from buf lo ≡ some out
    → length out + lo ≡ length buf
unfolding slice_from
length-slice_from buf lo out h = ground (arith, length-drop lo buf)
