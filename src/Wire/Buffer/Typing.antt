-- ===== src/Wire/Buffer/Typing.antt =====
-- Slices of bytes are bytes.
use gomemcached.Prelude.{ℕ, ◌-◌, ◌≡◌, some, Bytes, All, IsByte, All-take, All-drop, drop, arith}
use gomemcached.Wire.Buffer.{slice, slice_from}

pub All-slice :
    (buf : Bytes) (lo hi : ℕ) (out : Bytes)
    → All IsByte buf
    → slice buf lo hi ≡ some out
    → All IsByte out
unfolding slice
All-slice buf lo hi out h e =
    ground (arith, All-take IsByte (hi - lo) (drop lo buf) (All-drop IsByte lo buf h))

pub All-slice_from :
    (buf : Bytes) (lo : ℕ) (out : Bytes)
    → All IsByte buf
    → slice_from buf lo ≡ some out
    → All IsByte out
unfolding slice_from
All-slice_from buf lo out h e = ground (arith, All-drop IsByte lo buf h)
