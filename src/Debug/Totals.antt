-- ===== src/Debug/Totals.antt =====
-- What the counters of debug/mcdebug.go add up to.
use gomemcached.Prelude.{
  ℕ, zero, suc, ◌+◌, ◌%◌, ◌^◌, ◌<◌, ◌≤◌, ◌≡◌, refl, ◌∙◌, Bool, true, false, Option, some, List, [],
  ◌∷◌, All, length, ltb, if◌then◌else◌, ◌>>=◌, arith,
}
use gomemcached.GoMap.{bytes_eq}
use gomemcached.Debug.{McOps, add_at, count_outcome, count}

abbrev pub sum : List ℕ → ℕ
sum [] = 0
sum (x ∷ xs) = x + sum xs

-- A counter in range that does not wrap: the array keeps its length, and the sum goes up.
add_at-sum :
    (xs : List ℕ) (i n : ℕ)
    → i < length xs
    → sum xs + n < 2 ^ 64
    → (ys : List ℕ) × (add_at xs i n ≡ some ys) × (length ys ≡ length xs) × (sum ys ≡ sum xs + n)
unfolding add_at
add_at-sum [] i n h b = absurd (omega arith)
add_at-sum (x ∷ xs) zero n h b =
    let fits : (x + n) % 2 ^ 64 ≡ x + n = omega arith in
    ((x + n) ∷ xs, rw fits refl, refl, omega arith)
add_at-sum (x ∷ xs) (suc i) n h b =
    let (ys, e, l, s) = add_at-sum xs i n (omega arith) (omega arith) in
    (x ∷ ys, rw e refl, omega (arith, l), omega (arith, s))

-- The three arrays have a counter for every opcode and one more.
pub record IsMcOps (m : McOps) : Type 0 where
  pub moved : length m.moved ≡ 257
  pub success : length m.success ≡ 257
  pub errored : length m.errored ≡ 257

-- One call of a hook: the index, the bytes, and whether there was an error.
pub record Call : Type 0 where
  pub index : ℕ
  pub n : ℕ
  pub failed : Bool

abbrev pub IsCall : Call → Type 0
IsCall c = c.index ≤ 256

abbrev pub bytes_of : List Call → ℕ
bytes_of [] = 0
bytes_of (c ∷ cs) = c.n + bytes_of cs

-- count on every call.
abbrev pub count_all : McOps → List Call → Option McOps
count_all m [] = some m
count_all m (c ∷ cs) = do m ← count m c.index c.n c.failed; count_all m cs

-- What some calls and bytes have done to the counters.
pub record Counted (m m' : McOps) (calls n : ℕ) : Type 0 where
  pub ops : IsMcOps m'
  pub outcomes : sum m'.success + sum m'.errored ≡ sum m.success + sum m.errored + calls
  pub moved : sum m'.moved ≡ sum m.moved + n

outcome-Counted :
    (m : McOps) (i : ℕ) (failed : Bool)
    → IsMcOps m
    → i ≤ 256
    → sum m.success + sum m.errored + 1 < 2 ^ 64
    → (m' : McOps) × (count_outcome m i failed ≡ some m') × Counted m m' 1 0
unfolding count_outcome
outcome-Counted m i false o h b =
    let (xs, e, l, s) = add_at-sum m.success i 1 (omega (arith, o.success)) (omega arith) in
    (
      record m { success = xs },
      rw e refl,
      record {
        ops = record { moved = o.moved; success = l ∙ o.success; errored = o.errored };
        outcomes = omega (arith, s);
        moved = omega arith;
      },
    )
outcome-Counted m i true o h b =
    let (xs, e, l, s) = add_at-sum m.errored i 1 (omega (arith, o.errored)) (omega arith) in
    (
      record m { errored = xs },
      rw e refl,
      record {
        ops = record { moved = o.moved; success = o.success; errored = l ∙ o.errored };
        outcomes = omega (arith, s);
        moved = omega arith;
      },
    )

index_small : (n i : ℕ) → i ≤ 256 → (if ltb n 2 then 256 else i) ≤ 256
index_small n i h = ground arith

count-Counted :
    (m : McOps) (c : Call)
    → IsMcOps m
    → IsCall c
    → sum m.success + sum m.errored + 1 < 2 ^ 64
    → sum m.moved + c.n < 2 ^ 64
    → (m' : McOps) × (count m c.index c.n c.failed ≡ some m') × Counted m m' 1 c.n
unfolding count
count-Counted m c o h b1 b2 =
    let i = if ltb c.n 2 then 256 else c.index in
    let small = index_small c.n c.index h in
    let (m1, e1, k) = outcome-Counted m i c.failed o small b1 in
    let (xs, e2, l, s) =
      add_at-sum m1.moved i c.n (omega (arith, k.ops.moved, small)) (omega (arith, k.moved)) in
    (
      record m1 { moved = xs },
      rw (e1, e2) refl,
      record {
        ops = record { moved = l ∙ k.ops.moved; success = k.ops.success; errored = k.ops.errored };
        outcomes = k.outcomes;
        moved = omega (arith, s, k.moved);
      },
    )

-- The counters, while they do not wrap, never panic on calls with an opcode or the index of what is
-- not known, and keep count: the successes and errors have gone up by the number of the calls
-- together, and the bytes moved by theirs.
pub count_all-Counted :
    (cs : List Call) (m : McOps)
    → IsMcOps m
    → All IsCall cs
    → sum m.success + sum m.errored + length cs < 2 ^ 64
    → sum m.moved + bytes_of cs < 2 ^ 64
    → (m' : McOps) × (count_all m cs ≡ some m') × Counted m m' (length cs) (bytes_of cs)
count_all-Counted [] m o h b1 b2 =
    (m, refl, record { ops = o; outcomes = omega arith; moved = omega arith })
count_all-Counted (c ∷ cs) m o (h, hs) b1 b2 =
    let (m1, e1, k1) = count-Counted m c o h (omega arith) (omega arith) in
    let (m2, e2, k2) =
      count_all-Counted cs m1 k1.ops hs (omega (arith, k1.outcomes)) (omega (arith, k1.moved)) in
    (
      m2,
      rw (e1, e2) refl,
      record {
        ops = k2.ops;
        outcomes = omega (arith, k1.outcomes, k2.outcomes);
        moved = omega (arith, k1.moved, k2.moved);
      },
    )
