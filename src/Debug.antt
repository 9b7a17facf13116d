-- ===== src/Debug.antt =====
-- debug/mcdebug.go: the counters of operations that the hooks of the client package keep, and their
-- report. Its text in JSON is left out.
pub mod Totals
pub mod Reports
pub mod Hooks
use gomemcached.Prelude.{
  ℕ, zero, suc, ◌+◌, ◌%◌, ◌^◌, Bool, true, false, Option, none, some, Bytes, List, [], ◌∷◌,
  replicate, ltb, if◌then◌else◌, ◌>>=◌,
}
use gomemcached.GoMap.{GoMap, lookup, insert, bytes_eq}
use gomemcached.Text.{codes}
use gomemcached.Wire.Texts.{command_text}
use gomemcached.Wire.Request.{McRequest}
use gomemcached.Wire.Response.{McResponse}

-- mcops, by opcode and one counter more for what is not known.
pub record McOps : Type 0 where
  pub moved : List ℕ
  pub success : List ℕ
  pub errored : List ℕ

abbrev pub new_ops : McOps
new_ops = record { moved = replicate 257 0; success = replicate 257 0; errored = replicate 257 0 }

-- atomic.AddUint64(&a[i], n), which wraps, and panics out of range.
unfoldable pub add_at : List ℕ → ℕ → ℕ → Option (List ℕ)
add_at [] i n = none
add_at (x ∷ xs) zero n = some ((x + n) % 2 ^ 64 ∷ xs)
add_at (x ∷ xs) (suc i) n = do xs ← add_at xs i n; some (x ∷ xs)

-- The counter of the outcome; `failed` is err != nil.
unfoldable pub count_outcome : McOps → ℕ → Bool → Option McOps
count_outcome m i false = do success ← add_at m.success i 1; some (record m { success = success })
count_outcome m i true = do errored ← add_at m.errored i 1; some (record m { errored = errored })

-- count
unfoldable pub count : McOps → ℕ → ℕ → Bool → Option McOps
count m i n failed = do
  let i = if ltb n 2 then 256 else i
  m ← count_outcome m i failed
  moved ← add_at m.moved i n
  some (record m { moved = moved })

abbrev pub req_index : Option McRequest → ℕ
req_index none = 256
req_index (some req) = req.opcode

abbrev pub res_index : Option McResponse → ℕ
res_index none = 256
res_index (some res) = res.opcode

-- countReq
abbrev pub count_req : McOps → Option McRequest → ℕ → Bool → Option McOps
count_req m req n failed = count m (req_index req) n failed

-- countRes
abbrev pub count_res : McOps → Option McResponse → ℕ → Bool → Option McOps
count_res m res n failed = count m (res_index res) n failed

abbrev pub unknown : Bytes
unknown = codes "unknown"

abbrev pub total : Bytes
total = codes "total"

-- The name of a counter in a report.
abbrev pub key_of : ℕ → Bytes
key_of i = if ltb i 256 then command_text i else unknown

abbrev pub or_zero : Option ℕ → ℕ
or_zero none = 0
or_zero (some v) = v

-- addToMap for one counter.
unfoldable pub add_to_map : ℕ → ℕ → GoMap Bytes ℕ → GoMap Bytes ℕ
add_to_map i v m =
    let m' = insert (key_of i) v m in
    if ltb 0 v then insert total ((or_zero (lookup total m') + v) % 2 ^ 64) m' else m

-- The loop of String over the counters of one array, from position `i`.
unfoldable pub add_all : ℕ → List ℕ → GoMap Bytes ℕ → GoMap Bytes ℕ
add_all i [] m = m
add_all i (v ∷ vs) m = add_all (suc i) vs (add_to_map i v m)

-- The map that String makes of one array.
abbrev pub report : List ℕ → GoMap Bytes ℕ
report counters = add_all 0 counters []
