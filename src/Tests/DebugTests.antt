-- ===== src/Tests/DebugTests.antt =====
-- The counters of debug/mcdebug.go at concrete inputs.
use gomemcached.Prelude.{ℕ, ◌≡◌, refl, some, List, ◌∷◌, arith, replicate, get_elem?}
use gomemcached.GoMap.{lookup, bytes_eq}
use gomemcached.Debug.{total, report, key_of}
use gomemcached.Debug.Reports.{report-counters, shown}
use gomemcached.Debug.Totals.{sum}

-- One GET of 24 bytes was counted.
abbrev one_get : List ℕ
one_get = 24 ∷ replicate 256 0

report-counters_example :
    ((i v : ℕ) → get_elem? one_get i ≡ some v → lookup (key_of i) (report one_get) ≡ shown v)
    × (lookup total (report one_get) ≡ shown (sum one_get))
report-counters_example = report-counters one_get refl (omega arith)
