-- ===== src/Upr/Failover.antt =====
-- parseFailoverLog of client/upr_feed.go.
use gomemcached.Prelude.{
  ℕ, ◌*◌, ◌/◌, ◌%◌, ◌≡◌, ◌≢◌, refl, none, some, Bytes, [], ◌∷◌, ◌++◌, length, arith, All,
  put_uint64, uint64_put, IsU64,
}
use gomemcached.Wire.Buffer.{slice-append}
use gomemcached.Upr.{FailoverLog, failover_entries, parse_failover_log, invalid_length}

-- A failover log as it stands in a body.
abbrev pub log_bytes : FailoverLog → Bytes
log_bytes [] = []
log_bytes ((vuuid, seqno) ∷ log) = put_uint64 vuuid ++ put_uint64 seqno ++ log_bytes log

abbrev pub IsEntry : ℕ × ℕ → Type 0
IsEntry (vuuid, seqno) = IsU64 vuuid × IsU64 seqno

length-log_bytes : (log : FailoverLog) → length (log_bytes log) ≡ 16 * length log
length-log_bytes [] = refl
length-log_bytes ((vuuid, seqno) ∷ log) = omega (arith, length-log_bytes log)

failover_entries-log_bytes :
    (log : FailoverLog) → All IsEntry log → failover_entries (length log) (log_bytes log) ≡ some log
unfolding failover_entries
failover_entries-log_bytes [] h = refl
failover_entries-log_bytes ((vuuid, seqno) ∷ log) ((v, q), h) = rw (
  slice-append [] (put_uint64 vuuid) (put_uint64 seqno ++ log_bytes log) 0 8 refl refl,
  slice-append (put_uint64 vuuid) (put_uint64 seqno) (log_bytes log) 8 16 refl refl,
  uint64_put vuuid [] v,
  uint64_put seqno [] q,
  failover_entries-log_bytes log h,
)

-- A failover log of uint64 pairs is read back from its bytes, entry by entry in their order; a body
-- whose length is no multiple of 16 is refused with that length.
pub parse_failover_log-log_bytes :
    (log : FailoverLog) (body : Bytes)
    → All IsEntry log
    → length body % 16 ≢ 0
    → (parse_failover_log (log_bytes log) ≡ some (record { log = some log; err = none }))
      × (parse_failover_log body
          ≡ some (record { log = none; err = some (invalid_length (length body)) }))
unfolding parse_failover_log
parse_failover_log-log_bytes log body h k =
    let count : length (log_bytes log) / 16 ≡ length log = omega (arith, length-log_bytes log) in
    let whole : length (log_bytes log) % 16 ≡ 0 = omega (arith, length-log_bytes log) in
    (rw (whole, count, failover_entries-log_bytes log h) refl, ground arith)
