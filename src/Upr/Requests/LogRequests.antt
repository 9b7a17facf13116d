-- ===== src/Upr/Requests/LogRequests.antt =====
-- client/upr_feed.go: the failover logs that a client asks for, and the latest entry of one.
use gomemcached.Prelude.{
  ℕ, not, ◌||◌, Option, none, some, Bytes, List, [], ◌∷◌, ◌==◌, if◌then◌else◌, ◌>>=◌,
}
use gomemcached.Text.{codes}
use gomemcached.GoMap.{GoMap, insert, nat_eq}
use gomemcached.Wire.Opcode
use gomemcached.Wire.Status
use gomemcached.Wire.Request.{McRequest, empty_request}
use gomemcached.Wire.Response.{McResponse, GoError}
use gomemcached.Client.{Client, Reply}
use gomemcached.Client.Commands.{transmit, receive}
use gomemcached.Upr.{FailoverLog, UprError, parse_failover_log}
use gomemcached.Upr.Requests.{
  RequestError, client, unexpected_opcode, open_failed, invalid_log, Opened, do_upr_open,
  opaque_failover,
}

-- Latest: the last pair, a panic for a log without one, and ErrorInvalidLog for nil.
pub data Latest : Type 0 where
  latest_pair : (vbuuid seqno : ℕ) → Latest
  error_invalid_log : Latest

unfoldable pub last_pair : FailoverLog → Option Latest
last_pair [] = none
last_pair ((vbuuid, seqno) ∷ []) = some (latest_pair vbuuid seqno)
last_pair (x ∷ y ∷ log) = last_pair (y ∷ log)

unfoldable pub latest : Option FailoverLog → Option Latest
latest none = some error_invalid_log
latest (some log) = last_pair log

-- The logs by vBucket (`none` is nil), the error and the client.
pub record Logs : Type 0 where
  pub logs : Option (GoMap ℕ FailoverLog)
  pub err : Option RequestError
  pub client : Client

abbrev pub no_logs : Client → RequestError → Logs
no_logs c err = record { logs = none; err = some err; client = c }

abbrev pub log_request : ℕ → McRequest
log_request vb = record empty_request {
  opcode = Opcode.upr_failoverlog;
  opaque = opaque_failover;
  vbucket = vb;
}

-- What parseFailoverLog gave for one vBucket.
unfoldable pub log_parsed :
    (GoMap ℕ FailoverLog → Option Logs)
    → ℕ
    → GoMap ℕ FailoverLog
    → Client
    → Option UprError
    → Option FailoverLog
    → Option Logs
log_parsed again vb logs c (some err) log = some (no_logs c (invalid_log err))
log_parsed again vb logs c none none = none
log_parsed again vb logs c none (some log) = again (insert vb log logs)

-- The tests on one answer.
unfoldable pub log_answer :
    (Client → GoMap ℕ FailoverLog → Option Logs)
    → ℕ
    → GoMap ℕ FailoverLog
    → Client
    → Option GoError
    → Option McResponse
    → Option Logs
log_answer again vb logs c (some err) res = some (no_logs c (client err))
log_answer again vb logs c none none = none
log_answer again vb logs c none (some res) =
    let parsed = (do
      got ← parse_failover_log res.body
      log_parsed (again c) vb logs c got.err got.log) in
    if not (res.opcode == Opcode.upr_failoverlog) || not (res.status == Status.success)
    then some (no_logs c (unexpected_opcode res.opcode))
    else parsed

unfoldable pub log_sent :
    (Client → GoMap ℕ FailoverLog → Option Logs)
    → ℕ
    → GoMap ℕ FailoverLog
    → Reply
    → Option GoError
    → Option Logs
log_sent again vb logs sent (some err) = some (no_logs sent.client (client err))
log_sent again vb logs sent none = do
  got ← receive sent.client
  log_answer again vb logs got.client got.err got.res

-- The loop of UprGetFailoverLog.
unfoldable pub logs_loop : List ℕ → Client → GoMap ℕ FailoverLog → Option Logs
logs_loop [] c logs = some (record { logs = some logs; err = none; client = c })
logs_loop (vb ∷ vbs) c logs = do
  sent ← transmit c (log_request vb)
  log_sent (logs_loop vbs) vb logs sent sent.err

abbrev pub log_name : Bytes
log_name = codes "FailoverLog"

unfoldable pub logs_opened : List ℕ → Opened → Option RequestError → Option Logs
logs_opened vbs opened (some err) = some (no_logs opened.client (open_failed err))
logs_opened vbs opened none = logs_loop vbs opened.client []

-- UprGetFailoverLog
unfoldable pub upr_get_failover_log : Client → List ℕ → Option Logs
upr_get_failover_log c vbs = do opened ← do_upr_open c log_name 0; logs_opened vbs opened opened.err
