-- ===== src/Upr/Requests/FailoverLogs.antt =====
-- UprGetFailoverLog of client/upr_feed.go on what the server answers.
use gomemcached.Prelude.{
  ℕ, ◌≤◌, ◌≡◌, refl, ap, ◌∙◌, true, ◌==◌, if◌then◌else◌, Option, none, some, Bytes, List, [], ◌∷◌,
  ◌++◌, All, map, length, arith, append_assoc, append-nil, Bool-cases, inl, inr,
}
use gomemcached.Io.{IoError, Writer}
use gomemcached.GoMap.{GoMap, lookup, insert, lookup-insert, nat_eq}
use gomemcached.Wire.Layout.{hdr_len}
use gomemcached.Wire.Opcode
use gomemcached.Wire.Status
use gomemcached.Wire.Request.{McRequest}
use gomemcached.Wire.Request.Encoding as RequestEncoding
use gomemcached.Wire.Request.Delivery.{request_transmit_unlimited}
use gomemcached.Wire.Response.{McResponse}
use gomemcached.Wire.Response.Encoding.{wire}
use gomemcached.Server.Refinement.{stream}
use gomemcached.Client.{Client, transmit_request_to}
use gomemcached.Client.Talk.{IsAnswer, facing}
use gomemcached.Client.Commands.Answers.{receive_answered}
use gomemcached.Client.Commands.{transmit, doubt}
use gomemcached.Upr.{FailoverLog, parse_failover_log}
use gomemcached.Upr.Failover.{log_bytes, IsEntry, parse_failover_log-log_bytes}
use gomemcached.Upr.Requests.LogRequests.{
  Logs, log_request, log_name, log_parsed, log_answer, log_sent, logs_loop, logs_opened,
  upr_get_failover_log,
}
use gomemcached.Upr.Requests.{open_request, opaque_open, open_answer, open_sent, do_upr_open}

-- A transmission that does not fail.
transmit_sends :
    (c : Client) (req : McRequest) (input : Bytes) (e : IoError) (w : Writer)
    → w.room ≡ none
    → transmit (facing c input e w) req
      ≡ some (record {
        res = none;
        err = none;
        client = facing c input e (record w { sent = w.sent ++ RequestEncoding.wire req });
      })
unfolding transmit doubt transmit_request_to
transmit_sends c req input e w free =
    let (n, t) = request_transmit_unlimited req w free in rw t refl

-- One vBucket, its log, and the answer that has it.
pub record Item : Type 0 where
  pub vb : ℕ
  pub log : FailoverLog
  pub res : McResponse

pub record IsItem (item : Item) : Type 0 where
  pub answer : IsAnswer item.res
  pub status : item.res.status ≡ Status.success
  pub opcode : item.res.opcode ≡ Opcode.upr_failoverlog
  pub body : item.res.body ≡ log_bytes item.log
  pub log : All IsEntry item.log

abbrev pub item_wires : List Item → Bytes
item_wires [] = []
item_wires (item ∷ items) = wire item.res ++ item_wires items

-- The last log for a vBucket, or else `found`.
abbrev pub log_of : ℕ → List Item → Option FailoverLog → Option FailoverLog
log_of vb [] found = found
log_of vb (item ∷ items) found =
    let next = log_of vb items (some item.log) in
    let same = log_of vb items found in if item.vb == vb then next else same

abbrev HasLogs : Option Logs → Client → List Item → GoMap ℕ FailoverLog → Type 0
HasLogs run c items before =
    (logs : GoMap ℕ FailoverLog) × (run
      ≡ some (record { logs = some logs; err = none; client = c }))
    × ((vb : ℕ) → lookup vb logs ≡ log_of vb items (lookup vb before))

log_of-item :
    (item : Item) (items : List Item) (logs : GoMap ℕ FailoverLog) (vb : ℕ)
    → log_of vb items (lookup vb (insert item.vb item.log logs))
      ≡ log_of vb (item ∷ items) (lookup vb logs)
log_of-item item items logs vb = elim (Bool-cases (item.vb == vb)) [
  | inl e ↦ rw (lookup-insert item.vb vb item.log logs, e) refl
  | inr e ↦ rw (lookup-insert item.vb vb item.log logs, e) refl
]

item_answered :
    (again : Client → GoMap ℕ FailoverLog → Option Logs) (item : Item) (logs : GoMap ℕ FailoverLog)
    (c : Client)
    → IsItem item
    → log_answer again item.vb logs c none (some item.res) ≡ again c (insert item.vb item.log logs)
unfolding log_answer log_parsed
item_answered again item logs c i =
    let op : (item.res.opcode == Opcode.upr_failoverlog) ≡ true = ground (arith, i.opcode) in
    let ok : (item.res.status == Status.success) ≡ true = ground (arith, i.status) in
    let (parsed, _) = parse_failover_log-log_bytes item.log (0 ∷ []) i.log (λ z. omega arith) in
    rw (op, ok, ap parse_failover_log i.body ∙ parsed) refl

loop-answered :
    (items : List Item) (c : Client) (logs : GoMap ℕ FailoverLog) (rest : Bytes) (e : IoError)
    (w : Writer)
    → All IsItem items
    → w.room ≡ none
    → length c.hdr_buf ≤ hdr_len
    → HasLogs
        (logs_loop (map (λ x. x.vb) items) (facing c (item_wires items ++ rest) e w) logs)
        (facing c rest e (record w { sent = w.sent ++ stream (map (λ x. log_request x.vb) items) }))
        items
        logs
unfolding logs_loop log_sent
loop-answered [] c logs rest e w is free short = (logs, rw (append-nil w.sent) refl, λ vb. refl)
loop-answered (item ∷ items) c logs rest e w (i, is) free short =
    let req = log_request item.vb in
    let w' : Writer = record w { sent = w.sent ++ RequestEncoding.wire req } in
    let input : Bytes = item_wires items ++ rest in
    let (logs', run, found) =
      loop-answered items c (insert item.vb item.log logs) rest e w' is free short in
    (
      logs',
      rw (
        append_assoc (wire item.res) (item_wires items) rest,
        transmit_sends c req (wire item.res ++ input) e w free,
        receive_answered c item.res input e w' i.answer short i.status,
        item_answered (logs_loop (map (λ (x : Item). x.vb) items)) item logs (facing c input e w')
            i,
        run,
        append_assoc w.sent (RequestEncoding.wire req)
            (stream (map (λ (x : Item). log_request x.vb) items)),
      ),
      λ vb. found vb ∙ log_of-item item items logs vb,
    )

-- The answer to UPR_OPEN.
pub record IsOpen (res : McResponse) : Type 0 where
  pub answer : IsAnswer res
  pub status : res.status ≡ Status.success
  pub opcode : res.opcode ≡ Opcode.upr_open
  pub opaque : res.opaque ≡ opaque_open

do_upr_open-answered :
    (c : Client) (name : Bytes) (sequence : ℕ) (res : McResponse) (rest : Bytes) (e : IoError)
    (w : Writer)
    → IsOpen res
    → w.room ≡ none
    → length c.hdr_buf ≤ hdr_len
    → do_upr_open (facing c (wire res ++ rest) e w) name sequence
      ≡ some (record {
        err = none;
        client =
            facing c rest e
              (record w { sent = w.sent ++ RequestEncoding.wire (open_request name sequence) });
      })
unfolding do_upr_open open_sent open_answer
do_upr_open-answered c name sequence res rest e w o free short =
    let req = open_request name sequence in
    let w' : Writer = record w { sent = w.sent ++ RequestEncoding.wire req } in
    let op : (res.opcode == Opcode.upr_open) ≡ true = ground (arith, o.opcode) in
    let opq : (opaque_open == res.opaque) ≡ true = ground (arith, o.opaque) in
    let ok : (res.status == Status.success) ≡ true = ground (arith, o.status) in
    rw (
      transmit_sends c req (wire res ++ rest) e w free,
      receive_answered c res rest e w' o.answer short o.status,
      op,
      opq,
      ok,
    )

-- A server that answers UPR_OPEN with a success under the request's opaque, and then each request
-- for a failover log with a success whose body is a log of uint64 pairs, and a writer that does not
-- fail: UprGetFailoverLog sends UPR_OPEN and one request for each vBucket in their order, and returns
-- for every vBucket the last log that was sent for it, and no error.
pub upr_get_failover_log-answered :
    (items : List Item) (c : Client) (opened : McResponse) (rest : Bytes) (e : IoError) (w : Writer)
    → IsOpen opened
    → All IsItem items
    → w.room ≡ none
    → length c.hdr_buf ≤ hdr_len
    → (logs : GoMap ℕ FailoverLog) × (upr_get_failover_log
          (facing c (wire opened ++ (item_wires items ++ rest)) e w)
          (map (λ x. x.vb) items)
        ≡ some (record {
          logs = some logs;
          err = none;
          client = facing c rest e (record w {
            sent = w.sent ++ stream (open_request log_name 0 ∷ map (λ x. log_request x.vb) items);
          });
        }))
      × ((vb : ℕ) → lookup vb logs ≡ log_of vb items none)
unfolding upr_get_failover_log logs_opened lookup
upr_get_failover_log-answered items c opened rest e w o is free short =
    let req = open_request log_name 0 in
    let w' : Writer = record w { sent = w.sent ++ RequestEncoding.wire req } in
    let (logs, run, found) = loop-answered items c [] rest e w' is free short in
    (
      logs,
      rw (
        do_upr_open-answered c log_name 0 opened (item_wires items ++ rest) e w o free short,
        run,
        append_assoc w.sent (RequestEncoding.wire req)
            (stream (map (λ (x : Item). log_request x.vb) items)),
      ),
      found,
    )
