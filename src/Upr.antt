-- ===== src/Upr.antt =====
-- client/upr_feed.go: the events of a UPR connection and what they are made from.
pub mod Events
pub mod Failover
pub mod Feed
pub mod Requests
pub mod Texts
use gomemcached.Prelude.{
  ℕ, zero, suc, ◌+◌, ◌*◌, ◌/◌, ◌%◌, ◌^◌, Bool, false, ◌&&◌, ◌||◌, Option, none, some, Bytes, List,
  [], ◌∷◌, ◌++◌, length, drop, leb, ◌==◌, if◌then◌else◌, ◌>>=◌, uint16, uint32, uint64,
}
use gomemcached.Wire.Buffer.{slice}
use gomemcached.Wire.Opcode
use gomemcached.Wire.Status
use gomemcached.Wire.Request.{McRequest}
use gomemcached.Wire.Response.{McResponse}

abbrev pub upr_mutation_extra_len : ℕ
upr_mutation_extra_len = 30

abbrev pub upr_deletetion_extra_len : ℕ
upr_deletetion_extra_len = 18

abbrev pub upr_snapshot_extra_len : ℕ
upr_snapshot_extra_len = 20

-- The pairs of a vbucket's uuid and a sequence number.
abbrev pub FailoverLog : Type 0
FailoverLog = List (ℕ × ℕ)

-- The errors of the feed's parsers, without their texts: a body of this length is no failover log;
-- a status in the answer to a stream request, with the opaque.
pub data UprError : Type 0 where
  invalid_length : ℕ → UprError
  unexpected_status : ℕ → ℕ → UprError

-- UprEvent. Its field OldValue is never set.
pub record UprEvent : Type 0 where
  pub opcode : ℕ
  pub status : ℕ
  pub vbucket : ℕ
  pub opaque : ℕ
  pub vbuuid : ℕ
  pub flags : ℕ
  pub expiry : ℕ
  pub key : Bytes
  pub value : Bytes
  pub cas : ℕ
  pub seqno : ℕ
  pub rev_seqno : ℕ
  pub lock_time : ℕ
  pub metadata_size : ℕ
  pub snapstart_seq : ℕ
  pub snapend_seq : ℕ
  pub snapshot_type : ℕ
  pub failover_log : Option FailoverLog
  pub error : Option UprError

-- The zero value `UprEvent{}`.
abbrev pub empty_event : UprEvent
empty_event = record {
  opcode = 0;
  status = 0;
  vbucket = 0;
  opaque = 0;
  vbuuid = 0;
  flags = 0;
  expiry = 0;
  key = [];
  value = [];
  cas = 0;
  seqno = 0;
  rev_seqno = 0;
  lock_time = 0;
  metadata_size = 0;
  snapstart_seq = 0;
  snapend_seq = 0;
  snapshot_type = 0;
  failover_log = none;
  error = none;
}

pub record UprStream : Type 0 where
  pub vbucket : ℕ
  pub vbuuid : ℕ
  pub start_seq : ℕ
  pub end_seq : ℕ
  pub connected : Bool

-- The bits of the two halves do not overlap, so that Go's `|` is the sum.
unfoldable pub compose_opaque : ℕ → ℕ → ℕ
compose_opaque vbno opaque_msb = opaque_msb * 2 ^ 16 + vbno

-- The upper and the lower 16 bits of a uint32.
unfoldable pub app_opaque : ℕ → ℕ
app_opaque opq32 = opq32 / 2 ^ 16 % 2 ^ 16

unfoldable pub vb_opaque : ℕ → ℕ
vb_opaque opq32 = opq32 % 2 ^ 16

-- The array that the extras of a received packet are the front of. A slice of the extras ends at
-- its capacity and not at its length, so that it may reach into the key and the body.
abbrev pub backing : McRequest → Bytes
backing rq = rq.extras ++ (rq.key ++ rq.body)

abbrev pub base_event : McRequest → UprStream → UprEvent
base_event rq stream = record empty_event {
  opcode = rq.opcode;
  vbucket = stream.vbucket;
  vbuuid = stream.vbuuid;
  key = rq.key;
  value = rq.body;
  cas = rq.cas;
  opaque = app_opaque rq.opaque;
}

unfoldable pub mutation_fields : UprEvent → Bytes → Option UprEvent
mutation_fields event extras = do
  seqno ← uint64 (← slice extras 0 8)
  rev_seqno ← uint64 (← slice extras 8 16)
  flags ← uint32 (← slice extras 16 20)
  expiry ← uint32 (← slice extras 20 24)
  lock_time ← uint32 (← slice extras 24 28)
  metadata_size ← uint16 (← slice extras 28 30)
  some (record event {
    seqno = seqno;
    rev_seqno = rev_seqno;
    flags = flags;
    expiry = expiry;
    lock_time = lock_time;
    metadata_size = metadata_size;
  })

unfoldable pub deletion_fields : UprEvent → Bytes → Option UprEvent
deletion_fields event extras = do
  seqno ← uint64 (← slice extras 0 8)
  rev_seqno ← uint64 (← slice extras 8 16)
  metadata_size ← uint16 (← slice extras 16 18)
  some (record event { seqno = seqno; rev_seqno = rev_seqno; metadata_size = metadata_size })

unfoldable pub snapshot_fields : UprEvent → Bytes → Option UprEvent
snapshot_fields event extras = do
  snapstart_seq ← uint64 (← slice extras 0 8)
  snapend_seq ← uint64 (← slice extras 8 16)
  snapshot_type ← uint32 (← slice extras 16 20)
  some (record event {
    snapstart_seq = snapstart_seq;
    snapend_seq = snapend_seq;
    snapshot_type = snapshot_type;
  })

-- The test on the length guards a deletion and not an expiration: `&&` binds tighter than `||`.
unfoldable pub make_upr_event : McRequest → UprStream → Option UprEvent
make_upr_event rq stream =
    let event = base_event rq stream in
    if leb upr_mutation_extra_len (length rq.extras) && (rq.opcode == Opcode.upr_mutation)
    then mutation_fields event (backing rq)
    else if (leb upr_deletetion_extra_len (length rq.extras) && (rq.opcode == Opcode.upr_deletion))
        || (rq.opcode == Opcode.upr_expiration)
    then deletion_fields event (backing rq)
    else if leb upr_snapshot_extra_len (length rq.extras) && (rq.opcode == Opcode.upr_snapshot)
    then snapshot_fields event (backing rq)
    else some event

-- The loop of parseFailoverLog over `count` entries, with the body from the loop's position on.
unfoldable pub failover_entries : ℕ → Bytes → Option FailoverLog
failover_entries zero body = some []
failover_entries (suc count) body = do
  vuuid ← uint64 (← slice body 0 8)
  seqno ← uint64 (← slice body 8 16)
  log ← failover_entries count (drop 16 body)
  some ((vuuid, seqno) ∷ log)

-- The two results of parseFailoverLog: the log, where `none` is nil, and the error.
pub record ParsedLog : Type 0 where
  pub log : Option FailoverLog
  pub err : Option UprError

unfoldable pub parse_failover_log : Bytes → Option ParsedLog
parse_failover_log body =
    if length body % 16 == 0
    then (do
      log ← failover_entries (length body / 16) body
      some (record { log = some log; err = none }))
    else some (record { log = none; err = some (invalid_length (length body)) })

-- The four results of handleStreamRequest.
pub record StreamReply : Type 0 where
  pub status : ℕ
  pub rollback : ℕ
  pub flog : Option FailoverLog
  pub err : Option UprError

unfoldable pub handle_stream_request : McResponse → Option StreamReply
handle_stream_request res =
    if res.status == Status.rollback
    then (do
      rollback ← uint64 res.body
      some (record { status = res.status; rollback = rollback; flog = none; err = none }))
    else if res.status == Status.success
    then (do
      parsed ← parse_failover_log res.body
      some (record { status = res.status; rollback = 0; flog = parsed.log; err = parsed.err }))
    else some (record {
      status = res.status;
      rollback = 0;
      flog = none;
      err = some (unexpected_status res.status res.opaque);
    })
