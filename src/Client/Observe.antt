-- ===== src/Client/Observe.antt =====
-- client/mc.go: Observe and what it makes of the response, and CheckPersistence.
pub mod Answers
use Prim.Native.Nat.{bit_and}
use mathlib.Core.Option
use gomemcached.Prelude.{
  ℕ, ◌+◌, ◌-◌, ◌*◌, ◌/◌, ◌%◌, ◌^◌, Bool, true, false, not, ◌&&◌, ◌||◌, Option, none, some, Bytes,
  [], length, ltb, ◌==◌, if◌then◌else◌, ◌>>=◌, put_uint16, uint16, uint64, get_elem?,
}
use gomemcached.GoMap.{bytes_beq}
use gomemcached.Wire.Buffer.{make_bytes, write_at, slice, slice_from}
use gomemcached.Wire.Opcode
use gomemcached.Wire.Request.{McRequest, empty_request}
use gomemcached.Wire.Response.{McResponse, GoError}
use gomemcached.Client.{Client, Reply, send}

abbrev pub observed_not_persisted : ℕ
observed_not_persisted = 0x00

abbrev pub observed_persisted : ℕ
observed_persisted = 0x01

abbrev pub observed_not_found : ℕ
observed_not_found = 0x80

abbrev pub observed_logically_deleted : ℕ
observed_logically_deleted = 0x81

-- ObserveResult, with its durations in nanoseconds.
pub record ObserveResult : Type 0 where
  pub status : ℕ
  pub cas : ℕ
  pub persistence_time : ℕ
  pub replication_time : ℕ

abbrev pub empty_result : ObserveResult
empty_result = record { status = 0; cas = 0; persistence_time = 0; replication_time = 0 }

-- The errors of Observe: one of Send, io.ErrUnexpectedEOF, and an answer about another key.
pub data ObserveError : Type 0 where
  server : GoError → ObserveError
  unexpected_eof : ObserveError
  wrong_key : (vb : ℕ) (key : Bytes) → ObserveError

pub record Observed : Type 0 where
  pub result : ObserveResult
  pub err : Option ObserveError

-- The body of the request.
unfoldable pub observe_body : ℕ → Bytes → Option Bytes
observe_body vb key = do
  body ← write_at (make_bytes (4 + length key)) 0 (put_uint16 vb)
  body ← write_at body 2 (put_uint16 (length key))
  write_at body 4 key

abbrev pub observe_request : ℕ → Bytes → McRequest
observe_request vb body = record empty_request {
  opcode = Opcode.observe;
  vbucket = vb;
  body = body;
}

abbrev pub failed : ObserveError → Observed
failed err = record { result = empty_result; err = some err }

-- time.Millisecond
abbrev pub millisecond : ℕ
millisecond = 10 ^ 6

-- The status, the CAS and the times. The positions are sums of uint16, which wrap.
unfoldable pub read_result : McResponse → ℕ → Option Observed
read_result res key_len = do
  status ← get_elem? res.body ((4 + key_len) % 2 ^ 16)
  cas ← uint64 (← slice_from res.body ((5 + key_len) % 2 ^ 16))
  some (record {
    result = record {
      status = status;
      cas = cas;
      persistence_time = res.cas / 2 ^ 32 * millisecond;
      replication_time = bit_and res.cas (2 ^ 32 - 1) * millisecond;
    };
    err = none;
  })

-- Behind the test of the length: whether the answer is about the key.
unfoldable pub read_key : ℕ → Bytes → McResponse → ℕ → ℕ → Option Observed
read_key vb key res out_vb key_len = do
  out_key ← slice res.body 4 ((4 + key_len) % 2 ^ 16)
  if not (out_vb == vb) || not (bytes_beq out_key key)
      then some (failed (wrong_key out_vb out_key))
      else read_result res key_len

-- What Observe reads out of the response.
unfoldable pub parse_observation : ℕ → Bytes → McResponse → Option Observed
parse_observation vb key res =
    if ltb (length res.body) (2 + 2 + 1) then some (failed unexpected_eof) else (do
      out_vb ← uint16 (← slice res.body 0 2)
      key_len ← uint16 (← slice res.body 2 4)
      if ltb (length res.body) (2 + 2 + key_len + 1 + 8)
          then some (failed unexpected_eof)
          else read_key vb key res out_vb key_len)

-- Observe behind Send, with the client that Send leaves. Without an error the response is not nil.
unfoldable pub observe_rest :
    ℕ → Bytes → Reply → Option GoError → Option McResponse → Option (Observed × Client)
observe_rest vb key got (some err) res = some (failed (server err), got.client)
observe_rest vb key got none none = none
observe_rest vb key got none (some res) = do
  seen ← parse_observation vb key res
  some (seen, got.client)

-- Observe
unfoldable pub observe : Client → ℕ → Bytes → Option (Observed × Client)
observe c vb key = do
  body ← observe_body vb key
  got ← send c (observe_request vb body)
  observe_rest vb key got got.err got.res

-- CheckPersistence: whether the value is persisted, and whether it was overwritten.
unfoldable pub check_persistence : ObserveResult → ℕ → Bool → Bool × Bool
check_persistence result cas deletion =
    if (result.status == observed_not_found) && deletion
    then (true, false)
    else if not (result.cas == cas)
    then (false, true)
    else if result.status == observed_persisted
    then (true, false)
    else (false, false)
