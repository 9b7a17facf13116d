-- ===== src/Client/Cas.antt =====
-- client/mc.go: CAS, the loop over CASNext with a function that transforms the value.
pub mod Loop
pub mod Rounds
use mathlib.Core.Option
use gomemcached.Prelude.{ℕ, zero, suc, Bool, true, false, Option, none, some, Bytes, if◌then◌else◌}
use gomemcached.Text.{codes}
use gomemcached.Wire.Response.{McResponse, GoError}
use gomemcached.Client.{Client, CasState, Next, cas_next}
use gomemcached.Client.Progress.{Run, finished, panicked, out_of_fuel, waiting}

-- CasOp
pub data CasOp : Type 0 where
  cas_store cas_quit cas_delete : CasOp

-- Error of a CasOp. Its panic is for numbers that are none of the three.
unfoldable pub cas_op_text : CasOp → Bytes
cas_op_text cas_store = codes "CAS store"
cas_op_text cas_quit = codes "CAS quit"
cas_op_text cas_delete = codes "CAS delete"

-- CasFunc, which takes and gives nil as `none`.
abbrev pub CasFunc : Type 0
CasFunc = Option Bytes → Option Bytes × CasOp

-- The errors of CAS: one of CASNext, or the operation that the function quit with.
pub data CasError : Type 0 where
  server : GoError → CasError
  operation : CasOp → CasError

pub record CasResult : Type 0 where
  pub res : Option McResponse
  pub err : Option CasError
  pub client : Client

-- var state CASState
abbrev pub new_state : CasState
new_state = record {
  initialized = false;
  value = none;
  cas = 0;
  exists_ = false;
  err = none;
  resp = none;
}

-- Whether CAS quits on an operation for a current value.
abbrev pub is_quit : CasOp → Option Bytes → Bool
is_quit cas_quit value = true
is_quit cas_delete none = true
is_quit _ value = false

-- The body of the loop on what the function gave.
unfoldable pub cas_apply :
    (Client → CasState → Run CasResult) → Next → Option Bytes × CasOp → Run CasResult
cas_apply again next (new_value, op) =
    let rest = again next.client (record next.state { value = new_value }) in
    if is_quit op next.state.value
    then finished (record { res = none; err = some (operation op); client = next.client })
    else rest

unfoldable pub cas_turn :
    (Client → CasState → Run CasResult) → CasFunc → Option Next → Run CasResult
cas_turn again f none = panicked
cas_turn again f (some next) =
    let rest = cas_apply again next (f next.state.value) in
    if next.more
    then rest
    else finished (record {
      res = next.state.resp;
      err = Option.map server next.state.err;
      client = next.client;
    })

-- The loop of CAS.
unfoldable pub cas_loop : ℕ → CasFunc → ℕ → Bytes → ℕ → Client → CasState → Run CasResult
cas_loop zero f vb key initexp c state = out_of_fuel
cas_loop (suc fuel) f vb key initexp c state =
    cas_turn (cas_loop fuel f vb key initexp) f (cas_next c vb key initexp state)

-- CAS. CASNext takes a byte off the connection whenever the loop goes on, so that this fuel is
-- enough.
unfoldable pub cas : Client → ℕ → Bytes → CasFunc → ℕ → Run CasResult
cas c vb key f initexp = cas_loop (suc (waiting c)) f vb key initexp c new_state
