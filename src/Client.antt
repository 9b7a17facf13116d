-- ===== src/Client.antt =====
-- client/transport.go and client/mc.go: a client that sends a request and receives its response. The
-- hooks, which observe packets, are left unset.
pub mod Commands
pub mod Observe
pub mod Progress
pub mod Stats
pub mod Cas
pub mod Bulk
pub mod Sending
pub mod Talk
pub mod CasLoop
pub mod Exchange
use Prim.Native.Nat.{bit_or}
use mathlib.Core.Option
use gomemcached.Prelude.{
  ℕ, zero, suc, ◌+◌, ◌*◌, ◌/◌, ◌%◌, ◌^◌, Bool, true, false, not, ◌||◌, ◌&&◌, Option, none, some,
  Bytes, [], ◌==◌, if◌then◌else◌, ◌>>=◌, put_uint64,
}
use gomemcached.Io.{Reader, Writer}
use gomemcached.Wire.Opcode
use gomemcached.Wire.Status
use gomemcached.Wire.Request
use gomemcached.Wire.Request.{McRequest, empty_request}
use gomemcached.Wire.Response
use gomemcached.Wire.Response.{McResponse, GoError, empty_response, is_fatal, no_conn}

-- The two directions of a connection.
pub record Conn : Type 0 where
  pub reader : Reader
  pub writer : Writer

-- Client. `none` is the nil connection.
pub record Client : Type 0 where
  pub conn : Option Conn
  pub healthy : Bool
  pub hdr_buf : Bytes

-- What a call to the server leaves: the response (`none` is nil), the error and the client.
pub record Reply : Type 0 where
  pub res : Option McResponse
  pub err : Option GoError
  pub client : Client

-- The error of getResponse: a response that is no success is an error itself.
unfoldable pub response_error : Option GoError → McResponse → Option GoError
response_error (some err) res = some err
response_error none res =
    if res.status == Status.success then none else some (Response.response res)

-- getResponse on a client's connection, without the count.
unfoldable pub get_response_from : Client → Option Conn → Option Reply
get_response_from c none = some (record { res = none; err = some no_conn; client = c })
get_response_from c (some conn) = do
  got ← Response.receive empty_response conn.reader c.hdr_buf
  some (record {
    res = some got.res;
    err = response_error (Option.map Response.wire got.err) got.res;
    client = record c { conn = some (record conn { reader = got.reader }) };
  })

abbrev pub get_response : Client → Option Reply
get_response c = get_response_from c c.conn

-- transmitRequest on a client's connection, without the count. The response is nil.
unfoldable pub transmit_request_to : Client → Option Conn → McRequest → Option Reply
transmit_request_to c none req = some (record { res = none; err = some no_conn; client = c })
transmit_request_to c (some conn) req = do
  t ← Request.transmit req conn.writer
  some (record {
    res = none;
    err = Option.map (λ e. Response.wire (gomemcached.Wire.Layout.io e)) t.err;
    client = record c { conn = some (record conn { writer = t.writer }) };
  })

abbrev pub transmit_request : Client → McRequest → Option Reply
transmit_request c req = transmit_request_to c c.conn req

-- Send behind transmitRequest.
unfoldable pub send_rest : Reply → Option GoError → Option Reply
send_rest sent (some err) = some (record sent { client = record sent.client { healthy = false } })
send_rest sent none = do
  got ← get_response sent.client
  some (record got { client = record got.client { healthy = not (is_fatal got.err) } })

unfoldable pub send : Client → McRequest → Option Reply
send c req = do sent ← transmit_request c req; send_rest sent sent.err

abbrev pub get_request : ℕ → Bytes → McRequest
get_request vb key = record empty_request { opcode = Opcode.get; vbucket = vb; key = key }

-- Get
unfoldable pub get : Client → ℕ → Bytes → Option Reply
get c vb key = send c (get_request vb key)

-- uint64(flags)<<32|uint64(exp), for ints that are not negative.
unfoldable pub store_extras : ℕ → ℕ → Bytes
store_extras flags exp = put_uint64 (bit_or (flags * 2 ^ 32 % 2 ^ 64) exp)

-- store, for Add and Set.
unfoldable pub store : Client → ℕ → ℕ → Bytes → ℕ → ℕ → Bytes → Option Reply
store c opcode vb key flags exp body = send c (record empty_request {
  opcode = opcode;
  vbucket = vb;
  key = key;
  extras = store_extras flags exp;
  body = body;
})

abbrev pub add : Client → ℕ → Bytes → ℕ → ℕ → Bytes → Option Reply
add c vb key flags exp body = store c Opcode.add vb key flags exp body

-- CASState. A `value` of `none` is nil, and so is a `resp`.
pub record CasState : Type 0 where
  pub initialized : Bool
  pub value : Option Bytes
  pub cas : ℕ
  pub exists_ : Bool
  pub err : Option GoError
  pub resp : Option McResponse

-- The request that updates a key, or deletes it when the new value is nil.
unfoldable pub update_request : ℕ → Bytes → ℕ → Option Bytes → McRequest
update_request vb key cas none = record empty_request {
  opcode = Opcode.delete;
  vbucket = vb;
  key = key;
  cas = cas;
}
update_request vb key cas (some value) = record empty_request {
  opcode = Opcode.set;
  vbucket = vb;
  key = key;
  cas = cas;
  extras = store_extras 0 0;
  body = value;
}

-- The results of CASNext: whether to go on, the state and the client.
pub record Next : Type 0 where
  pub more : Bool
  pub state : CasState
  pub client : Client

-- The last part of CASNext, on what the GET gave: the value, none for a key that is not there, or an
-- error. Without an error the response is not nil.
unfoldable pub refresh : CasState → Client → Option GoError → Option McResponse → Option Next
refresh state c none none = none
refresh state c none (some res) = some (record {
  more = true;
  state = record state {
    exists_ = true;
    value = some res.body;
    cas = res.cas;
    err = none;
    resp = some res;
  };
  client = c;
})
refresh state c (some err) none =
    some (record { more = false; state = record state { err = some err; resp = none }; client = c })
refresh state c (some err) (some res) =
    if res.status == Status.key_enoent
    then some (record {
      more = true;
      state = record state { err = none; exists_ = false; value = none; cas = 0; resp = some res };
      client = c;
    })
    else some (record {
      more = false;
      state = record state { err = some err; resp = some res };
      client = c;
    })

-- The initial call, or the one after a conflict.
unfoldable pub fetch : Client → ℕ → Bytes → CasState → Option Next
fetch c vb key state = do
  got ← get c vb key
  refresh (record state { initialized = true }) got.client got.err got.res

unfoldable pub is_conflict : McResponse → Bool
is_conflict res = (res.status == Status.key_eexists) || (res.status == Status.not_stored)

-- Behind the store: a conflict fetches the value again; anything else takes the CAS of the response
-- and panics when that is nil.
unfoldable pub after_store : ℕ → Bytes → CasState → Reply → Option McResponse → Option Next
after_store vb key state sent none = none
after_store vb key state sent (some res) =
    let state' = record state { resp = some res; err = sent.err } in
    let again = fetch sent.client vb key state' in
    if is_conflict res
    then again
    else some
        (record { more = false; state = record state' { cas = res.cas }; client = sent.client })

-- The store of CASNext: an add for a new key, an update or a deletion for one that exists.
unfoldable pub store_value : Client → ℕ → Bytes → ℕ → CasState → Bool → Option Bytes → Option Next
store_value c vb key exp state false none =
    some (record { more = false; state = record state { cas = 0 }; client = c })
store_value c vb key exp state false (some value) = do
  sent ← add c vb key 0 exp value
  after_store vb key state sent sent.res
store_value c vb key exp state true value = do
  sent ← send c (update_request vb key state.cas value)
  after_store vb key state sent sent.res

-- CASNext
unfoldable pub cas_next : Client → ℕ → Bytes → ℕ → CasState → Option Next
cas_next c vb key exp state =
    let first = fetch c vb key state in
    if state.initialized then store_value c vb key exp state state.exists_ state.value else first
