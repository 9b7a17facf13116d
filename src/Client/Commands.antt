-- ===== src/Client/Commands.antt =====
-- client/mc.go: the operations that send one request, and Transmit and Receive, its two halves.
pub mod Answers
use mathlib.Core.Option
use gomemcached.Prelude.{
  ℕ, zero, suc, ◌+◌, ◌%◌, ◌^◌, Bool, true, false, ◌&&◌, Option, none, some, Bytes, List, [], ◌∷◌,
  ◌++◌, length, ltb, ◌==◌, if◌then◌else◌, ◌>>=◌, put_uint64, put_uint32, uint64,
}
use gomemcached.Text.{codes}
use gomemcached.Wire.Buffer.{make_bytes}
use gomemcached.Wire.Layout.{hdr_len}
use gomemcached.Wire.Opcode
use gomemcached.Wire.Status
use gomemcached.Wire.Request.{McRequest, empty_request}
use gomemcached.Wire.Response.{McResponse, GoError, empty_response}
use gomemcached.Client.{
  Client, Conn, Reply, get_response, transmit_request, send, store, store_extras,
}

-- Wrap
abbrev pub wrap : Conn → Client
wrap conn = record { conn = some conn; healthy = true; hdr_buf = make_bytes hdr_len }

unfoldable pub doubt : Reply → Option GoError → Reply
doubt sent none = sent
doubt sent (some err) = record sent { client = record sent.client { healthy = false } }

-- Transmit
unfoldable pub transmit : Client → McRequest → Option Reply
transmit c req = do sent ← transmit_request c req; some (doubt sent sent.err)

-- Receive behind getResponse: with an error it reads the status of the response, which panics on nil.
unfoldable pub received : Reply → Option GoError → Option McResponse → Option Reply
received got none res = some got
received got (some err) none = none
received got (some err) (some res) =
    if res.status == Status.key_enoent
    then some got
    else some (record got { client = record got.client { healthy = false } })

-- Receive
unfoldable pub receive : Client → Option Reply
receive c = do got ← get_response c; received got got.err got.res

-- Del
abbrev pub del : Client → ℕ → Bytes → Option Reply
del c vb key = send c (record empty_request { opcode = Opcode.delete; vbucket = vb; key = key })

abbrev pub list_mechs : McRequest
list_mechs = record empty_request { opcode = Opcode.sasl_list_mechs }

-- AuthList
abbrev pub auth_list : Client → Option Reply
auth_list c = send c list_mechs

-- Whether the bytes begin with a pattern.
abbrev pub begins : Bytes → Bytes → Bool
begins [] bs = true
begins (p ∷ ps) [] = false
begins (p ∷ ps) (b ∷ bs) = p == b && begins ps bs

-- strings.Index(s, sub) != -1
abbrev pub contains : Bytes → Bytes → Bool
contains [] sub = begins sub []
contains (b ∷ bs) sub = let rest = contains bs sub in if begins sub (b ∷ bs) then true else rest

abbrev pub plain : Bytes
plain = codes "PLAIN"

abbrev pub plain_auth : Bytes → Bytes → McRequest
plain_auth user pass = record empty_request {
  opcode = Opcode.sasl_auth;
  key = plain;
  body = 0 ∷ user ++ (0 ∷ pass);
}

-- The error of Auth.
pub data AuthError : Type 0 where
  server : GoError → AuthError
  no_plain : AuthError

pub record AuthReply : Type 0 where
  pub res : Option McResponse
  pub err : Option AuthError
  pub client : Client

abbrev pub auth_reply : Reply → AuthReply
auth_reply got = record { res = got.res; err = Option.map server got.err; client = got.client }

-- Auth behind AuthList. Without an error the response is not nil.
unfoldable pub auth_rest :
    Bytes → Bytes → Reply → Option GoError → Option McResponse → Option AuthReply
auth_rest user pass got (some err) res = some (auth_reply got)
auth_rest user pass got none none = none
auth_rest user pass got none (some res) =
    let second = Option.map auth_reply (send got.client (plain_auth user pass)) in
    if contains res.body plain
    then second
    else some (record { res = some res; err = some no_plain; client = got.client })

-- Auth
unfoldable pub auth : Client → Bytes → Bytes → Option AuthReply
auth c user pass = do got ← auth_list c; auth_rest user pass got got.err got.res

-- SelectBucket
abbrev pub select_bucket : Client → Bytes → Option Reply
select_bucket c bucket =
    send c (record empty_request { opcode = Opcode.select_bucket; key = bucket })

-- storeCas
unfoldable pub store_cas : Client → ℕ → ℕ → Bytes → ℕ → ℕ → ℕ → Bytes → Option Reply
store_cas c opcode vb key flags exp cas body = send c (record empty_request {
  opcode = opcode;
  vbucket = vb;
  key = key;
  cas = cas;
  extras = store_extras flags exp;
  body = body;
})

-- Set
abbrev pub set : Client → ℕ → Bytes → ℕ → ℕ → Bytes → Option Reply
set c vb key flags exp body = store c Opcode.set vb key flags exp body

-- SetCas
abbrev pub set_cas : Client → ℕ → Bytes → ℕ → ℕ → ℕ → Bytes → Option Reply
set_cas c vb key flags exp cas body = store_cas c Opcode.set vb key flags exp cas body

-- Append
abbrev pub append : Client → ℕ → Bytes → Bytes → Option Reply
append c vb key data_ =
    send c (record empty_request { opcode = Opcode.append; vbucket = vb; key = key; body = data_ })

-- The request of Incr; the three words fill its extras.
abbrev pub incr_request : ℕ → Bytes → ℕ → ℕ → ℕ → McRequest
incr_request vb key amt def exp = record empty_request {
  opcode = Opcode.increment;
  vbucket = vb;
  key = key;
  extras = put_uint64 amt ++ (put_uint64 def ++ put_uint32 exp);
}

-- The value, the error and the client that Incr leaves.
pub record Counter : Type 0 where
  pub value : ℕ
  pub err : Option GoError
  pub client : Client

-- Incr behind Send: the value is read without a test of the body's length.
unfoldable pub incr_rest : Reply → Option GoError → Option McResponse → Option Counter
incr_rest got (some err) res = some (record { value = 0; err = some err; client = got.client })
incr_rest got none none = none
incr_rest got none (some res) = do
  value ← uint64 res.body
  some (record { value = value; err = none; client = got.client })

-- Incr
unfoldable pub incr : Client → ℕ → Bytes → ℕ → ℕ → ℕ → Option Counter
incr c vb key amt def exp = do
  got ← send c (incr_request vb key amt def exp)
  incr_rest got got.err got.res

-- Hijack
abbrev pub hijack : Client → Option Conn × Client
hijack c = (c.conn, record c { healthy = false })
