-- ===== src/Client/Commands/Answers.antt =====
-- Auth, Incr and Receive of client/mc.go on what the server answers.
use mathlib.Core.Option
use gomemcached.Prelude.{
  ℕ, ◌<◌, ◌≤◌, ◌≡◌, refl, not, none, some, Bytes, ◌++◌, length, if◌then◌else◌, put_uint64, uint64,
  uint64_put, uint64_short, ap, IsU64, Bool-cases, inl, inr,
}
use gomemcached.Io.{IoError, Writer}
use gomemcached.Wire.Layout.{hdr_len}
use gomemcached.Wire.Status
use gomemcached.Wire.Request.Encoding as RequestEncoding
use gomemcached.Wire.Response.{McResponse, is_fatal}
use gomemcached.Wire.Response.Encoding.{wire}
use gomemcached.Client.{Client}
use gomemcached.Client.Sending.{failure}
use gomemcached.Client.Talk.{IsAnswer, client_at, behind, send_answered, failure_success}
use gomemcached.Client.Talk.{facing, get_response_answered}
use gomemcached.Client.Commands.{receive, received}
use gomemcached.Client.Commands.{
  auth, auth_rest, no_plain, server, contains, plain, plain_auth, list_mechs, incr, incr_rest,
  incr_request,
}

-- Auth, when the server's list of mechanisms is a success and a response to a second request is
-- there, with a writer that does not fail: the credentials are sent exactly when the list contains
-- PLAIN, and the second response is then the result; otherwise the request for the list is all that
-- is sent, the list is the result, with Auth's own error.
pub auth-answered :
    (c : Client) (user pass : Bytes) (mechs second : McResponse) (rest : Bytes) (e : IoError)
    (w : Writer)
    → IsAnswer mechs
    → mechs.status ≡ Status.success
    → IsAnswer second
    → w.room ≡ none
    → length c.hdr_buf ≤ hdr_len
    → c.conn
      ≡ some (record {
        reader = record { input = wire mechs ++ (wire second ++ rest); ending = e };
        writer = w;
      })
    → auth c user pass
      ≡ some (
          if contains mechs.body plain
          then record {
            res = some second;
            err = Option.map server (failure second);
            client =
                behind rest e
                  (record w { sent = w.sent ++ RequestEncoding.wire list_mechs })
                  c.hdr_buf
                  (plain_auth user pass)
                  second;
          }
          else record {
            res = some mechs;
            err = some no_plain;
            client = behind (wire second ++ rest) e w c.hdr_buf list_mechs mechs;
          })
unfolding auth auth_rest
auth-answered c user pass mechs second rest e w a ok b free short k =
    let w' : Writer = record w { sent = w.sent ++ RequestEncoding.wire list_mechs } in
    let next : Client = record (client_at (wire second ++ rest) e w' c.hdr_buf) {
      healthy = not (is_fatal none);
    } in
    elim (Bool-cases (contains mechs.body plain)) [
      | inl has ↦ rw (
        send_answered c list_mechs mechs (wire second ++ rest) e w a free short k,
        failure_success mechs ok,
        has,
        send_answered next (plain_auth user pass) second rest e w' b free short refl,
      )
      | inr not_ ↦ rw (
        send_answered c list_mechs mechs (wire second ++ rest) e w a free short k,
        failure_success mechs ok,
        not_,
      )
    ]

-- Incr, when the server's answer is there, with a writer that does not fail: a success with a uint64
-- in its body gives this value and no error, and a success with a shorter body panics.
pub incr-answered :
    (c : Client) (vb : ℕ) (key : Bytes) (amt def exp : ℕ) (res : McResponse) (value : ℕ)
    (more rest : Bytes) (e : IoError) (w : Writer)
    → IsAnswer res
    → res.status ≡ Status.success
    → IsU64 value
    → w.room ≡ none
    → length c.hdr_buf ≤ hdr_len
    → c.conn
      ≡ some (record { reader = record { input = wire res ++ rest; ending = e }; writer = w })
    → (res.body ≡ put_uint64 value ++ more
        → incr c vb key amt def exp
          ≡ some (record {
            value = value;
            err = none;
            client = behind rest e w c.hdr_buf (incr_request vb key amt def exp) res;
          }))
      × (length res.body < 8 → incr c vb key amt def exp ≡ none)
unfolding incr incr_rest
incr-answered c vb key amt def exp res value more rest e w a ok v free short k =
    let sent = send_answered c (incr_request vb key amt def exp) res rest e w a free short k in
    (
      λ b. rw (sent, failure_success res ok, ap uint64 b, uint64_put value more v),
      λ b. rw (sent, failure_success res ok, uint64_short res.body b),
    )

-- Receive of a success.
pub receive_answered :
    (c : Client) (res : McResponse) (rest : Bytes) (e : IoError) (w : Writer)
    → IsAnswer res
    → length c.hdr_buf ≤ hdr_len
    → res.status ≡ Status.success
    → receive (facing c (wire res ++ rest) e w)
      ≡ some (record { res = some res; err = none; client = facing c rest e w })
unfolding receive received
receive_answered c res rest e w a short ok = rw (
  get_response_answered (facing c (wire res ++ rest) e w) res rest e w a short refl,
  failure_success res ok,
)
