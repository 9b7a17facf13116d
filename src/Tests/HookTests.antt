-- ===== src/Tests/HookTests.antt =====
-- A client with the hooks of debug/mcdebug.go at concrete inputs.
use gomemcached.Prelude.{ℕ, ◌+◌, ◌≡◌, refl, true, none, some, Bytes, List, [], ◌∷◌, arith}
use gomemcached.Io.{eof, read_full, write}
use gomemcached.Wire.Buffer.{write_at, copy_field}
use gomemcached.Wire.Response.{receive, receive_first}
use gomemcached.GoMap.{lookup, bytes_eq}
use gomemcached.Wire.Opcode
use gomemcached.Wire.Request.{McRequest, empty_request, transmit, bytes, fill_header_bytes, size}
use gomemcached.Wire.Request.Encoding.{wire}
use gomemcached.Client.{Client, Conn, transmit_request_to, get_response_from}
use gomemcached.Debug.{total, report}
use gomemcached.Debug.Reports.{shown}
use gomemcached.Debug.Hooks.{Meters}
use gomemcached.Debug.Hooks.Sessions.{Call, sending, receiving, run_calls, new_meters}
use gomemcached.Debug.Hooks.Metering.{run_calls-metered, plain_call, plain_calls}

abbrev noop_request : McRequest
noop_request = record empty_request { opcode = Opcode.noop }

-- A connection that was closed by its server, and takes what is written to it.
abbrev quiet_conn : Bytes → Conn
quiet_conn sent = record {
  reader = record { input = []; ending = eof };
  writer = record { sent = sent; room = none; failure = eof };
}

abbrev quiet_client : Bytes → Client
quiet_client sent = record { conn = some (quiet_conn sent); healthy = true; hdr_buf = [] }

abbrev one_send : List Call
one_send = sending noop_request ∷ (receiving ∷ [])

one_send_runs : plain_calls (quiet_client []) one_send ≡ some (quiet_client (wire noop_request))
unfolding plain_calls plain_call transmit_request_to transmit bytes fill_header_bytes write_at size
    copy_field get_response_from receive receive_first read_full write
one_send_runs = refl

run_calls-metered_example :
    (m : Meters) × (sent taken : ℕ) × (run_calls new_meters (quiet_client []) one_send
      ≡ some (m, quiet_client (wire noop_request)))
    × (24 ≡ 0 + sent)
    × (0 ≡ 0 + taken)
    × (lookup total (report m.sent.moved) ≡ shown sent)
    × (lookup total (report m.received.moved) ≡ shown taken)
run_calls-metered_example =
    run_calls-metered one_send (quiet_client []) (quiet_client (wire noop_request))
      (omega arith, (tt, tt)) tt (omega arith) (omega arith) one_send_runs
