-- ===== src/Tests/ClientTests.antt =====
-- A client at concrete inputs, and the theorems on clients where their hypotheses hold.
use gomemcached.Prelude.{
  ◌≡◌, refl, true, false, not, none, some, Bytes, [], ◌∷◌, ◌++◌, arith, replicate,
}
use gomemcached.Io.{eof, fault, Writer, write, write_limited, read_full}
use gomemcached.Wire.Buffer.{write_at, copy_field, slice, slice_from}
use gomemcached.Prelude.{uint16, uint32, uint64}
use gomemcached.Wire.Layout.{io}
use gomemcached.Wire.Status
use gomemcached.Wire.Request.{McRequest, empty_request}
use gomemcached.Wire.Request
use gomemcached.Wire.Response
use gomemcached.Wire.Response.{McResponse, empty_response, is_fatal, err_status, no_conn}
use gomemcached.Wire.Response.Encoding.{wire}
use gomemcached.Client.{
  Client, Reply, send, get, get_request, transmit_request_to, send_rest, get_response_from,
  response_error, store_extras, CasState, Next, fetch, refresh, cas_next, update_request,
}
use gomemcached.Prelude.{inl}
use gomemcached.GoMap.{lookup}
use gomemcached.Wire.Request.{has_engine_private}
use gomemcached.Server.{handle_io, returned}
use gomemcached.Gocache.{req_handler, empty_storage, dispatch, handle_get}
use gomemcached.Client.Exchange.{send_to_server}
use gomemcached.Client.Sending.{send_health}

abbrev open_writer : Writer
open_writer = record { sent = []; room = none; failure = eof }

-- The answer to a GET: an item, and none.
abbrev item : McResponse
item = record empty_response { cas = 5; body = 98 ∷ [] }

abbrev missing : McResponse
missing = record empty_response { status = Status.key_enoent }

abbrev client_of : Bytes → Writer → Client
client_of input w = record {
  conn = some (record { reader = record { input = input; ending = eof }; writer = w });
  healthy = true;
  hdr_buf = replicate 24 0;
}

abbrev sent_get : Writer
sent_get = record open_writer { sent = wire_get }
  where
    wire_get : Bytes
    wire_get = 0x80 ∷ 0 ∷ 0 ∷ 1 ∷ 0 ∷ 0 ∷ 0 ∷ 7 ∷ 0 ∷ 0 ∷ 0 ∷ 1 ∷ replicate 12 0 ++ (97 ∷ [])

get_transmitted :
    Request.transmit (get_request 7 (97 ∷ [])) open_writer
    ≡ some (record { n = 25; err = none; writer = sent_get })
unfolding Request.transmit Request.bytes Request.fill_header_bytes write_at Request.size copy_field
    write
get_transmitted = refl

-- A client without a connection.
abbrev unconnected : Client
unconnected = record { conn = none; healthy = true; hdr_buf = [] }

abbrev refused : Reply
refused = record { res = none; err = some no_conn; client = record unconnected { healthy = false } }

refused_run : send unconnected (get_request 7 (97 ∷ [])) ≡ some refused
unfolding send transmit_request_to send_rest is_fatal err_status
refused_run = refl

send_health_example : false ≡ not (is_fatal (some no_conn))
send_health_example = send_health unconnected (get_request 7 (97 ∷ [])) refused refused_run

abbrev fresh : CasState
fresh = record {
  initialized = false;
  value = none;
  cas = 0;
  exists_ = false;
  err = none;
  resp = none;
}

abbrev first_next : Next
first_next = record {
  more = true;
  state = record fresh {
    initialized = true;
    value = some (98 ∷ []);
    cas = 5;
    exists_ = true;
    resp = some item;
  };
  client = client_of [] sent_get;
}

first_run : cas_next (client_of (wire item) open_writer) 7 (97 ∷ []) 0 fresh ≡ some first_next
unfolding cas_next fetch get send transmit_request_to Request.transmit Request.bytes
    Request.fill_header_bytes write_at Request.size copy_field write send_rest get_response_from
    Response.receive Response.receive_first read_full Response.receive_header Response.receive_words
    Response.receive_body Response.split_body slice slice_from uint16 uint32 uint64 response_error
    is_fatal err_status refresh
first_run = refl

-- A writer that takes nothing.
abbrev broken : Writer
broken = record { sent = []; room = some 0; failure = fault 32 }

abbrev not_sent : Reply
not_sent = record {
  res = none;
  err = some (Response.wire (io (fault 32)));
  client = client_of [] broken;
}

not_sent_run :
    transmit_request_to
      (client_of [] broken)
      (client_of [] broken).conn
      (update_request 7 (97 ∷ []) 5 (some (98 ∷ [])))
    ≡ some not_sent
unfolding transmit_request_to update_request store_extras write_limited Request.transmit
    Request.bytes Request.fill_header_bytes write_at Request.size copy_field write
not_sent_run = refl

-- A GET of a key that the storage does not have, for vbucket 7.
send_to_server_example :
    (handle_io req_handler empty_storage
        (record { input = sent_get.sent; ending = eof })
        open_writer
        none
      ≡ returned (record {
        err = some (io eof);
        state = empty_storage;
        writer = record open_writer { sent = wire missing };
        reader = record { input = []; ending = eof };
      }))
    × (send (client_of (wire missing) open_writer) (get_request 7 (97 ∷ []))
        ≡ some (record {
          res = some missing;
          err = some (Response.response missing);
          client = record (client_of [] sent_get) { healthy = true };
        }))
unfolding response_error is_fatal err_status has_engine_private dispatch handle_get lookup
send_to_server_example =
    send_to_server (client_of (wire missing) open_writer) (get_request 7 (97 ∷ [])) open_writer
      open_writer (record { n = 25; err = none; writer = sent_get }) empty_storage empty_storage
      missing eof (omega arith, inl refl) (omega arith) refl (omega arith) refl refl get_transmitted
      refl refl
