-- ===== src/Tests/ServerTests.antt =====
-- The sample server at concrete inputs: a SET and a GET over one connection.
use gomemcached.Prelude.{
  ℕ, ◌+◌, ◌<◌, ◌≡◌, ◌≢◌, ◌↔◌, ◌⊎◌, refl, none, some, List, [], ◌∷◌, inl, arith, uint32,
}
use gomemcached.Io.{eof, Writer}
use gomemcached.GoMap.{lookup, insert, delete, bytes_eq, bytes_beq}
use gomemcached.Wire.Buffer.{slice_from}
use gomemcached.Wire.Layout.{io}
use gomemcached.Wire.Opcode
use gomemcached.Wire.Status
use gomemcached.Wire.Request.{McRequest, empty_request, has_engine_private}
use gomemcached.Wire.Response.{McResponse, empty_response}
use gomemcached.Server.{returned, out_of_fuel, handle_io}
use gomemcached.Server.Refinement.{stream, serve, handle_io-stream}
use gomemcached.Server.Termination.{handle_io_ends}
use gomemcached.Gocache.{
  McItem, Storage, empty_storage, handle_set, handle_get, handle_flush, handle_delete, dispatch,
  run_server, req_handler,
}
use gomemcached.Gocache.Replies.{get_after_set, dispatch_panics}
use gomemcached.Gocache.Invariant.{IsValid, IsValid-empty, count_sets, run_server-IsValid}
use gomemcached.Gocache.Session.{replies, connection_session}

abbrev set_k : McRequest
set_k = record empty_request {
  opcode = Opcode.set;
  opaque = 1;
  extras = 0 ∷ 0 ∷ 0 ∷ 7 ∷ 0 ∷ 0 ∷ 0 ∷ 0 ∷ [];
  key = 107 ∷ [];
  body = 1 ∷ 2 ∷ [];
}

abbrev set_j : McRequest
set_j = record set_k { key = 106 ∷ [] }

abbrev get_k : McRequest
get_k = record empty_request { opcode = Opcode.get; opaque = 2; key = 107 ∷ [] }

abbrev delete_k : McRequest
delete_k = record empty_request { opcode = Opcode.delete; key = 107 ∷ [] }

-- FLUSH as clients send it: its extras are optional in the protocol.
abbrev flush_all : McRequest
flush_all = record empty_request { opcode = Opcode.flush }

abbrev item : ℕ → McItem
item cas = record { cas = cas; flags = 7; expiration = 0; value = 1 ∷ 2 ∷ [] }

abbrev with_k : Storage
with_k = record { table = (107 ∷ [], item 1) ∷ []; cas = 1 }

abbrev with_j_k : Storage
with_j_k = record { table = (106 ∷ [], item 2) ∷ (107 ∷ [], item 1) ∷ []; cas = 2 }

abbrev stored : ℕ → McResponse
stored cas = record empty_response { cas = cas }

abbrev value_k : McResponse
value_k = record empty_response { extras = 0 ∷ 0 ∷ 0 ∷ 7 ∷ []; cas = 1; body = 1 ∷ 2 ∷ [] }

abbrev missing : McResponse
missing = record empty_response { status = Status.key_enoent }

set_run : dispatch set_k empty_storage ≡ some (with_k, stored 1)
unfolding dispatch handle_set slice_from uint32 insert delete
set_run = refl

between_run : run_server with_k (set_j ∷ []) ≡ some (with_j_k, stored 2 ∷ [])
unfolding run_server dispatch handle_set slice_from uint32 insert delete bytes_beq
between_run = refl

get_after_set_example : dispatch get_k with_j_k ≡ some (with_j_k, value_k)
unfolding uint32 bytes_beq
get_after_set_example =
    get_after_set set_k get_k (set_j ∷ []) 7 empty_storage with_k with_j_k (stored 1)
      (stored 2 ∷ []) refl refl refl refl set_run (refl, tt) between_run

abbrev without_k : Storage
without_k = record { table = []; cas = 1 }

delete_run : dispatch delete_k with_k ≡ some (without_k, empty_response)
unfolding dispatch handle_delete delete bytes_beq
delete_run = refl

-- A FLUSH without extras.
dispatch_panics_example :
    (dispatch flush_all with_k ≡ none)
    ↔ (((Opcode.flush ≡ Opcode.set) × (0 < 8)) ⊎ ((Opcode.flush ≡ Opcode.flush) × (0 < 4)))
dispatch_panics_example = dispatch_panics flush_all with_k

flush_panics : dispatch flush_all with_k ≡ none
unfolding dispatch handle_flush uint32
flush_panics = refl

abbrev two_sets : List McRequest
two_sets = set_k ∷ set_j ∷ []

two_sets_run : run_server empty_storage two_sets ≡ some (with_j_k, stored 1 ∷ stored 2 ∷ [])
unfolding run_server dispatch handle_set slice_from uint32 insert delete bytes_beq
two_sets_run = refl

run_server-IsValid_example : IsValid with_j_k × (2 ≡ 0 + count_sets two_sets)
run_server-IsValid_example =
    run_server-IsValid two_sets empty_storage with_j_k (stored 1 ∷ stored 2 ∷ []) IsValid-empty
      (omega arith) two_sets_run

abbrev open_writer : Writer
open_writer = record { sent = []; room = none; failure = eof }

abbrev set_get : List McRequest
set_get = set_k ∷ get_k ∷ []

set_get_run : run_server empty_storage set_get ≡ some (with_k, stored 1 ∷ value_k ∷ [])
unfolding run_server dispatch handle_set handle_get slice_from uint32 insert delete bytes_beq lookup
set_get_run = refl

connection_session_example :
    handle_io req_handler empty_storage
      (record { input = stream set_get; ending = eof })
      open_writer
      none
    ≡ returned (record {
      err = some (io eof);
      state = with_k;
      writer = record {
        sent = replies set_get (stored 1 ∷ value_k ∷ []);
        room = none;
        failure = eof;
      };
      reader = record { input = []; ending = eof };
    })
unfolding has_engine_private
connection_session_example =
    connection_session eof set_get empty_storage with_k (stored 1 ∷ value_k ∷ []) open_writer
      ((omega arith, inl refl), ((omega arith, inl refl), tt)) refl set_get_run

handle_io-stream_example :
    handle_io req_handler empty_storage
      (record { input = stream set_get; ending = eof })
      open_writer
      none
    ≡ serve req_handler eof set_get empty_storage open_writer
unfolding has_engine_private
handle_io-stream_example =
    handle_io-stream req_handler eof set_get empty_storage open_writer
      ((omega arith, inl refl), ((omega arith, inl refl), tt))

handle_io_ends_example :
    handle_io req_handler empty_storage
      (record { input = 0x80 ∷ 1 ∷ []; ending = eof })
      open_writer
      (some eof)
    ≢ out_of_fuel
handle_io_ends_example =
    handle_io_ends req_handler empty_storage (record { input = 0x80 ∷ 1 ∷ []; ending = eof })
      open_writer (some eof)
