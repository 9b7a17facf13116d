-- ===== src/Tests/TapTests.antt =====
-- TAP at concrete inputs, and two connections of the sample server.
use gomemcached.Prelude.{
  ℕ, ◌≡◌, ◌≢◌, refl, true, none, some, List, [], ◌∷◌, arith, ◌==◌, if◌then◌else◌, uint16, uint32,
  inr,
}
use gomemcached.Io.{eof, Writer}
use gomemcached.GoMap.{lookup, insert, delete, nat_eq}
use gomemcached.Wire.Buffer.{slice_from}
use gomemcached.Wire.Opcode
use gomemcached.Wire.Layout.{io}
use gomemcached.Wire.Request.{McRequest, empty_request}
use gomemcached.Server.Refinement.{stream}
use gomemcached.Tap.{split_flags, parse_tap_commands, TapConnect}
use gomemcached.Tap.Flags.{split_flags-sum, ArePowers, sum}
use gomemcached.Tap.Commands.{parse_tap_commands_returns}
use gomemcached.TapFeed.Arguments.{TapArguments, default_tap_arguments, connect_request}
use gomemcached.TapFeed.{
  make_tap_event, mutation, TapEvent, TapFeed, run_feed, ended, receive_error, start_event,
  finish_event, add_meta,
}
use gomemcached.TapFeed.Connect.{parse_tap_commands-connect_request, argument_item}
use gomemcached.Gocache.{McItem, Storage, empty_storage, handle_set, dispatch}
use gomemcached.Gocache.Channel.{
  System, idle, serving, submit, reply, here, later, Reach, start, update,
}
use gomemcached.Gocache.Channel.Linear.{Served, Explains, Reach-linear}
use gomemcached.Wire.Response.{McResponse, empty_response}
use gomemcached.TapFeed.Stream.{run_feed-stream, IsNotification, tap_events, tap_acks}

split_flags-sum_example :
    (fs : List ℕ) × (split_flags 0x105 ≡ some fs) × (sum fs ≡ 0x105) × ArePowers 0 fs
split_flags-sum_example = split_flags-sum 0x105 (omega arith)

-- A connect request whose list of vBuckets is cut off.
abbrev cut_off : McRequest
cut_off = record empty_request {
  opcode = Opcode.tap_connect;
  extras = 0 ∷ 0 ∷ 0 ∷ 4 ∷ [];
  body = 0 ∷ 2 ∷ 0 ∷ [];
}

parse_tap_commands_returns_example : parse_tap_commands cut_off ≢ none
parse_tap_commands_returns_example =
    parse_tap_commands_returns cut_off
      (omega arith, (omega arith, (omega arith, (omega arith, tt))))

abbrev arguments : TapArguments
arguments = record default_tap_arguments {
  backfill = 5;
  dump = true;
  vbuckets = 1 ∷ 1023 ∷ [];
  client_name = 97 ∷ [];
}

parse_tap_commands-connect_request_example :
    (rv : TapConnect) × (parse_tap_commands (connect_request arguments)
      ≡ some (record { connect = rv; err = none }))
    × (rv.name ≡ 97 ∷ [])
    × (rv.remaining_body ≡ [])
    × ((f : ℕ) → lookup f rv.flags ≡ argument_item arguments f)
parse_tap_commands-connect_request_example =
    parse_tap_commands-connect_request arguments (omega arith) (omega arith)
      (omega arith, (omega arith, tt))

-- A mutation that asks for an acknowledgment, with the flags 7 and the expiration 9.
abbrev change : McRequest
change = record empty_request {
  opcode = Opcode.tap_mutation;
  cas = 3;
  opaque = 4;
  vbucket = 5;
  extras = 0 ∷ 0 ∷ 0 ∷ 1 ∷ 0 ∷ 0 ∷ 0 ∷ 0 ∷ 0 ∷ 0 ∷ 0 ∷ 7 ∷ 0 ∷ 0 ∷ 0 ∷ 9 ∷ [];
  key = 107 ∷ [];
  body = 1 ∷ 2 ∷ [];
}

abbrev changed : TapEvent
changed = record {
  opcode = mutation;
  vbucket = 5;
  flags = 7;
  expiry = 9;
  key = 107 ∷ [];
  value = 1 ∷ 2 ∷ [];
  cas = 3;
}

abbrev open_writer : Writer
open_writer = record { sent = []; room = none; failure = eof }

change-IsNotification : IsNotification change
unfolding make_tap_event start_event finish_event add_meta slice_from uint16 uint32
change-IsNotification = record { plain = (omega arith, inr refl); opcode = refl; goes_on = refl }

abbrev feed : List McRequest → TapFeed
feed reqs = record {
  reader = record { input = stream reqs; ending = eof };
  writer = open_writer;
  events = [];
  error = none;
  takes = none;
}

run_feed-stream_example :
    run_feed (feed (change ∷ change ∷ []))
    ≡ ended (record {
      reader = record { input = []; ending = eof };
      writer = record open_writer { sent = tap_acks (change ∷ change ∷ []) };
      events = tap_events (change ∷ change ∷ []);
      error = receive_error (io eof);
      takes = none;
    })
run_feed-stream_example =
    run_feed-stream (change ∷ change ∷ []) eof open_writer []
      (change-IsNotification, (change-IsNotification, tt)) refl

-- Two connections with one SET each; RunServer took the second one's and then the first one's.
abbrev set_of : ℕ → McRequest
set_of i = record empty_request {
  opcode = Opcode.set;
  extras = 0 ∷ 0 ∷ 0 ∷ 7 ∷ 0 ∷ 0 ∷ 0 ∷ 0 ∷ [];
  key = i ∷ [];
}

abbrev two_clients : ℕ → List McRequest
two_clients i = if i == 0 then set_of 0 ∷ [] else if i == 1 then set_of 1 ∷ [] else []

abbrev item : ℕ → McItem
item cas = record { cas = cas; flags = 7; expiration = 0; value = [] }

abbrev stored : ℕ → McResponse
stored cas = record empty_response { cas = cas }

abbrev second_set : Storage
second_set = record { table = (1 ∷ [], item 1) ∷ []; cas = 1 }

abbrev s1 : System
s1 = record (start empty_storage two_clients) {
  server = serving 1 (set_of 1);
  requests = update two_clients 1 [];
}

abbrev s2 : System
s2 = record s1 {
  storage = second_set;
  server = idle;
  responses = update (λ (i : ℕ). []) 1 (stored 1 ∷ []);
}

abbrev s3 : System
s3 = record s2 { server = serving 0 (set_of 0); requests = update s2.requests 0 [] }

Reach-s3 : Reach (start empty_storage two_clients) s3
unfolding dispatch handle_set slice_from uint32 insert delete
Reach-s3 =
    later
      (later (later here (submit 1 (set_of 1) [] refl refl))
        (reply 1 (set_of 1) second_set (stored 1) refl refl))
      (submit 0 (set_of 0) [] refl refl)

Reach-linear_example : (order : List Served) × Explains empty_storage two_clients s3 order
Reach-linear_example = Reach-linear empty_storage two_clients s3 Reach-s3
