-- ===== src/Tests/ChannelTests.antt =====
-- The goroutines of a feed of one stream at concrete inputs.
use mathlib.Core.List.Permᴰ
use gomemcached.Prelude.{
  ◌≡◌, ◌≢◌, refl, true, false, none, some, List, [], ◌∷◌, ◌++◌, arith, replicate, inl,
}
use gomemcached.Io.{eof, Reader}
use gomemcached.GoMap.{lookup, nat_eq}
use gomemcached.Wire.Opcode
use gomemcached.Wire.Request.{McRequest, empty_request, has_engine_private}
use gomemcached.Client.{Client, Conn}
use gomemcached.Server.Refinement.{stream}
use gomemcached.Upr.{UprEvent, empty_event, UprStream, vb_opaque}
use gomemcached.Upr.Events.{mutation_extras}
use gomemcached.Upr.Feed.{MapRange, UprFeed, run_feed, ended}
use gomemcached.Upr.Feed.Stream.{run_feed-upr_events, IsNotification}
use gomemcached.Upr.Feed.Channels.{
  System, Move, Reach, here, later, start, closing, stopping, returned, crashed, stopped, all_ended,
  send_end,
}
use gomemcached.Upr.Feed.Channels.Order.{Reach-run_feed}
use gomemcached.Upr.Feed.Channels.Blocking.{stopped_sender_blocks, Move-progress}
use gomemcached.Upr.Feed.Channels.Closing.{closing_blocks}
use gomemcached.Upr.Feed.Channels.Completion.{run_feed_completes}

abbrev seven : UprStream
seven = record { vbucket = 7; vbuuid = 5; start_seq = 0; end_seq = 9; connected = true }

-- A window of 50 bytes.
-- A range in the order of the list.
abbrev as_listed : MapRange
as_listed = record { order = λ m. m; perm = λ m. Permᴰ.refl m }

abbrev small_feed : UprFeed
small_feed = record {
  vbstreams = (7, seven) ∷ [];
  range = as_listed;
  error = none;
  to_ack_bytes = 0;
  max_ack_bytes = 50;
  stats = record {
    total_bytes = 0;
    total_mutation = 0;
    total_buffer_ack_sent = 0;
    total_snap_shot = 0;
  };
  events = [];
  commands = [];
  takes = none;
}

abbrev change : McRequest
change = record empty_request {
  opcode = Opcode.upr_mutation;
  opaque = 7;
  extras = mutation_extras (record empty_event { seqno = 1 }) (0 ∷ []);
  key = 97 ∷ [];
  body = 98 ∷ [];
}

change-IsNotification : IsNotification small_feed.vbstreams change
unfolding lookup vb_opaque has_engine_private
change-IsNotification = record {
  plain = (omega arith, inl refl);
  kind = refl;
  known = λ e. cc;
  enough = λ e. omega (arith, e);
}

-- Two mutations, of which the second is acknowledged.
abbrev two_changes : Reader
two_changes = record { input = stream (change ∷ (change ∷ [])); ending = eof }

two_changes_run : (last : UprFeed) × (run_feed small_feed two_changes ≡ ended last)
two_changes_run =
    let (last, runs, a, b, c, d) =
      run_feed-upr_events (change ∷ (change ∷ [])) eof small_feed refl (omega arith) (omega arith)
        (change-IsNotification, (change-IsNotification, tt)) in
    (last, runs)

abbrev open_conn : Conn
open_conn = record {
  reader = record { input = []; ending = eof };
  writer = record { sent = []; room = none; failure = eof };
}

abbrev open_client : Client
open_client = record { conn = some open_conn; healthy = true; hdr_buf = [] }

completed : (s : System) × Reach (start small_feed two_changes open_client) s
completed =
    let (s, reach, a, b, c) =
      run_feed_completes small_feed two_changes_run.0 two_changes open_client open_conn refl refl
        refl refl refl two_changes_run.1 in
    (s, reach)

Reach-run_feed_example :
    (completed.0.loop ≢ crashed)
    × ((es : List UprEvent) × (cs : List McRequest) × (two_changes_run.0.events
          ≡ (completed.0.taken ++ completed.0.buffer) ++ es)
        × (two_changes_run.0.commands ≡ completed.0.handed ++ cs)
        × (completed.0.loop ≡ returned → completed.0.closed ≡ false → (es ≡ []) × (cs ≡ [])))
Reach-run_feed_example =
    Reach-run_feed small_feed two_changes_run.0 two_changes open_client completed.0 refl refl refl
      two_changes_run.1 completed.1

-- The loop has sent the ends of its streams, and sendCommands ended before.
abbrev abandoned : System
abandoned = record (start small_feed two_changes open_client) {
  loop = closing [];
  sender = stopped;
}

abbrev abandoned_end : System
abandoned_end = record abandoned { loop = stopping }

stopped_sender_blocks_example :
    (abandoned_end.sender ≡ stopped)
    × (abandoned_end.loop ≢ returned)
    × (abandoned_end.handed ≡ abandoned.handed)
stopped_sender_blocks_example =
    stopped_sender_blocks abandoned abandoned_end refl (λ e. cc) (later here (all_ended refl))

Move-progress_example :
    (t : System) × Move (start small_feed two_changes open_client) t × (t.closed ≡ false)
Move-progress_example =
    Move-progress (start small_feed two_changes open_client) (λ e. cc) (λ e. cc) (λ e. cc)

-- Eleven streams, and an application that called Close.
abbrev full_feed : System
full_feed = record (start small_feed two_changes open_client) {
  loop = closing (replicate 11 empty_event);
  closed = true;
}

abbrev full_feed_later : System
full_feed_later = record full_feed {
  loop = closing (replicate 10 empty_event);
  buffer = empty_event ∷ [];
}

closing_blocks_example : full_feed_later.loop ≢ returned
closing_blocks_example =
    closing_blocks full_feed full_feed_later (replicate 11 empty_event) refl (omega arith)
      (omega arith)
      (later here (send_end empty_event (replicate 10 empty_event) refl (omega arith))) refl
