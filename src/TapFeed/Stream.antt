-- ===== src/TapFeed/Stream.antt =====
-- runFeed of client/tap_feed.go on a stream of well-formed notifications: what it does is stated on
-- the notifications, without bytes or turns.
use gomemcached.Prelude.{
  ℕ, zero, suc, ◌<◌, ◌≡◌, refl, ap, ◌∙◌, Bool, true, false, Option, none, some, Bytes, List, [],
  ◌∷◌, ◌++◌, All, length, ◌==◌, arith, Bool-cases, inl, inr, append-nil, append_assoc,
  length-append, length-replicate,
}
use gomemcached.Io.{IoError, eof, unexpected_eof, fault, Writer, short_read}
use gomemcached.Wire.Buffer.{make_bytes}
use gomemcached.Wire.Layout.{hdr_len, WireError}
use gomemcached.Wire.Layout
use gomemcached.Wire.Opcode
use gomemcached.Wire.Status
use gomemcached.Wire.Request.{McRequest, empty_request}
use gomemcached.Wire.Request.Encoding as RequestEncoding
use gomemcached.Wire.Request.Encoding.{length-wire}
use gomemcached.Wire.Request.RoundTrip.{receive-wire}
use gomemcached.Wire.Request.Faults.{receive_short_header}
use gomemcached.Wire.Response.{McResponse, empty_response}
use gomemcached.Wire.Response.Encoding.{wire}
use gomemcached.Wire.Response.Delivery.{transmit_unlimited}
use gomemcached.Server.Refinement.{IsPlain, stream, size_pos}
use gomemcached.TapFeed.{
  TapEvent, TapFeed, next, ended, make_tap_event, is_end, wants_ack, send_ack, acknowledge,
  acknowledge_sent, after_ack, send_event, deliver, handle_packet, after_packet, after_error,
  after_receive, set_error, receive_error, feed_loop, run_feed,
}
use gomemcached.TapFeed.Events.{make_tap_event_returns, wants_ack_returns}

abbrev pub event_list : Option (Option TapEvent) → List TapEvent
event_list (some (some event)) = event ∷ []
event_list _ = []

-- The events of some notifications.
abbrev pub tap_events : List McRequest → List TapEvent
tap_events [] = []
tap_events (req ∷ reqs) = event_list (make_tap_event req) ++ tap_events reqs

-- The acknowledgment of a notification.
abbrev pub ack_of : McRequest → McResponse
ack_of req = record empty_response {
  opcode = req.opcode;
  opaque = req.opaque;
  status = Status.success;
}

abbrev pub ack_bytes : McRequest → Option Bool → Bytes
ack_bytes req (some true) = wire (ack_of req)
ack_bytes req _ = []

-- What is sent back for some notifications.
abbrev pub tap_acks : List McRequest → Bytes
tap_acks [] = []
tap_acks (req ∷ reqs) = ack_bytes req (wants_ack req) ++ tap_acks reqs

abbrev is_last : Option (Option TapEvent) → Bool
is_last (some (some event)) = is_end event.opcode
is_last _ = false

-- A well-formed packet without engine private data that is no answer to the connect request and does
-- not end the stream.
pub record IsNotification (req : McRequest) : Type 0 where
  pub plain : IsPlain req
  pub opcode : (req.opcode == Opcode.tap_connect) ≡ false
  pub goes_on : is_last (make_tap_event req) ≡ false

-- The feed in front of some packets.
abbrev feed_at : Bytes → IoError → Writer → List TapEvent → TapFeed
feed_at input e w events = record {
  reader = record { input = input; ending = e };
  writer = w;
  events = events;
  error = none;
  takes = none;
}

acknowledge-next :
    (req : McRequest) (input : Bytes) (e : IoError) (w : Writer) (events : List TapEvent)
    → w.room ≡ none
    → acknowledge (feed_at input e w events) req
      ≡ some (
          next
            (feed_at input e (record w { sent = w.sent ++ ack_bytes req (wants_ack req) }) events))
unfolding acknowledge send_ack after_ack
acknowledge-next req input e w events free =
    let (b, x) = wants_ack_returns req in
    let (n, t) = transmit_unlimited (ack_of req) w free in
    elim (Bool-cases b) [ inl y ↦ rw (x, y, t) refl | inr y ↦ rw (x, y, append-nil w.sent) refl ]

handled :
    (req : McRequest) (input : Bytes) (e : IoError) (w : Writer) (events : List TapEvent)
    (m : Option TapEvent)
    → make_tap_event req ≡ some m
    → IsNotification req
    → w.room ≡ none
    → handle_packet (feed_at input e w events) req
      ≡ some (
          next (
            feed_at input e
              (record w { sent = w.sent ++ ack_bytes req (wants_ack req) })
              (events ++ event_list (some m))))
unfolding handle_packet deliver acknowledge_sent send_event
handled req input e w events none x note free =
    rw (note.opcode, x, append-nil events) (acknowledge-next req input e w events free)
handled req input e w events (some event) x note free =
    let last = rw x at note.goes_on in
    rw (note.opcode, x, last) (acknowledge-next req input e w (events ++ (event ∷ [])) free)

handle-next :
    (req : McRequest) (input : Bytes) (e : IoError) (w : Writer) (events : List TapEvent)
    → IsNotification req
    → w.room ≡ none
    → handle_packet (feed_at input e w events) req
      ≡ some (
          next (
            feed_at input e
              (record w { sent = w.sent ++ ack_bytes req (wants_ack req) })
              (events ++ event_list (make_tap_event req))))
handle-next req input e w events note free =
    let (m, x) = make_tap_event_returns req in rw x (handled req input e w events m x note free)

loop-stream :
    (reqs : List McRequest) (fuel : ℕ) (e : IoError) (w : Writer) (events : List TapEvent)
    → All IsNotification reqs
    → w.room ≡ none
    → length (stream reqs) < fuel
    → feed_loop fuel (feed_at (stream reqs) e w events)
      ≡ ended (
          set_error
            (feed_at [] e (record w { sent = w.sent ++ tap_acks reqs }) (events ++ tap_events reqs))
            (receive_error (Layout.io e)))
unfolding feed_loop after_receive after_error after_packet short_read
loop-stream reqs zero e w events notes free f = absurd (omega arith)
loop-stream [] (suc fuel) e w events notes free f = rw (
  receive_short_header empty_request (record { input = []; ending = e }) (make_bytes hdr_len)
      (omega (arith, length-replicate {A = ℕ} hdr_len 0)) (omega arith),
  append-nil w.sent,
  append-nil events,
)
loop-stream (req ∷ reqs) (suc fuel) e w events (note, notes) free f =
    let (fits, plain) = note.plain in
    rw
      (
        receive-wire req fits empty_request (stream reqs) e (make_bytes hdr_len) plain
            (omega (arith, length-replicate {A = ℕ} hdr_len 0)),
        handle-next req (stream reqs) e w events note free,
        ← append_assoc w.sent (ack_bytes req (wants_ack req)) (tap_acks reqs),
        ← append_assoc events (event_list (make_tap_event req)) (tap_events reqs),
      )
      (loop-stream reqs fuel e (record w { sent = w.sent ++ ack_bytes req (wants_ack req) })
        (events ++ event_list (make_tap_event req)) notes free
        (omega (
          arith,
          length-append (RequestEncoding.wire req) (stream reqs),
          length-wire req,
          size_pos req,
        )))

set_error-feed_at :
    (e : IoError) (w : Writer) (events : List TapEvent)
    → set_error (feed_at [] e w events) (receive_error (Layout.io e))
      ≡ record (feed_at [] e w events) { error = receive_error (Layout.io e) }
unfolding set_error receive_error
set_error-feed_at eof w events = refl
set_error-feed_at unexpected_eof w events = refl
set_error-feed_at (fault n) w events = refl

-- A TAP feed on a connection that sends well-formed packets, none of which has engine private data,
-- has the opcode of the connect request, or makes the event that ends the stream, and that then ends
-- with `e`, with a writer that does not fail and an application that takes every event: the application gets exactly
-- the events of the notifications in their order, the acknowledgments of those that ask for one are
-- sent in the same order, and the feed's error is `e`, or none for an EOF.
pub run_feed-stream :
    (reqs : List McRequest) (e : IoError) (w : Writer) (events : List TapEvent)
    → All IsNotification reqs
    → w.room ≡ none
    → run_feed (record {
      reader = record { input = stream reqs; ending = e };
      writer = w;
      events = events;
      error = none;
      takes = none;
    })
      ≡ ended (record {
        reader = record { input = []; ending = e };
        writer = record w { sent = w.sent ++ tap_acks reqs };
        events = events ++ tap_events reqs;
        error = receive_error (Layout.io e);
        takes = none;
      })
unfolding run_feed
run_feed-stream reqs e w events notes free =
    loop-stream reqs (suc (length (stream reqs))) e w events notes free (omega arith)
    ∙ ap ended (set_error-feed_at e _ _)
