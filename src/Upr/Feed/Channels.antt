-- ===== src/Upr/Feed/Channels.antt =====
-- The goroutines of a feed in client/upr_feed.go, runFeed and sendCommands, and the application, as
-- they meet on the feed's channels. The application takes events and closes the feed, and calls no
-- other method while the feed runs.
pub mod Actions
pub mod Sends
pub mod Order
pub mod Blocking
pub mod Closing
pub mod Completion
use gomemcached.Prelude.{
  ℕ, ◌%◌, ◌^◌, ◌<◌, ◌≡◌, ◌≢◌, Bool, true, false, Option, none, some, List, [], ◌∷◌, ◌++◌, map,
  length,
}
use gomemcached.Io.{Reader}
use gomemcached.Wire.Buffer.{make_bytes}
use gomemcached.Wire.Layout.{hdr_len, WireError}
use gomemcached.Wire.Request
use gomemcached.Wire.Request.{McRequest, empty_request, receive}
use gomemcached.Client.{Client, Reply}
use gomemcached.Client.Commands.{transmit, hijack}
use gomemcached.Upr.{UprEvent}
use gomemcached.Upr.Feed.{
  UprFeed, Step, break_loop, next, handle_packet, count_bytes, close_event, send_buffer_ack,
  transmit_ack,
}

-- What runFeed sends on a channel: on transmitCh, or on C.
pub data Action : Type 0 where
  command : McRequest → Action
  event : UprEvent → Action

-- Where runFeed stands: `starting`, before Hijack, has the feed and what its connection will give. `running` has the feed and the packet's variable as the turn leaves them, and
-- what the turn has yet to send; with nothing left it receives. `closing` has what doStreamClose has
-- yet to send, and `stopping` sends on transmitCl.
pub data Loop : Type 0 where
  starting : UprFeed → Reader → Loop
  running : UprFeed → McRequest → Reader → List Action → Loop
  closing : List UprEvent → Loop
  stopping : Loop
  returned : Loop
  crashed : Loop

-- Where sendCommands stands: at its select, with a command to transmit, or behind its loop.
pub data Sender : Type 0 where
  ready : Sender
  transmitting : McRequest → Sender
  stopped : Sender

-- The channels transmitCh and transmitCl have no buffer; that of C is `buffer`. `taken` is what the
-- application received, `handed` what sendCommands received, and `closed` is whether Close was called.
pub record System : Type 0 where
  pub loop : Loop
  pub sender : Sender
  pub client : Client
  pub buffer : List UprEvent
  pub taken : List UprEvent
  pub handed : List McRequest
  pub closed : Bool

-- make(chan *UprEvent, 10)
abbrev pub buffer_size : ℕ
buffer_size = 10

abbrev pub event_list : Option UprEvent → List UprEvent
event_list none = []
event_list (some e) = e ∷ []

-- What a turn sends: the answer to a NOOP, the event, and the acknowledgment.
abbrev pub actions : List McRequest → Option UprEvent → List McRequest → List Action
actions noops ev acks = map command noops ++ (map event (event_list ev) ++ map command acks)

-- The packet that the loop receives.
abbrev pub received : McRequest → Reader → Option Request.Received
received pkt r = receive pkt r (make_bytes hdr_len)

-- The feed behind a turn.
abbrev pub turned : UprFeed → Option UprEvent → Bool → ℕ → UprFeed
turned feed ev send_ack n =
    transmit_ack (
      send_buffer_ack (record feed { events = feed.events ++ event_list ev }) send_ack (n % 2 ^ 32))

-- One step of a goroutine: a meeting on a channel, or what it does between two.
pub data Move (s : System) : System → Type 0 where
  -- mc := feed.conn.Hijack(), which marks the client as unhealthy.
  take_over :
      (feed : UprFeed) (r : Reader)
      → s.loop ≡ starting feed r
      → Move s (record s { loop = running feed empty_request r []; client = (hijack s.client).1 })
  -- A packet that the loop goes on with. `noops` and `acks` are the commands of the turn.
  turn :
      (feed : UprFeed) (pkt : McRequest) (r : Reader) (got : Request.Received) (feed' : UprFeed)
      (ev : Option UprEvent) (send_ack : Bool) (noops acks : List McRequest)
      → s.loop ≡ running feed pkt r []
      → received pkt r ≡ some got
      → got.err ≡ none
      → handle_packet (count_bytes feed got.n) got.req ≡ some (next feed' ev send_ack)
      → feed'.commands ≡ feed.commands ++ noops
      → (turned feed' ev send_ack got.n).commands ≡ feed'.commands ++ acks
      → Move s (record s {
        loop = running (turned feed' ev send_ack got.n) got.req got.reader (actions noops ev acks);
      })
  -- A packet for a stream that is not there.
  unknown_stream :
      (feed feed' : UprFeed) (pkt : McRequest) (r : Reader) (got : Request.Received)
      → s.loop ≡ running feed pkt r []
      → received pkt r ≡ some got
      → got.err ≡ none
      → handle_packet (count_bytes feed got.n) got.req ≡ some (break_loop feed')
      → Move s (record s { loop = stopping })
  -- An error of the connection.
  failed :
      (feed : UprFeed) (pkt : McRequest) (r : Reader) (got : Request.Received) (err : WireError)
      → s.loop ≡ running feed pkt r []
      → received pkt r ≡ some got
      → got.err ≡ some err
      → Move s (record s { loop = closing (map close_event (feed.range.order feed.vbstreams)) })
  receive_panics :
      (feed : UprFeed) (pkt : McRequest) (r : Reader)
      → s.loop ≡ running feed pkt r []
      → received pkt r ≡ none
      → Move s (record s { loop = crashed })
  packet_panics :
      (feed : UprFeed) (pkt : McRequest) (r : Reader) (got : Request.Received)
      → s.loop ≡ running feed pkt r []
      → received pkt r ≡ some got
      → got.err ≡ none
      → handle_packet (count_bytes feed got.n) got.req ≡ none
      → Move s (record s { loop = crashed })
  -- feed.transmitCh <- command with command := <-ch
  hand :
      (feed : UprFeed) (pkt : McRequest) (r : Reader) (req : McRequest) (rest : List Action)
      → s.loop ≡ running feed pkt r (command req ∷ rest)
      → s.sender ≡ ready
      → Move s (record s {
        loop = running feed pkt r rest;
        sender = transmitting req;
        handed = s.handed ++ (req ∷ []);
      })
  -- ch <- event
  send :
      (feed : UprFeed) (pkt : McRequest) (r : Reader) (e : UprEvent) (rest : List Action)
      → s.loop ≡ running feed pkt r (event e ∷ rest)
      → length s.buffer < buffer_size
      → Move s (record s { loop = running feed pkt r rest; buffer = s.buffer ++ (e ∷ []) })
  -- <-feed.closer
  leave :
      (feed : UprFeed) (pkt : McRequest) (r : Reader) (e : UprEvent) (rest : List Action)
      → s.loop ≡ running feed pkt r (event e ∷ rest)
      → s.closed ≡ true
      → Move s (record s { loop = stopping })
  -- ch <- uprEvent in doStreamClose
  send_end :
      (e : UprEvent) (rest : List UprEvent)
      → s.loop ≡ closing (e ∷ rest)
      → length s.buffer < buffer_size
      → Move s (record s { loop = closing rest; buffer = s.buffer ++ (e ∷ []) })
  all_ended : s.loop ≡ closing [] → Move s (record s { loop = stopping })
  -- mc.Transmit(command)
  transmitted :
      (req : McRequest) (sent : Reply)
      → s.sender ≡ transmitting req
      → transmit s.client req ≡ some sent
      → sent.err ≡ none
      → Move s (record s { sender = ready; client = sent.client })
  not_transmitted :
      (req : McRequest) (sent : Reply)
      → s.sender ≡ transmitting req
      → transmit s.client req ≡ some sent
      → sent.err ≢ none
      → Move s (record s { sender = stopped; client = sent.client })
  -- feed.transmitCl <- true with <-closer; close(ch) is deferred.
  stop :
      s.loop ≡ stopping → s.sender ≡ ready → Move s (record s { loop = returned; sender = stopped })
  -- The application receives from C.
  take :
      (e : UprEvent) (rest : List UprEvent)
      → s.buffer ≡ e ∷ rest
      → Move s (record s { buffer = rest; taken = s.taken ++ (e ∷ []) })
  -- Close
  close : s.closed ≡ false → Move s (record s { closed = true })

-- The systems that come after some steps.
pub data Reach (s : System) : System → Type 0 where
  here : Reach s s
  later : {t u : System} → Reach s t → Move t u → Reach s u

-- A feed that starts.
abbrev pub start : UprFeed → Reader → Client → System
start feed r client = record {
  loop = starting feed r;
  sender = ready;
  client = client;
  buffer = [];
  taken = [];
  handed = [];
  closed = false;
}
