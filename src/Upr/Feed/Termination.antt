-- ===== src/Upr/Feed/Termination.antt =====
-- The loop of a feed ends on every input.
use gomemcached.Prelude.{
  ℕ, zero, suc, ◌<◌, ◌≡◌, ◌≢◌, refl, Bool, Option, none, some, length, arith, length-replicate,
}
use gomemcached.Io.{Reader}
use gomemcached.Wire.Buffer.{make_bytes}
use gomemcached.Wire.Layout.{hdr_len, WireError}
use gomemcached.Wire.Request
use gomemcached.Wire.Request.{McRequest, size, receive, empty_request}
use gomemcached.Wire.Request.Consumption.{IsAccounted, receive-IsAccounted}
use gomemcached.Upr.Feed.{
  UprFeed, Step, break_loop, next, Outcome, out_of_fuel, deliver, after_event, after_packet,
  after_error, after_receive, feed_loop, run_feed,
}

module _ (again : UprFeed → McRequest → Reader → Outcome) where
  after_event_ends :
      (got : Request.Received) (feed : UprFeed) (send_ack : Bool) (out : Option UprFeed)
      → ((feed' : UprFeed) → again feed' got.req got.reader ≢ out_of_fuel)
      → after_event again got feed send_ack out ≢ out_of_fuel
  unfolding after_event
  after_event_ends got feed send_ack none k = λ e. cc
  after_event_ends got feed send_ack (some feed') k = k _

  after_packet_ends :
      (got : Request.Received) (step : Option Step)
      → ((feed' : UprFeed) → again feed' got.req got.reader ≢ out_of_fuel)
      → after_packet again got step ≢ out_of_fuel
  unfolding after_packet
  after_packet_ends got none k = λ e. cc
  after_packet_ends got (some (break_loop feed)) k = λ e. cc
  after_packet_ends got (some (next feed event send_ack)) k =
      after_event_ends got feed send_ack (deliver feed event) k

  after_error_ends :
      (feed : UprFeed) (got : Request.Received) (err : Option WireError)
      → (err ≡ none → (feed' : UprFeed) → again feed' got.req got.reader ≢ out_of_fuel)
      → after_error again feed got err ≢ out_of_fuel
  unfolding after_error
  after_error_ends feed got none k = after_packet_ends got _ (k refl)
  after_error_ends feed got (some err) k = λ e. cc

  after_receive_ends :
      (feed : UprFeed) (res : Option Request.Received)
      → ((got : Request.Received)
          → res ≡ some got
          → got.err ≡ none
          → (feed' : UprFeed) → again feed' got.req got.reader ≢ out_of_fuel)
      → after_receive again feed res ≢ out_of_fuel
  unfolding after_receive
  after_receive_ends feed none k = λ e. cc
  after_receive_ends feed (some got) k = after_error_ends feed got got.err (k got refl)

-- A received packet leaves less on the stream.
pub receive_takes :
    (pkt : McRequest) (r : Reader) (got : Request.Received)
    → receive pkt r (make_bytes hdr_len) ≡ some got
    → got.err ≡ none
    → length got.reader.input < length r.input
unfolding IsAccounted size
receive_takes pkt r got run ok =
    let a =
      receive-IsAccounted pkt r (make_bytes hdr_len) got
        (omega (arith, length-replicate {A = ℕ} hdr_len 0)) run in
    ground (arith, a, ok)

feed_loop_ends :
    (fuel : ℕ) (feed : UprFeed) (pkt : McRequest) (r : Reader)
    → length r.input < fuel
    → feed_loop fuel feed pkt r ≢ out_of_fuel
unfolding feed_loop
feed_loop_ends zero feed pkt r f = absurd (omega arith)
feed_loop_ends (suc fuel) feed pkt r f =
    after_receive_ends (feed_loop fuel) feed (receive pkt r (make_bytes hdr_len)) λ got e ok feed'.
      feed_loop_ends fuel feed' got.req got.reader (omega (arith, receive_takes pkt r got e ok))

-- Whatever the connection sends, the loop of a feed ends: it breaks or panics, and the fuel of the
-- model, one more than the bytes of the input, does not run out.
pub run_feed_ends : (feed : UprFeed) (r : Reader) → run_feed feed r ≢ out_of_fuel
unfolding run_feed
run_feed_ends feed r = feed_loop_ends (suc (length r.input)) feed empty_request r (omega arith)
