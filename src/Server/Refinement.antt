-- ===== src/Server/Refinement.antt =====
-- HandleIO on a stream of well-formed requests: what it does is stated on the requests, without
-- bytes, headers or buffers.
use gomemcached.Prelude.{
  ℕ, zero, suc, ◌<◌, ◌≡◌, refl, Option, none, some, Bytes, List, [], ◌∷◌, ◌++◌, All, length, ◌>>=◌,
  arith, length-append,
}
use gomemcached.Io.{IoError, Reader, Writer, short_read}
use gomemcached.Wire.Layout.{WireError, io}
use gomemcached.Wire.Request.{McRequest, size, empty_request}
use gomemcached.Wire.Request.Encoding.{wire, length-wire}
use gomemcached.Wire.Request.RoundTrip.{Fits, HasNoPrivate, receive-wire}
use gomemcached.Wire.Request.Faults.{receive_short_header}
use gomemcached.Server.Termination.{answer_reader}
use gomemcached.Server.{
  RequestHandler, Turn, Outcome, returned, read_packet, answer, handle_received, handle_message,
  test_error, next_turn, handle_loop, close_after, handle_io,
}

-- The packets of some requests, one behind the other.
abbrev pub stream : List McRequest → Bytes
stream [] = []
stream (req ∷ reqs) = wire req ++ stream reqs

abbrev pub IsPlain : McRequest → Type 0
IsPlain req = Fits req × HasNoPrivate req

test_error_eq {ℓ} :
    {S : Type ℓ} (err : Option WireError) (k k' : S → Reader → Writer → Outcome S) (t : Turn S)
    → k t.state t.reader t.writer ≡ k' t.state t.reader t.writer
    → test_error err k t ≡ test_error err k' t
unfolding test_error
test_error_eq none k k' t e = e
test_error_eq (some er) k k' t e = refl

next_turn_eq {ℓ} :
    {S : Type ℓ} (k k' : S → Reader → Writer → Outcome S) (m : Option (Turn S))
    → ((t : Turn S) → m ≡ some t → k t.state t.reader t.writer ≡ k' t.state t.reader t.writer)
    → next_turn k m ≡ next_turn k' m
unfolding next_turn
next_turn_eq k k' none h = refl
next_turn_eq k k' (some t) h = test_error_eq t.err k k' t (h t refl)

pub size_pos : (req : McRequest) → 0 < size req
unfolding size
size_pos req = omega arith

module _ {ℓ} {S : Type ℓ} (h : RequestHandler S) (e : IoError) where
  -- One request: the handler, then its answer.
  unfoldable pub serve_one : S → Writer → McRequest → Reader → Option (Turn S)
  serve_one s w req r = do out ← h.handle s w req; answer out.res out r

  -- The requests in their order, up to the first that ends the connection. After the last the
  -- connection's own end is the error.
  unfoldable pub serve : List McRequest → S → Writer → Outcome S
  serve [] s w = returned (record {
    err = some (io e);
    state = s;
    writer = w;
    reader = record { input = []; ending = e };
  })
  serve (req ∷ reqs) s w =
      next_turn (λ s r w. serve reqs s w)
        (serve_one s w req (record { input = stream reqs; ending = e }))

  -- A request that does not end the connection is followed by the rest.
  pub serve-next :
      (req : McRequest) (reqs : List McRequest) (s s' : S) (w w' : Writer) (r : Reader)
      → serve_one s w req (record { input = stream reqs; ending = e })
        ≡ some (record { err = none; state = s'; writer = w'; reader = r })
      → serve (req ∷ reqs) s w ≡ serve reqs s' w'
  unfolding serve next_turn test_error
  serve-next req reqs s s' w w' r x = rw x

  serve_one_reader :
      (s : S) (w : Writer) (req : McRequest) (r : Reader) (t : Turn S)
      → serve_one s w req r ≡ some t
      → t.reader ≡ r
  unfolding serve_one
  serve_one_reader s w req r t x = grind (arith, answer_reader)

  handle_message-wire :
      (s : S) (w : Writer) (req : McRequest) (rest : Bytes)
      → IsPlain req
      → handle_message h s (record { input = wire req ++ rest; ending = e }) w
        ≡ serve_one s w req (record { input = rest; ending = e })
  unfolding handle_message read_packet serve_one handle_received
  handle_message-wire s w req rest p =
      rw (receive-wire req p.0 empty_request rest e [] p.1 (omega arith))

  handle_message_end :
      (s : S) (w : Writer)
      → handle_message h s (record { input = []; ending = e }) w
        ≡ some (record {
          err = some (io e);
          state = s;
          writer = w;
          reader = record { input = []; ending = e };
        })
  unfolding handle_message read_packet handle_received short_read
  handle_message_end s w = rw (
      receive_short_header empty_request (record { input = []; ending = e }) [] (omega arith)
        (omega arith))

  handle_loop-stream :
      (reqs : List McRequest) (fuel : ℕ) (s : S) (w : Writer)
      → All IsPlain reqs
      → length (stream reqs) < fuel
      → handle_loop fuel h s (record { input = stream reqs; ending = e }) w ≡ serve reqs s w
  unfolding handle_loop serve next_turn test_error
  handle_loop-stream reqs zero s w p f = absurd (omega arith)
  handle_loop-stream [] (suc fuel) s w p f = rw (handle_message_end s w)
  handle_loop-stream (req ∷ reqs) (suc fuel) s w (p, ps) f =
      let r : Reader = record { input = stream reqs; ending = e } in
      rw (handle_message-wire s w req (stream reqs) p) (
        next_turn_eq (handle_loop fuel h) (λ s r w. serve reqs s w) (serve_one s w req r)
          λ t x. rw (serve_one_reader s w req r t x) (
            handle_loop-stream reqs fuel t.state t.writer ps (
              omega
                (arith, length-append (wire req) (stream reqs), length-wire req, size_pos req))))

-- HandleIO over a connection that sends well-formed requests, none of them a TAP notification with
-- engine private data, and then ends with `e` serves them one
-- by one in their order: each goes to the handler with the state that the one before left, and its
-- answer goes out before the next is read, up to the first that ends the connection. After the last
-- HandleIO returns `e`.
pub handle_io-stream {ℓ} :
    {S : Type ℓ} (h : RequestHandler S) (e : IoError) (reqs : List McRequest) (s : S) (w : Writer)
    → All IsPlain reqs
    → handle_io h s (record { input = stream reqs; ending = e }) w none ≡ serve h e reqs s w
unfolding handle_io close_after
handle_io-stream h e reqs s w p =
    handle_loop-stream h e reqs (suc (length (stream reqs))) s w p (omega arith)
