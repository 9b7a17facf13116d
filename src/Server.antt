-- ===== src/Server.antt =====
-- server/mc_conn_handler.go: one message read, handled and answered, and the loop over a connection.
pub mod Termination
pub mod Refinement
use mathlib.Core.Option
use gomemcached.Prelude.{
  ℕ, zero, suc, ◌+◌, Bool, true, false, Option, none, some, List, [], ◌∷◌, length, ◌>>=◌,
  if◌then◌else◌, not,
}
use gomemcached.Io.{IoError, eof, Reader, Writer}
use gomemcached.Wire.Layout.{WireError, io}
use gomemcached.Wire.Request
use gomemcached.Wire.Request.{McRequest, empty_request, receive}
use gomemcached.Wire.Response
use gomemcached.Wire.Response.{McResponse, transmit}

-- What a handler leaves: its state, the writer (it may write by itself), the request that it was
-- passed by reference, and its response, where `none` is Go's nil.
pub record Handled {ℓ} (S : Type ℓ) : Type ℓ where
  pub state : S
  pub writer : Writer
  pub req : McRequest
  pub res : Option McResponse

-- RequestHandler, the interface that a server implements. `none` is a panic of the handler.
pub record RequestHandler {ℓ} (S : Type ℓ) : Type ℓ where
  pub handle : S → Writer → McRequest → Option (Handled S)

-- The error of one message, and what it leaves.
pub record Turn {ℓ} (S : Type ℓ) : Type ℓ where
  pub err : Option WireError
  pub state : S
  pub writer : Writer
  pub reader : Reader

-- ReadPacket
unfoldable pub read_packet : Reader → Option Request.Received
read_packet r = receive empty_request r []

module _ {ℓ} {S : Type ℓ} where
  -- What HandleMessage does with the handler's response: nothing for nil; a fatal one ends the
  -- connection with io.EOF; any other goes out under the request's opcode and opaque.
  unfoldable pub answer : Option McResponse → Handled S → Reader → Option (Turn S)
  answer none out r =
      some (record { err = none; state = out.state; writer = out.writer; reader = r })
  answer (some res) out r =
      if not res.fatal
      then (do
        t ← transmit (record res { opcode = out.req.opcode; opaque = out.req.opaque }) out.writer
        some (record {
          err = Option.map io t.err;
          state = out.state;
          writer = t.writer;
          reader = r;
        }))
      else some (record { err = some (io eof); state = out.state; writer = out.writer; reader = r })

  -- HandleMessage behind ReadPacket.
  unfoldable pub handle_received :
      RequestHandler S → S → Writer → Request.Received → Option (Turn S)
  handle_received h s w got = elim got.err [
    | some e ↦ some (record { err = some e; state = s; writer = w; reader = got.reader })
    | none ↦ do out ← h.handle s w got.req; answer out.res out got.reader
  ]

  unfoldable pub handle_message : RequestHandler S → S → Reader → Writer → Option (Turn S)
  handle_message h s r w = do got ← read_packet r; handle_received h s w got

-- How a connection's loop ends. `out_of_fuel` is no behaviour of the program.
pub data Outcome {ℓ} (S : Type ℓ) : Type ℓ where
  returned : Turn S → Outcome S
  panicked : Outcome S
  out_of_fuel : Outcome S

module _ {ℓ} {S : Type ℓ} where
  -- The loop's test, `for err == nil`, on the error of the turn before.
  unfoldable pub test_error :
      Option WireError → (S → Reader → Writer → Outcome S) → Turn S → Outcome S
  test_error none again t = again t.state t.reader t.writer
  test_error (some e) again t = returned t

  unfoldable pub next_turn : (S → Reader → Writer → Outcome S) → Option (Turn S) → Outcome S
  unfolding test_error
  next_turn again none = panicked
  next_turn again (some t) = test_error t.err again t

  -- for err == nil { err = HandleMessage(s, s, handler) }
  unfoldable pub handle_loop : ℕ → RequestHandler S → S → Reader → Writer → Outcome S
  handle_loop zero h s r w = out_of_fuel
  handle_loop (suc fuel) h s r w = next_turn (handle_loop fuel h) (handle_message h s r w)

  -- defer func() { must(s.Close()) }(): an error of Close panics.
  unfoldable pub close_after : Option IoError → Outcome S → Outcome S
  close_after none o = o
  close_after (some e) (returned t) = panicked
  close_after (some e) o = o

  -- HandleIO. Every turn that goes on takes a byte at least, so that this fuel is enough.
  unfoldable pub handle_io : RequestHandler S → S → Reader → Writer → Option IoError → Outcome S
  handle_io h s r w close_err = close_after close_err (handle_loop (suc (length r.input)) h s r w)
