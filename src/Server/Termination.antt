-- ===== src/Server/Termination.antt =====
-- The loop of HandleIO ends on every input.
use gomemcached.Prelude.{
  ℕ, zero, suc, ◌<◌, ◌≡◌, ◌≢◌, refl, Option, none, some, [], length, arith, Option-cases, inl, inr,
}
use gomemcached.Io.{IoError, Reader, Writer}
use gomemcached.Wire.Layout.{WireError}
use gomemcached.Wire.Request
use gomemcached.Wire.Request.{size, receive, empty_request}
use gomemcached.Wire.Request.Consumption.{IsAccounted, receive-IsAccounted}
use gomemcached.Wire.Response.{McResponse}
use gomemcached.Server.{
  RequestHandler, Handled, Turn, Outcome, returned, out_of_fuel, read_packet, answer,
  handle_received, handle_message, test_error, next_turn, handle_loop, close_after, handle_io,
}

module _ {ℓ} {S : Type ℓ} where
  -- No answer touches the reader.
  pub answer_reader :
      (res : Option McResponse) (out : Handled S) (r : Reader) (t : Turn S)
      → answer res out r ≡ some t
      → t.reader ≡ r
  unfolding answer
  answer_reader none out r t e = ground arith
  answer_reader (some res) out r t e = ground arith

module _ {ℓ} {S : Type ℓ} (h : RequestHandler S) where
  handle_received_takes :
      (s : S) (w : Writer) (got : Request.Received) (before : ℕ) (t : Turn S)
      → IsAccounted before got
      → handle_received h s w got ≡ some t
      → t.err ≡ none
      → length t.reader.input < before
  unfolding handle_received IsAccounted size
  handle_received_takes s w got before t a e ok = grind (arith, answer_reader)

  handle_message_takes :
      (s : S) (r : Reader) (w : Writer) (t : Turn S)
      → handle_message h s r w ≡ some t
      → t.err ≡ none
      → length t.reader.input < length r.input
  unfolding handle_message read_packet
  handle_message_takes s r w t e ok = elim (Option-cases (receive empty_request r [])) [
    | inl x ↦ cc (rw x at e)
    | inr (got, x) ↦
        handle_received_takes s w got (length r.input) t
          (receive-IsAccounted empty_request r [] got (omega arith) x) (rw x at e) ok
  ]

  test_error_ends :
      (err : Option WireError) (again : S → Reader → Writer → Outcome S) (t : Turn S)
      → (err ≡ none → again t.state t.reader t.writer ≢ out_of_fuel)
      → test_error err again t ≢ out_of_fuel
  unfolding test_error
  test_error_ends none again t k = k refl
  test_error_ends (some e) again t k = λ x. cc

  next_turn_ends :
      (again : S → Reader → Writer → Outcome S) (m : Option (Turn S))
      → ((t : Turn S) → m ≡ some t → t.err ≡ none → again t.state t.reader t.writer ≢ out_of_fuel)
      → next_turn again m ≢ out_of_fuel
  unfolding next_turn
  next_turn_ends again none k = λ e. cc
  next_turn_ends again (some t) k = test_error_ends t.err again t (k t refl)

  handle_loop_ends :
      (fuel : ℕ) (s : S) (r : Reader) (w : Writer)
      → length r.input < fuel
      → handle_loop fuel h s r w ≢ out_of_fuel
  unfolding handle_loop
  handle_loop_ends zero s r w f = absurd (omega arith)
  handle_loop_ends (suc fuel) s r w f =
      next_turn_ends (handle_loop fuel h) (handle_message h s r w) λ t e ok.
        handle_loop_ends fuel t.state t.reader t.writer
          (omega (arith, handle_message_takes s r w t e ok))

close_after_ends {ℓ} :
    {S : Type ℓ} (close_err : Option IoError) (o : Outcome S)
    → o ≢ out_of_fuel
    → close_after close_err o ≢ out_of_fuel
unfolding close_after
close_after_ends none o k = k
close_after_ends (some e) (returned t) k = λ x. cc
close_after_ends (some e) o k = k

-- Whatever the handler does and whatever the connection sends, HandleIO ends: it returns or panics,
-- and the fuel of the model, one more than the bytes of the input, does not run out.
pub handle_io_ends {ℓ} :
    {S : Type ℓ} (h : RequestHandler S) (s : S) (r : Reader) (w : Writer)
    (close_err : Option IoError)
    → handle_io h s r w close_err ≢ out_of_fuel
unfolding handle_io
handle_io_ends h s r w close_err =
    close_after_ends close_err _ (handle_loop_ends h (suc (length r.input)) s r w (omega arith))
