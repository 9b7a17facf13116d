-- ===== src/Client/Stats/Answers.antt =====
-- What Stats of client/mc.go makes of the server's answers, and that its loop ends.
use gomemcached.Prelude.{
  ℕ, zero, suc, ◌<◌, ◌≤◌, ◌≡◌, ◌≢◌, refl, Option, none, some, Bytes, List, [], ◌∷◌, ◌++◌, length,
  map, All, true, false, ◌==◌, arith, append_assoc, append-nil, length-append, Option-cases,
  Bool-cases, inl, inr,
}
use gomemcached.Io.{IoError, Writer}
use gomemcached.GoMap.{bytes_eq}
use gomemcached.Wire.Layout.{hdr_len}
use gomemcached.Wire.Status
use gomemcached.Wire.Request.Encoding as RequestEncoding
use gomemcached.Wire.Request.Delivery.{request_transmit_unlimited}
use gomemcached.Wire.Response.{McResponse, GoError}
use gomemcached.Wire.Response.Encoding.{wire}
use gomemcached.Client.{Client, Reply, get_response, transmit_request, transmit_request_to}
use gomemcached.Client.Progress.{Run, finished, out_of_fuel, waiting, get_response_takes}
use gomemcached.Client.Talk.{IsAnswer, wires, facing, get_response_answered, failure_success}
use gomemcached.Client.Stats.{
  StatValue, StatsResult, stats_got, stats_turn, stats_loop, stats_request, stats_rest, stats_sent,
  stats,
}

got_ends :
    (again : Client → List StatValue → Run StatsResult) (rv : List StatValue) (got : Reply)
    → (err : Option GoError) (res : Option McResponse)
    → (err ≡ none → (rv' : List StatValue) → again got.client rv' ≢ out_of_fuel)
    → stats_got again rv got.client err res ≢ out_of_fuel
unfolding stats_got
got_ends again rv got (some err) res k = λ z. cc
got_ends again rv got none none k = λ z. cc
got_ends again rv got none (some res) k = elim (Bool-cases (length res.key == 0)) [
  | inl e ↦ rw e (λ z. cc)
  | inr e ↦ rw e (k refl _)
]

loop_ends :
    (fuel : ℕ) (c : Client) (rv : List StatValue)
    → waiting c < fuel
    → stats_loop fuel c rv ≢ out_of_fuel
unfolding stats_loop stats_turn
loop_ends zero c rv f = absurd (omega arith)
loop_ends (suc fuel) c rv f = elim (Option-cases (get_response c)) [
  | inl e ↦ rw e (λ z. cc)
  | inr (got, e) ↦ rw e (
      got_ends (stats_loop fuel) rv got got.err got.res λ ok rv'.
        elim (get_response_takes c got e) [
          | inl less ↦ loop_ends fuel got.client rv' (omega arith)
          | inr took ↦ absurd (took.failed ok)
        ])
]

rest_ends : (c : Client) (err : Option GoError) → stats_rest c err ≢ out_of_fuel
unfolding stats_rest
rest_ends c (some err) = λ z. cc
rest_ends c none = loop_ends (suc (waiting c)) c [] (omega arith)

-- Whatever the server answers, the loop of Stats ends, with one turn more than there are bytes to
-- read at most.
pub stats_ends : (c : Client) (key : Bytes) → stats c key ≢ out_of_fuel
unfolding stats stats_sent
stats_ends c key = elim (Option-cases (transmit_request c (stats_request key))) [
  | inl e ↦ rw e (λ z. cc)
  | inr (sent, e) ↦ rw e (rest_ends sent.client sent.err)
]

-- An answer that carries one stat.
pub record IsStat (res : McResponse) : Type 0 where
  pub answer : IsAnswer res
  pub status : res.status ≡ Status.success
  pub key : (length res.key == 0) ≡ false

abbrev pub stat_of : McResponse → StatValue
stat_of res = record { key = res.key; val = res.body }

loop-answered :
    (fuel : ℕ) (c : Client) (rv : List StatValue) (ress : List McResponse) (last : McResponse)
    (rest : Bytes) (e : IoError) (w : Writer)
    → All IsStat ress
    → IsAnswer last
    → last.status ≡ Status.success
    → last.key ≡ []
    → length c.hdr_buf ≤ hdr_len
    → length (wires ress) < fuel
    → stats_loop fuel (facing c (wires ress ++ (wire last ++ rest)) e w) rv
      ≡ finished (record { stats = rv ++ map stat_of ress; err = none; client = facing c rest e w })
unfolding stats_loop stats_turn stats_got
loop-answered zero c rv ress last rest e w ss a ok k short f = absurd (omega arith)
loop-answered (suc fuel) c rv [] last rest e w ss a ok k short f =
    let empty : (length last.key == 0) ≡ true = rw k refl in
    rw (
      get_response_answered (facing c (wire last ++ rest) e w) last rest e w a short refl,
      failure_success last ok,
      empty,
      append-nil rv,
    )
loop-answered (suc fuel) c rv (res ∷ ress) last rest e w (s, ss) a ok k short f =
    rw
      (
        append_assoc (wire res) (wires ress) (wire last ++ rest),
        get_response_answered (facing c (wire res ++ (wires ress ++ (wire last ++ rest))) e w) res
            (wires ress ++ (wire last ++ rest)) e w s.answer short refl,
        failure_success res s.status,
        s.key,
        ← append_assoc rv (stat_of res ∷ []) (map stat_of ress),
      )
      (loop-answered fuel c (rv ++ (stat_of res ∷ [])) ress last rest e w ss a ok k short
        (omega (arith, length-append (wire res) (wires ress))))

-- A server that answers STAT with one success per stat, each with a key, and a success without a key
-- behind them, and a writer that does not fail: the request goes out, and Stats returns exactly the
-- keys and bodies of these answers, in their order and without an error, and leaves what follows
-- the last answer on the connection.
pub stats-answered :
    (c : Client) (key : Bytes) (ress : List McResponse) (last : McResponse) (rest : Bytes)
    (e : IoError) (w : Writer)
    → All IsStat ress
    → IsAnswer last
    → last.status ≡ Status.success
    → last.key ≡ []
    → w.room ≡ none
    → length c.hdr_buf ≤ hdr_len
    → stats (facing c (wires ress ++ (wire last ++ rest)) e w) key
      ≡ finished (record {
        stats = map stat_of ress;
        err = none;
        client =
            facing c rest e
              (record w { sent = w.sent ++ RequestEncoding.wire (stats_request key) });
      })
unfolding stats stats_sent stats_rest transmit_request_to
stats-answered c key ress last rest e w ss a ok k free short =
    let (n, t) = request_transmit_unlimited (stats_request key) w free in
    let w' : Writer = record w { sent = w.sent ++ RequestEncoding.wire (stats_request key) } in
    let input : Bytes = wires ress ++ (wire last ++ rest) in
    rw t (
      loop-answered (suc (length input)) c [] ress last rest e w' ss a ok k short
        (omega (arith, length-append (wires ress) (wire last ++ rest))))
