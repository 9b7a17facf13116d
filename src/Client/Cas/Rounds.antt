-- ===== src/Client/Cas/Rounds.antt =====
-- CAS of client/mc.go against a server that answers its requests, with other clients in between: any
-- number of conflicts before the store that is the last.
use mathlib.Core.Option
use gomemcached.Prelude.{
  ℕ, zero, suc, ◌<◌, ◌≤◌, ◌≡◌, refl, ap, ◌∙◌, true, false, not, Option, none, some, Bytes, List, [],
  ◌∷◌, ◌++◌, All, length, arith, append_assoc, append-nil, length-append,
}
use gomemcached.Io.{IoError, Writer}
use gomemcached.Wire.Layout.{hdr_len}
use gomemcached.Wire.Status
use gomemcached.Wire.Request.{McRequest}
use gomemcached.Wire.Request.Encoding as RequestEncoding
use gomemcached.Wire.Response.{McResponse, GoError, is_fatal}
use gomemcached.Wire.Response.Encoding.{wire}
use gomemcached.Server.Refinement.{stream}
use gomemcached.Client.{
  Client, Conn, CasState, get, get_request, update_request, refresh, fetch, is_conflict,
  after_store, store_value, cas_next,
}
use gomemcached.Client.Sending.{failure}
use gomemcached.Client.Talk.{IsAnswer, client_at, behind, send_answered, failure_success}
use gomemcached.Client.Progress.{finished, waiting}
use gomemcached.Client.Cas.{
  cas_store, CasFunc, CasResult, server, cas_apply, cas_turn, cas_loop, cas,
}

-- The function that stores `h` of every value.
abbrev pub storing : (Option Bytes → Bytes) → CasFunc
storing h current = (some (h current), cas_store)

-- A conflict, and the answer to the GET behind it.
pub record Round : Type 0 where
  pub conflict : McResponse
  pub current : McResponse

pub record IsCurrent (res : McResponse) : Type 0 where
  pub answer : IsAnswer res
  pub status : res.status ≡ Status.success

pub record IsRound (r : Round) : Type 0 where
  pub answer : IsAnswer r.conflict
  pub conflict : is_conflict r.conflict ≡ true
  pub current : IsCurrent r.current

-- What the server sends behind the first GET's answer.
abbrev pub answers : List Round → McResponse → Bytes
answers [] last = wire last
answers (r ∷ rs) last = wire r.conflict ++ (wire r.current ++ answers rs last)

-- The store of what `h` makes of the value that a GET gave, under its CAS.
abbrev pub update_of : ℕ → Bytes → (Option Bytes → Bytes) → McResponse → McRequest
update_of vb key h got = update_request vb key got.cas (some (h (some got.body)))

-- What the client sends behind the first GET.
abbrev pub updates : ℕ → Bytes → (Option Bytes → Bytes) → McResponse → List Round → List McRequest
updates vb key h got [] = update_of vb key h got ∷ []
updates vb key h got (r ∷ rs) =
    update_of vb key h got ∷ get_request vb key ∷ updates vb key h r.current rs

-- The state when CASNext is called with a new value.
abbrev holding : McResponse → Bytes → Option GoError → Option McResponse → CasState
holding got value err resp = record {
  initialized = true;
  value = some value;
  cas = got.cas;
  exists_ = true;
  err = err;
  resp = resp;
}

abbrev pub done : Bytes → IoError → Writer → Bytes → McResponse → CasResult
done rest e w hdr_buf last = record {
  res = some last;
  err = Option.map server (failure last);
  client = record (client_at rest e w hdr_buf) { healthy = not (is_fatal (failure last)) };
}

abbrev at : IoError → Writer → Bytes → Option Conn
at e w input = some (record { reader = record { input = input; ending = e }; writer = w })

-- The client behind a store and the GET that follows its conflict.
abbrev behind_round : Bytes → IoError → Writer → Bytes → McRequest → McRequest → McResponse → Client
behind_round rest e w hdr_buf req req' res =
    behind rest e (record w { sent = w.sent ++ RequestEncoding.wire req }) hdr_buf req' res

cas_next-conflict :
    (c : Client) (vb : ℕ) (key : Bytes) (initexp : ℕ) (got : McResponse) (value : Bytes) (r : Round)
    (err : Option GoError) (resp : Option McResponse) (input : Bytes) (e : IoError) (w : Writer)
    → IsRound r
    → w.room ≡ none
    → length c.hdr_buf ≤ hdr_len
    → c.conn
      ≡ some (record {
        reader = record { input = wire r.conflict ++ (wire r.current ++ input); ending = e };
        writer = w;
      })
    → cas_next c vb key initexp (holding got value err resp)
      ≡ some (record {
        more = true;
        state = holding r.current r.current.body none (some r.current);
        client =
            behind_round input e w c.hdr_buf
              (update_request vb key got.cas (some value))
              (get_request vb key)
              r.current;
      })
unfolding cas_next store_value after_store fetch get refresh
cas_next-conflict c vb key initexp got value r err resp input e w p free short k =
    let upd = update_request vb key got.cas (some value) in
    let w' : Writer = record w { sent = w.sent ++ RequestEncoding.wire upd } in
    rw (
      send_answered c upd r.conflict (wire r.current ++ input) e w p.answer free short k,
      p.conflict,
      send_answered (behind (wire r.current ++ input) e w c.hdr_buf upd r.conflict)
          (get_request vb key) r.current input e w' p.current.answer free short refl,
      failure_success r.current p.current.status,
    )

loop-rounds :
    (fuel : ℕ) (c : Client) (vb : ℕ) (key : Bytes) (h : Option Bytes → Bytes) (initexp : ℕ)
    (got : McResponse) (rs : List Round) (last : McResponse) (err : Option GoError)
    (resp : Option McResponse) (rest : Bytes) (e : IoError) (w : Writer)
    → All IsRound rs
    → IsAnswer last
    → is_conflict last ≡ false
    → w.room ≡ none
    → length c.hdr_buf ≤ hdr_len
    → c.conn
      ≡ some
          (record { reader = record { input = answers rs last ++ rest; ending = e }; writer = w })
    → length rs < fuel
    → cas_loop fuel (storing h) vb key initexp c (holding got (h (some got.body)) err resp)
      ≡ finished (
          done rest e
            (record w { sent = w.sent ++ stream (updates vb key h got rs) })
            c.hdr_buf
            last)
unfolding cas_loop cas_turn cas_apply cas_next store_value after_store fetch get refresh
loop-rounds zero c vb key h initexp got rs last err resp rest e w ps a n free short k f =
    absurd (omega arith)
loop-rounds (suc fuel) c vb key h initexp got [] last err resp rest e w ps a n free short k f = rw (
  send_answered c (update_of vb key h got) last rest e w a free short k,
  n,
  append-nil (RequestEncoding.wire (update_of vb key h got)),
)
loop-rounds (suc fuel) c vb key h initexp got (r ∷ rs) last err resp rest e w (p, ps) a n free short
      k f =
    let upd = update_of vb key h got in
    let req = get_request vb key in
    let input : Bytes = answers rs last ++ rest in
    let w1 : Writer = record w { sent = w.sent ++ RequestEncoding.wire upd } in
    let w2 : Writer = record w1 { sent = w1.sent ++ RequestEncoding.wire req } in
    let next = behind_round input e w c.hdr_buf upd req r.current in
    let conn =
      k
      ∙ ap (at e w) (
          append_assoc (wire r.conflict) (wire r.current ++ answers rs last) rest
          ∙ ap (λ (b : Bytes). wire r.conflict ++ b)
              (append_assoc (wire r.current) (answers rs last) rest)) in
    let sent : w2.sent ++ stream (updates vb key h r.current rs)
        ≡ w.sent ++ stream (updates vb key h got (r ∷ rs)) =
      append_assoc w1.sent (RequestEncoding.wire req) (stream (updates vb key h r.current rs))
      ∙ append_assoc w.sent (RequestEncoding.wire upd)
          (RequestEncoding.wire req ++ stream (updates vb key h r.current rs)) in
    rw
      (
        cas_next-conflict c vb key initexp got (h (some got.body)) r err resp input e w p free short
            conn,
        ← sent,
      )
      (loop-rounds fuel next vb key h initexp r.current rs last none (some r.current) rest e w2 ps a
        n free short refl (omega arith))

answers_long : (rs : List Round) (last : McResponse) → length rs < length (answers rs last)
answers_long [] last = omega arith
answers_long (r ∷ rs) last =
    let behind_ : Bytes = wire r.current ++ answers rs last in
    omega (
      arith,
      answers_long rs last,
      length-append (wire r.conflict) behind_,
      length-append (wire r.current) (answers rs last),
    )

-- CAS on a key that is there, with a function that stores what `h` makes of the value, a writer that
-- does not fail, and a server that answers the first GET with a success, then any number of stores
-- with a conflict and the GET behind each with a success, and the last store with anything but a
-- conflict: the client sends exactly these GETs and stores, every store with what `h` makes of the
-- value that was read last and under its CAS, and CAS returns the last response, as the error too
-- when it is no success.
pub cas-rounds :
    (c : Client) (vb : ℕ) (key : Bytes) (h : Option Bytes → Bytes) (initexp : ℕ) (got : McResponse)
    (rs : List Round) (last : McResponse) (rest : Bytes) (e : IoError) (w : Writer)
    → IsCurrent got
    → All IsRound rs
    → IsAnswer last
    → is_conflict last ≡ false
    → w.room ≡ none
    → length c.hdr_buf ≤ hdr_len
    → c.conn
      ≡ some (record {
        reader = record { input = wire got ++ (answers rs last ++ rest); ending = e };
        writer = w;
      })
    → cas c vb key (storing h) initexp
      ≡ finished (
          done rest e
            (record w { sent = w.sent ++ stream (get_request vb key ∷ updates vb key h got rs) })
            c.hdr_buf
            last)
unfolding cas cas_loop cas_turn cas_apply cas_next fetch get refresh
cas-rounds c vb key h initexp got rs last rest e w g ps a n free short k =
    let req = get_request vb key in
    let input : Bytes = answers rs last ++ rest in
    let w1 : Writer = record w { sent = w.sent ++ RequestEncoding.wire req } in
    let next : Client = record (client_at input e w1 c.hdr_buf) { healthy = not (is_fatal none) } in
    let enough : length rs < waiting c = rw k (
      omega (
        arith,
        answers_long rs last,
        length-append (wire got) input,
        length-append (answers rs last) rest,
      )) in
    rw
      (
        send_answered c req got input e w g.answer free short k,
        failure_success got g.status,
        ← append_assoc w.sent (RequestEncoding.wire req) (stream (updates vb key h got rs)),
      )
      (loop-rounds (waiting c) next vb key h initexp got rs last none (some got) rest e w1 ps a n
        free short refl enough)
