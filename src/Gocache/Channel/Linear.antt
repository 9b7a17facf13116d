-- ===== src/Gocache/Channel/Linear.antt =====
-- However the connections interleave, the storage does what RunServer does on one list of requests.
use gomemcached.Prelude.{
  ℕ, ◌≡◌, refl, some, List, [], ◌∷◌, ◌++◌, map, ◌==◌, ==_iff, if◌then◌else◌, arith, append-nil,
  append_assoc, Bool-cases, inl, inr,
}
use mathlib.Core.List.{map-append}
use gomemcached.Wire.Request.{McRequest}
use gomemcached.Wire.Response.{McResponse}
use gomemcached.Gocache.{Storage, dispatch, run_server}
use gomemcached.Gocache.Runs.{run_server-cons}
use gomemcached.Gocache.Channel.{
  Goroutine, idle, serving, System, submit, reply, Reach, here, later, start, update,
}

-- One request that was answered: its connection, itself and the response.
pub record Served : Type 0 where
  pub conn : ℕ
  pub req : McRequest
  pub res : McResponse

abbrev pub requests_of : ℕ → List Served → List McRequest
requests_of i [] = []
requests_of i (x ∷ xs) = if x.conn == i then x.req ∷ requests_of i xs else requests_of i xs

abbrev pub responses_of : ℕ → List Served → List McResponse
responses_of i [] = []
responses_of i (x ∷ xs) = if x.conn == i then x.res ∷ responses_of i xs else responses_of i xs

-- The request of a connection that RunServer has in hand.
abbrev pub in_hand : ℕ → Goroutine → List McRequest
in_hand i idle = []
in_hand i (serving j req) = if j == i then req ∷ [] else []

requests_of-append :
    (i : ℕ) (xs ys : List Served) → requests_of i (xs ++ ys) ≡ requests_of i xs ++ requests_of i ys
requests_of-append i [] ys = refl
requests_of-append i (x ∷ xs) ys = ground (arith, requests_of-append i xs ys)

responses_of-append :
    (i : ℕ) (xs ys : List Served)
    → responses_of i (xs ++ ys) ≡ responses_of i xs ++ responses_of i ys
responses_of-append i [] ys = refl
responses_of-append i (x ∷ xs) ys = ground (arith, responses_of-append i xs ys)

run_server-snoc :
    (reqs : List McRequest) (req : McRequest) (s s1 s2 : Storage) (ress : List McResponse)
    (res : McResponse)
    → run_server s reqs ≡ some (s1, ress)
    → dispatch req s1 ≡ some (s2, res)
    → run_server s (reqs ++ (req ∷ [])) ≡ some (s2, ress ++ (res ∷ []))
unfolding run_server
run_server-snoc [] req s s1 s2 ress res run d = ground (arith, run, d)
run_server-snoc (r ∷ reqs) req s s1 s2 ress res run d =
    let (s', res', ress', e1, e2, e3) = run_server-cons s s1 r reqs ress run in
    let IH = run_server-snoc reqs req s' s1 s2 ress' res e2 d in ground (arith, e1, IH, e3)

-- The order in which RunServer received the requests explains the system: RunServer on these requests
-- leaves this storage and gives these responses; every connection has got the responses to its own
-- requests, in its own order; and what it passed on, what is in hand and what is yet to come are the
-- requests that it had at the start.
pub record Explains (storage : Storage) (requests : ℕ → List McRequest) (s : System)
    (order : List Served) : Type 0 where
  pub served :
      run_server storage (map (λ x. x.req) order) ≡ some (s.storage, map (λ x. x.res) order)
  pub answered : (i : ℕ) → s.responses i ≡ responses_of i order
  pub passed : (i : ℕ) → requests_of i order ++ (in_hand i s.server ++ s.requests i) ≡ requests i

submit-Explains :
    (storage : Storage) (requests : ℕ → List McRequest) (s : System) (order : List Served) (i : ℕ)
    (req : McRequest) (rest : List McRequest)
    → s.server ≡ idle
    → s.requests i ≡ req ∷ rest
    → Explains storage requests s order
    → Explains storage requests
        (record s { server = serving i req; requests = update s.requests i rest })
        order
submit-Explains storage requests s order i req rest idle_eq reqs_eq x = record {
  served = x.served;
  answered = x.answered;
  passed = λ j. elim (Bool-cases (i == j)) [
    | inl e ↦ ground (arith, x.passed j, ==_iff i j, idle_eq, reqs_eq, e)
    | inr e ↦ ground (arith, x.passed j, idle_eq, e)
  ];
}

reply-Explains :
    (storage : Storage) (requests : ℕ → List McRequest) (s : System) (order : List Served) (i : ℕ)
    (req : McRequest) (next : Storage) (res : McResponse)
    → s.server ≡ serving i req
    → dispatch req s.storage ≡ some (next, res)
    → Explains storage requests s order
    → Explains storage requests
        (record s {
          storage = next;
          server = idle;
          responses = update s.responses i (s.responses i ++ (res ∷ []));
        })
        (order ++ (record { conn = i; req = req; res = res } ∷ []))
reply-Explains storage requests s order i req next res serving_eq d x = record {
  served =
      rw
        (
          map-append (λ (x : Served). x.req) order (record { conn = i; req = req; res = res } ∷ []),
          map-append (λ (x : Served). x.res) order (record { conn = i; req = req; res = res } ∷ []),
        )
        (run_server-snoc (map (λ (x : Served). x.req) order) req storage s.storage next
          (map (λ (x : Served). x.res) order) res x.served d);
  answered = λ j. ground (
    arith,
    responses_of-append j order (record { conn = i; req = req; res = res } ∷ []),
    x.answered j,
    x.answered i,
    append-nil (responses_of j order),
    ==_iff i j,
  );
  passed = λ j. elim (Bool-cases (i == j)) [
    | inl e ↦ ground (
      arith,
      x.passed j,
      serving_eq,
      e,
      requests_of-append j order (record { conn = i; req = req; res = res } ∷ []),
      append_assoc (requests_of j order) (req ∷ []) (s.requests j),
    )
    | inr e ↦ ground (
      arith,
      x.passed j,
      serving_eq,
      e,
      requests_of-append j order (record { conn = i; req = req; res = res } ∷ []),
      append-nil (requests_of j order),
    )
  ];
}

-- Whatever meetings on the channels led from the start to a system: there is one order of the
-- requests that were answered so that RunServer on the requests in this order leaves this storage
-- and gives their responses, every connection has got the responses to its own requests in this
-- order, and its requests in this order, the one in hand, and those yet to come are the requests
-- that it had at the start.
pub Reach-linear :
    (storage : Storage) (requests : ℕ → List McRequest) (s : System)
    → Reach (start storage requests) s
    → (order : List Served) × Explains storage requests s order
unfolding run_server
Reach-linear storage requests s here =
    ([], record { served = refl; answered = λ i. refl; passed = λ i. refl })
Reach-linear storage requests s (later {t} r (submit i req rest e e2)) =
    let (order, x) = Reach-linear storage requests t r in
    (order, submit-Explains storage requests t order i req rest e e2 x)
Reach-linear storage requests s (later {t} r (reply i req next res e e2)) =
    let (order, x) = Reach-linear storage requests t r in
    (
      order ++ (record { conn = i; req = req; res = res } ∷ []),
      reply-Explains storage requests t order i req next res e e2 x,
    )
