-- ===== src/Gocache/Channel.antt =====
-- Several connections of the sample server on one storage: HandleMessage of gocache/gocache.go and
-- RunServer of gocache/mc_storage.go as goroutines that meet on unbuffered channels.
pub mod Linear
use gomemcached.Prelude.{ℕ, ◌≡◌, Option, some, List, [], ◌∷◌, ◌++◌, ◌==◌, if◌then◌else◌}
use gomemcached.Wire.Request.{McRequest}
use gomemcached.Wire.Response.{McResponse}
use gomemcached.Gocache.{Storage, dispatch}

-- Where RunServer stands: before it receives from its channel, or with the request of a connection
-- that waits on the response's channel.
pub data Goroutine : Type 0 where
  idle : Goroutine
  serving : (i : ℕ) (req : McRequest) → Goroutine

-- The storage, RunServer, and for every connection the requests that it has yet to pass on and the
-- responses that its handler has returned.
pub record System : Type 0 where
  pub storage : Storage
  pub server : Goroutine
  pub requests : ℕ → List McRequest
  pub responses : ℕ → List McResponse

abbrev pub update {ℓ} : {A : Type ℓ} → (ℕ → A) → ℕ → A → ℕ → A
update f i v j = if i == j then v else f j

-- One meeting on a channel: rh.ch <- cr with req := <-input, or req.res <- dispatch(req.req, &s) with
-- <-cr.res. Any connection that has a request may be the next.
pub data Step (s : System) : System → Type 0 where
  submit :
      (i : ℕ) (req : McRequest) (rest : List McRequest)
      → s.server ≡ idle
      → s.requests i ≡ req ∷ rest
      → Step s (record s { server = serving i req; requests = update s.requests i rest })
  reply :
      (i : ℕ) (req : McRequest) (storage : Storage) (res : McResponse)
      → s.server ≡ serving i req
      → dispatch req s.storage ≡ some (storage, res)
      → Step s (record s {
        storage = storage;
        server = idle;
        responses = update s.responses i (s.responses i ++ (res ∷ []));
      })

-- The systems that come after some steps.
pub data Reach (s : System) : System → Type 0 where
  here : Reach s s
  later : {t u : System} → Reach s t → Step t u → Reach s u

-- No request was passed on yet.
abbrev pub start : Storage → (ℕ → List McRequest) → System
start storage requests = record {
  storage = storage;
  server = idle;
  requests = requests;
  responses = λ i. [];
}
