-- ===== src/Client/Cas/Loop.antt =====
-- The loop of CAS in client/mc.go: it ends, and what it makes of CASDelete.
use gomemcached.Prelude.{
  ℕ, zero, suc, ◌<◌, ◌≡◌, ◌≢◌, refl, ap, Bool, true, false, ◌==◌, Option, none, some, Bytes, arith,
  Option-cases, Bool-cases, if-cases, if_neither, inl, inr, ◌⊎◌,
}
use gomemcached.Wire.Status
use gomemcached.Wire.Response.{McResponse, GoError, empty_response}
use gomemcached.Client.{
  Client, Reply, CasState, Next, send, get, get_request, add, update_request, refresh, fetch,
  is_conflict, after_store, store_value, cas_next, store,
}
use gomemcached.Client.Progress.{Run, out_of_fuel, waiting, TookNothing, send_takes}
use gomemcached.Client.Cas.{
  CasOp, cas_store, cas_quit, cas_delete, CasFunc, CasResult, new_state, is_quit, cas_apply,
  cas_turn, cas_loop, cas,
}

-- A response that was read, by its status.
TookNothing-status :
    (got : Reply) (res : McResponse) → TookNothing got → got.res ≡ some res → res.status ≡ 0
TookNothing-status got res t e = elim t.res [
  | inl x ↦ absurd (cc (x, e))
  | inr x ↦ let same : res ≡ empty_response = cc (x, e) in ap (λ (r : McResponse). r.status) same
]

refresh_more :
    (state : CasState) (c : Client) (err : Option GoError) (res : Option McResponse) (n : Next)
    → refresh state c err res ≡ some n
    → n.more ≡ true
    → (n.client ≡ c)
      × ((err ≡ none) ⊎ ((r : McResponse) × (res ≡ some r) × (r.status ≡ Status.key_enoent)))
unfolding refresh
refresh_more state c none none n h m = absurd cc
refresh_more state c none (some res) n h m = (cc h, inl refl)
refresh_more state c (some err) none n h m = let it : n.more ≡ false = cc h in absurd (cc (it, m))
refresh_more state c (some err) (some res) n h m =
    elim (Bool-cases (res.status == Status.key_enoent)) [
      | inl e ↦ (cc (rw e at h), inr (res, refl, ground (arith, e)))
      | inr e ↦ let h' = rw e at h in let it : n.more ≡ false = cc h' in absurd (cc (it, m))
    ]

fetch_takes :
    (c : Client) (vb : ℕ) (key : Bytes) (state : CasState) (n : Next)
    → fetch c vb key state ≡ some n
    → n.more ≡ true
    → waiting n.client < waiting c
unfolding fetch get
fetch_takes c vb key state n h m = elim (Option-cases (send c (get_request vb key))) [
  | inl e ↦ absurd (cc (rw e at h))
  | inr (got, e) ↦
      let (same, why) =
        refresh_more (record state { initialized = true }) got.client got.err got.res n (rw e at h)
          m in
      rw same (elim (send_takes c (get_request vb key) got e) [
        | inl less ↦ less
        | inr took ↦ elim why [
          | inl ok ↦ absurd (took.failed ok)
          | inr (r, x, s) ↦ absurd (omega (arith, s, TookNothing-status got r took x))
        ]
      ])
]

after_store_takes :
    (vb : ℕ) (key : Bytes) (state : CasState) (sent : Reply) (before : ℕ) (n : Next)
    → (waiting sent.client < before) ⊎ TookNothing sent
    → (res : Option McResponse) → sent.res ≡ res
    → after_store vb key state sent res ≡ some n
    → n.more ≡ true
    → waiting n.client < before
unfolding after_store is_conflict
after_store_takes vb key state sent before n t none r h m = absurd cc
after_store_takes vb key state sent before n t (some res) r h m =
    elim (Bool-cases (is_conflict res)) [
      | inl e ↦ elim t [
        | inl less ↦
            let next =
              fetch_takes sent.client vb key (record state { resp = some res; err = sent.err }) n
                (rw e at h) m in
            omega (arith, next, less)
        | inr took ↦
            let status = TookNothing-status sent res took r in absurd (ground (arith, e, status))
      ]
      | inr e ↦ let h' = rw e at h in let it : n.more ≡ false = cc h' in absurd (cc (it, m))
    ]

store_value_takes :
    (c : Client) (vb : ℕ) (key : Bytes) (exp : ℕ) (state : CasState) (exists_ : Bool)
    (value : Option Bytes) (n : Next)
    → store_value c vb key exp state exists_ value ≡ some n
    → n.more ≡ true
    → waiting n.client < waiting c
unfolding store_value store
store_value_takes c vb key exp state false none n h m =
    let it : n.more ≡ false = cc h in absurd (cc (it, m))
store_value_takes c vb key exp state false (some value) n h m =
    elim (Option-cases (add c vb key 0 exp value)) [
      | inl e ↦ absurd (cc (rw e at h))
      | inr (sent, e) ↦
          after_store_takes vb key state sent (waiting c) n (send_takes c _ sent e) sent.res refl
            (rw e at h) m
    ]
store_value_takes c vb key exp state true value n h m =
    elim (Option-cases (send c (update_request vb key state.cas value))) [
      | inl e ↦ absurd (cc (rw e at h))
      | inr (sent, e) ↦
          after_store_takes vb key state sent (waiting c) n (send_takes c _ sent e) sent.res refl
            (rw e at h) m
    ]

-- CASNext takes bytes off the connection when it asks to be called again.
cas_next_takes :
    (c : Client) (vb : ℕ) (key : Bytes) (exp : ℕ) (state : CasState) (n : Next)
    → cas_next c vb key exp state ≡ some n
    → n.more ≡ true
    → waiting n.client < waiting c
unfolding cas_next
cas_next_takes c vb key exp state n h m = elim (if-cases state.initialized h) [
  | inl e ↦ store_value_takes c vb key exp state state.exists_ state.value n e m
  | inr e ↦ fetch_takes c vb key state n e m
]

apply_ends :
    (again : Client → CasState → Run CasResult) (next : Next) (got : Option Bytes × CasOp)
    → ((state : CasState) → again next.client state ≢ out_of_fuel)
    → cas_apply again next got ≢ out_of_fuel
unfolding cas_apply
apply_ends again next (value, op) k = elim (Bool-cases (is_quit op next.state.value)) [
  | inl e ↦ rw e (λ z. cc)
  | inr e ↦ rw e (k _)
]

loop_ends :
    (fuel : ℕ) (f : CasFunc) (vb : ℕ) (key : Bytes) (initexp : ℕ) (c : Client) (state : CasState)
    → waiting c < fuel
    → cas_loop fuel f vb key initexp c state ≢ out_of_fuel
unfolding cas_loop cas_turn
loop_ends zero f vb key initexp c state h = absurd (omega arith)
loop_ends (suc fuel) f vb key initexp c state h =
    elim (Option-cases (cas_next c vb key initexp state)) [
      | inl e ↦ rw e (λ z. cc)
      | inr (next, e) ↦ rw e (
          if_neither next.more
            (λ m. apply_ends (cas_loop fuel f vb key initexp) next (f next.state.value) λ state'.
              loop_ends fuel f vb key initexp next.client state'
                (omega (arith, cas_next_takes c vb key initexp state next e m, h)))
            (λ z. cc))
    ]

-- Whatever the server answers and whatever the function does, CAS ends, with one turn more than
-- there are bytes to read at most.
pub cas_ends :
    (c : Client) (vb : ℕ) (key : Bytes) (f : CasFunc) (initexp : ℕ)
    → cas c vb key f initexp ≢ out_of_fuel
unfolding cas
cas_ends c vb key f initexp = loop_ends (suc (waiting c)) f vb key initexp c new_state (omega arith)

-- The function with CASDelete replaced by CASStore where there is a value.
abbrev as_store : Option Bytes → Option Bytes × CasOp → Option Bytes × CasOp
as_store (some current) (value, cas_delete) = (value, cas_store)
as_store current got = got

abbrev pub without_delete : CasFunc → CasFunc
without_delete f current = as_store current (f current)

apply_as_store :
    (again again' : Client → CasState → Run CasResult) (next : Next) (current : Option Bytes)
    (got : Option Bytes × CasOp)
    → next.state.value ≡ current
    → ((state : CasState) → again next.client state ≡ again' next.client state)
    → cas_apply again next got ≡ cas_apply again' next (as_store current got)
unfolding cas_apply
apply_as_store again again' next none (value, cas_store) e k = k _
apply_as_store again again' next none (value, cas_quit) e k = refl
apply_as_store again again' next none (value, cas_delete) e k = rw e refl
apply_as_store again again' next (some x) (value, cas_store) e k = k _
apply_as_store again again' next (some x) (value, cas_quit) e k = refl
apply_as_store again again' next (some x) (value, cas_delete) e k = rw e (k _)

loop_as_store :
    (fuel : ℕ) (f : CasFunc) (vb : ℕ) (key : Bytes) (initexp : ℕ) (c : Client) (state : CasState)
    → cas_loop fuel f vb key initexp c state
      ≡ cas_loop fuel (without_delete f) vb key initexp c state
unfolding cas_loop cas_turn
loop_as_store zero f vb key initexp c state = refl
loop_as_store (suc fuel) f vb key initexp c state =
    elim (Option-cases (cas_next c vb key initexp state)) [
      | inl e ↦ rw e refl
      | inr (next, e) ↦ rw (
        e,
        apply_as_store (cas_loop fuel f vb key initexp)
            (cas_loop fuel (without_delete f) vb key initexp) next next.state.value
            (f next.state.value) refl
            λ state'. loop_as_store fuel f vb key initexp next.client state',
      )
    ]

-- CAS does the same with CASDelete as with CASStore wherever there is a value: whether the key is
-- deleted depends on the value that the function returns alone.
pub cas_delete_is_store :
    (c : Client) (vb : ℕ) (key : Bytes) (f : CasFunc) (initexp : ℕ)
    → cas c vb key f initexp ≡ cas c vb key (without_delete f) initexp
unfolding cas
cas_delete_is_store c vb key f initexp =
    loop_as_store (suc (waiting c)) f vb key initexp c new_state
