-- ===== src/Client/CasLoop.antt =====
-- CASNext of client/mc.go.
use gomemcached.Prelude.{
  ℕ, ◌≡◌, ◌≢◌, refl, Bool, true, false, Option, none, some, Bytes, ◌⊎◌, inl, inr, arith,
  Option-cases, Bool-cases, if-cases, ◌∙◌,
}
use gomemcached.Wire.Status
use gomemcached.Wire.Response.{McResponse, GoError}
use gomemcached.Client.Progress.{nil_response}
use gomemcached.Client.{
  Client, Reply, transmit_request_to, send_rest, send, get, CasState, Next, update_request, refresh,
  fetch, after_store, is_conflict, store_value, add, cas_next,
}

-- The state when CASNext asks to be called again: the value and the CAS of the response when the key
-- is there, and nothing when it is not.
unfoldable pub IsCurrent : CasState → McResponse → Type 0
IsCurrent state res =
    (state.err ≡ none)
    × (state.resp ≡ some res)
    × (((state.exists_ ≡ true) × (state.value ≡ some res.body) × (state.cas ≡ res.cas))
        ⊎ ((res.status ≡ Status.key_enoent)
            × (state.exists_ ≡ false)
            × (state.value ≡ none)
            × (state.cas ≡ 0)))

refresh-IsCurrent :
    (state : CasState) (c : Client) (err : Option GoError) (res : McResponse) (n : Next)
    → refresh state c err (some res) ≡ some n
    → n.more ≡ true
    → IsCurrent n.state res × (n.state.initialized ≡ state.initialized)
unfolding refresh IsCurrent
refresh-IsCurrent state c none res n h m = ground (arith, h)
refresh-IsCurrent state c (some err) res n h m = ground (arith, h, m)

refresh_nil :
    (state : CasState) (c : Client) (err : Option GoError) (n : Next)
    → refresh state c err none ≡ some n
    → n.more ≢ true
unfolding refresh
refresh_nil state c none n h m = absurd cc
refresh_nil state c (some err) n h m = ground (arith, h, m)

-- The state is what a GET of the key gave.
abbrev pub IsFetched : ℕ → Bytes → Next → Type 0
IsFetched vb key n =
    (c : Client) × (got : Reply) × (res : McResponse) × (get c vb key ≡ some got)
    × (got.res ≡ some res)
    × IsCurrent n.state res
    × (n.state.initialized ≡ true)

refreshed :
    (c : Client) (vb : ℕ) (key : Bytes) (state : CasState) (got : Reply) (m : Option McResponse)
    (n : Next)
    → get c vb key ≡ some got
    → got.res ≡ m
    → state.initialized ≡ true
    → refresh state got.client got.err m ≡ some n
    → n.more ≡ true
    → IsFetched vb key n
refreshed c vb key state got none n g k i h m = absurd (refresh_nil state got.client got.err n h m)
refreshed c vb key state got (some res) n g k i h m =
    let (cur, it) = refresh-IsCurrent state got.client got.err res n h m in
    (c, got, res, g, k, cur, it ∙ i)

fetched :
    (c : Client) (vb : ℕ) (key : Bytes) (state : CasState) (n : Next)
    → fetch c vb key state ≡ some n
    → n.more ≡ true
    → IsFetched vb key n
unfolding fetch
fetched c vb key state n h m = elim (Option-cases (get c vb key)) [
  | inl e ↦ absurd (cc (rw e at h))
  | inr (got, e) ↦
      refreshed c vb key (record state { initialized = true }) got got.res n e refl refl (rw e at h)
        m
]

after_store-IsFetched :
    (vb : ℕ) (key : Bytes) (state : CasState) (sent : Reply) (res : Option McResponse) (n : Next)
    → after_store vb key state sent res ≡ some n
    → n.more ≡ true
    → IsFetched vb key n
unfolding after_store
after_store-IsFetched vb key state sent none n h m = absurd cc
after_store-IsFetched vb key state sent (some res) n h m = elim (Bool-cases (is_conflict res)) [
  | inl c ↦ fetched sent.client vb key _ n (rw c at h) m
  | inr c ↦ let h' = rw c at h in absurd (ground (arith, h', m))
]

store_value-IsFetched :
    (c : Client) (vb : ℕ) (key : Bytes) (exp : ℕ) (state : CasState) (exists_ : Bool)
    (value : Option Bytes) (n : Next)
    → store_value c vb key exp state exists_ value ≡ some n
    → n.more ≡ true
    → IsFetched vb key n
unfolding store_value
store_value-IsFetched c vb key exp state false none n h m = absurd (ground (arith, h, m))
store_value-IsFetched c vb key exp state false (some value) n h m =
    elim (Option-cases (add c vb key 0 exp value)) [
      | inl e ↦ absurd (cc (rw e at h))
      | inr (sent, e) ↦ after_store-IsFetched vb key state sent sent.res n (rw e at h) m
    ]
store_value-IsFetched c vb key exp state true value n h m =
    elim (Option-cases (send c (update_request vb key state.cas value))) [
      | inl e ↦ absurd (cc (rw e at h))
      | inr (sent, e) ↦ after_store-IsFetched vb key state sent sent.res n (rw e at h) m
    ]

-- When CASNext asks to be called again, on the first call or after a conflict, the state has what a
-- GET of the key answered: no error, and the value and the CAS of the item, or no value and CAS 0
-- where the answer was KEY_ENOENT.
pub cas_next-IsFetched :
    (c : Client) (vb : ℕ) (key : Bytes) (exp : ℕ) (state : CasState) (n : Next)
    → cas_next c vb key exp state ≡ some n
    → n.more ≡ true
    → IsFetched vb key n
unfolding cas_next
cas_next-IsFetched c vb key exp state n h m = elim (if-cases state.initialized h) [
  | inl e ↦ store_value-IsFetched c vb key exp state state.exists_ state.value n e m
  | inr e ↦ fetched c vb key state n e m
]

-- When CASNext's update or deletion of a key that exists cannot be transmitted, the response is nil
-- and CASNext panics on it.
pub cas_next_panics :
    (c : Client) (vb : ℕ) (key : Bytes) (exp : ℕ) (state : CasState) (sent : Reply) (err : GoError)
    → state.initialized ≡ true
    → state.exists_ ≡ true
    → transmit_request_to c c.conn (update_request vb key state.cas state.value) ≡ some sent
    → sent.err ≡ some err
    → cas_next c vb key exp state ≡ none
unfolding cas_next store_value send send_rest after_store
cas_next_panics c vb key exp state sent err i x h k =
    rw (i, x, h, k, nil_response c c.conn (update_request vb key state.cas state.value) sent h)
