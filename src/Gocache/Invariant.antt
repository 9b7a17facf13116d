-- ===== src/Gocache/Invariant.antt =====
-- The CAS values of the storage of mc_storage.go.
use gomemcached.Prelude.{
  ℕ, ◌+◌, ◌%◌, ◌^◌, ◌≤◌, ◌<◌, ◌≡◌, refl, false, some, Bytes, List, [], ◌∷◌, ◌==◌, if◌then◌else◌,
  arith, ◌⊎◌, Option-cases, Bool-cases, inl, inr, uint32, sym, ap, subst, ◌∙◌,
}
use gomemcached.GoMap.{lookup, insert, delete, bytes_eq, bytes_beq_iff}
use gomemcached.Wire.Buffer.{slice_from}
use gomemcached.Wire.Opcode
use gomemcached.Wire.Request.{McRequest}
use gomemcached.Wire.Response.{McResponse}
use gomemcached.Gocache.Runs.{run_server-cons, lookup-insert_item, lookup-delete_item, lookup-empty}
use gomemcached.Gocache.{
  McItem, Storage, empty_storage, handle_set, handle_get, handle_flush, handle_delete, dispatch,
  run_server,
}

-- Every stored CAS was given out, and no two keys have the same one.
pub record IsValid (s : Storage) : Type 0 where
  pub given : (k : Bytes) (a : McItem) → lookup k s.table ≡ some a → a.cas ≤ s.cas
  pub unique :
      (k j : Bytes) (a b : McItem)
      → lookup k s.table ≡ some a
      → lookup j s.table ≡ some b
      → a.cas ≡ b.cas
      → k ≡ j

pub IsValid-empty : IsValid empty_storage
IsValid-empty = record {
  given = λ k a e. cc (lookup-empty k);
  unique = λ k j a b e. cc (lookup-empty k);
}

insert-IsValid :
    (s : Storage) (k : Bytes) (item : McItem)
    → IsValid s
    → item.cas ≡ s.cas + 1
    → IsValid (record { table = insert k item s.table; cas = s.cas + 1 })
insert-IsValid s k item v new = record {
  given = λ j a e. ground (arith, lookup-insert_item k j item s.table, v.given j a);
  unique = λ j i a b ea eb e. ground (
    arith,
    lookup-insert_item k j item s.table,
    lookup-insert_item k i item s.table,
    bytes_beq_iff k j,
    bytes_beq_iff k i,
    v.given j a,
    v.given i b,
    v.unique j i a b,
  );
}

delete-IsValid :
    (s : Storage) (k : Bytes) → IsValid s → IsValid (record s { table = delete k s.table })
delete-IsValid s k v = record {
  given = λ j a e. ground (arith, lookup-delete_item k j s.table, v.given j a);
  unique = λ j i a b ea eb e.
      ground
        (arith, lookup-delete_item k j s.table, lookup-delete_item k i s.table, v.unique j i a b);
}

empty-IsValid : (s : Storage) → IsValid (record s { table = [] })
empty-IsValid s = record {
  given = λ k a e. cc (lookup-empty k);
  unique = λ k j a b e. cc (lookup-empty k);
}

abbrev pub is_set : McRequest → ℕ
is_set req = if req.opcode == Opcode.set then 1 else 0

-- A SET that does not panic stores an item under the next CAS.
handle_set_stores :
    (req : McRequest) (s s' : Storage) (res : McResponse)
    → handle_set req s ≡ some (s', res)
    → (item : McItem) × (item.cas ≡ (s.cas + 1) % 2 ^ 64)
      × (s' ≡ record { table = insert req.key item s.table; cas = (s.cas + 1) % 2 ^ 64 })
unfolding handle_set
handle_set_stores req s s' res run = elim (Option-cases (uint32 req.extras)) [
  | inl e ↦ absurd (cc (rw e at run))
  | inr (flags, e) ↦ elim (Option-cases (slice_from req.extras 4)) [
    | inl e2 ↦ absurd (cc (rw (e, e2) at run))
    | inr (b, e2) ↦ elim (Option-cases (uint32 b)) [
      | inl e3 ↦ absurd (cc (rw (e, e2, e3) at run))
      | inr (expiration, e3) ↦ (
        record {
          cas = (s.cas + 1) % 2 ^ 64;
          flags = flags;
          expiration = expiration;
          value = req.body;
        },
        refl,
        cc (rw (e, e2, e3) at run),
      )
    ]
  ]
]

handle_set-IsValid :
    (req : McRequest) (s s' : Storage) (res : McResponse)
    → IsValid s
    → s.cas + 1 < 2 ^ 64
    → handle_set req s ≡ some (s', res)
    → IsValid s' × (s'.cas ≡ s.cas + 1)
handle_set-IsValid req s s' res v small run =
    let (item, new, e) = handle_set_stores req s s' res run in
    let fits : (s.cas + 1) % 2 ^ 64 ≡ s.cas + 1 = omega arith in
    let e' =
      e
      ∙ ap
          (λ (c : ℕ).
            let t : Storage = record { table = insert req.key item s.table; cas = c } in t)
          fits in
    (
      subst IsValid (sym e') (insert-IsValid s req.key item v (new ∙ fits)),
      ap (λ (t : Storage). t.cas) e',
    )

-- Any other request leaves the storage, takes its key out, or empties the table.
other_changes :
    (req : McRequest) (s s' : Storage) (res : McResponse)
    → (req.opcode == Opcode.set) ≡ false
    → dispatch req s ≡ some (s', res)
    → (s' ≡ s)
      ⊎ ((s' ≡ record s { table = delete req.key s.table }) ⊎ (s' ≡ record s { table = [] }))
unfolding dispatch handle_get handle_flush handle_delete
other_changes req s s' res o run = ground arith

kept : (s s' t : Storage) → IsValid t → t.cas ≡ s.cas → s' ≡ t → IsValid s' × (s'.cas ≡ s.cas + 0)
kept s s' t v c e = (subst IsValid (sym e) v, ap (λ (t : Storage). t.cas) e ∙ omega arith)

dispatch_other-IsValid :
    (req : McRequest) (s s' : Storage) (res : McResponse)
    → IsValid s
    → (req.opcode == Opcode.set) ≡ false
    → dispatch req s ≡ some (s', res)
    → IsValid s' × (s'.cas ≡ s.cas + 0)
dispatch_other-IsValid req s s' res v o run = elim (other_changes req s s' res o run) [
  | inl e ↦ kept s s' s v refl e
  | inr (inl e) ↦
      kept s s' (record s { table = delete req.key s.table }) (delete-IsValid s req.key v) refl e
  | inr (inr e) ↦ kept s s' (record s { table = [] }) (empty-IsValid s) refl e
]

-- A request that does not panic keeps the invariant, and counts the CAS up if it is a SET.
dispatch-IsValid :
    (req : McRequest) (s s' : Storage) (res : McResponse)
    → IsValid s
    → s.cas + is_set req < 2 ^ 64
    → dispatch req s ≡ some (s', res)
    → IsValid s' × (s'.cas ≡ s.cas + is_set req)
unfolding dispatch
dispatch-IsValid req s s' res v small run = elim (Bool-cases (req.opcode == Opcode.set)) [
  | inl o ↦ rw o (handle_set-IsValid req s s' res v (rw o at small) (rw o at run))
  | inr o ↦ rw o (dispatch_other-IsValid req s s' res v o run)
]

abbrev pub count_sets : List McRequest → ℕ
count_sets [] = 0
count_sets (req ∷ reqs) = is_set req + count_sets reqs

-- While the CAS counter does not wrap, a run of the storage that does not panic keeps the invariant:
-- no two keys have items of the same CAS, no item has a CAS that was not given out, and the counter
-- has gone up by the number of the SETs.
pub run_server-IsValid :
    (reqs : List McRequest) (s s' : Storage) (ress : List McResponse)
    → IsValid s
    → s.cas + count_sets reqs < 2 ^ 64
    → run_server s reqs ≡ some (s', ress)
    → IsValid s' × (s'.cas ≡ s.cas + count_sets reqs)
run_server-IsValid [] s s' ress v small run = unfold run_server in kept s s' s v refl (cc run)
run_server-IsValid (req ∷ reqs) s s' ress v small run =
    let (s1, res, ress1, e1, e2, e3) = run_server-cons s s' req reqs ress run in
    let (v1, c1) = dispatch-IsValid req s s1 res v (omega arith) e1 in
    let (v2, c2) = run_server-IsValid reqs s1 s' ress1 v1 (omega (arith, c1)) e2 in
    (v2, omega (arith, c1, c2))
