-- ===== src/Gocache/Runs.antt =====
-- Taking a run of the storage goroutine apart, and what one request does to the table.
use gomemcached.Prelude.{
  ◌≡◌, refl, none, some, Bytes, List, [], ◌∷◌, if◌then◌else◌, Option-cases, inl, inr,
}
use gomemcached.GoMap.{
  GoMap, lookup, insert, delete, bytes_eq, bytes_beq, lookup-insert, lookup-delete,
}
use gomemcached.Wire.Request.{McRequest}
use gomemcached.Wire.Response.{McResponse}
use gomemcached.Gocache.{McItem, Storage, dispatch, run_server}

pub lookup-insert_item :
    (k j : Bytes) (item : McItem) (m : GoMap Bytes McItem)
    → lookup j (insert k item m) ≡ (if bytes_beq k j then some item else lookup j m)
lookup-insert_item k j item m = lookup-insert k j item m

pub lookup-delete_item :
    (k j : Bytes) (m : GoMap Bytes McItem)
    → lookup j (delete k m) ≡ (if bytes_beq k j then none else lookup j m)
lookup-delete_item k j m = lookup-delete k j m

pub lookup-empty : (k : Bytes) → lookup k (let m : GoMap Bytes McItem = [] in m) ≡ none
unfolding lookup
lookup-empty k = refl

pub ruleset table_laws = (lookup-insert_item, lookup-delete_item, lookup-empty)

-- A run that does not panic dispatches its first request, and then runs the rest.
pub run_server-cons :
    (s s' : Storage) (req : McRequest) (reqs : List McRequest) (ress : List McResponse)
    → run_server s (req ∷ reqs) ≡ some (s', ress)
    → (s1 : Storage) × (res : McResponse) × (ress1 : List McResponse) × (dispatch req s
        ≡ some (s1, res))
      × (run_server s1 reqs ≡ some (s', ress1))
      × (ress ≡ res ∷ ress1)
unfolding run_server
run_server-cons s s' req reqs ress run = elim (Option-cases (dispatch req s)) [
  | inl e ↦ absurd (cc (rw e at run))
  | inr ((s1, res), e) ↦ elim (Option-cases (run_server s1 reqs)) [
    | inl e2 ↦ absurd (cc (rw (e, e2) at run))
    | inr ((s2, ress1), e2) ↦
        (s1, res, ress1, e, cc (rw (e, e2) at run, e2), cc (rw (e, e2) at run))
  ]
]
