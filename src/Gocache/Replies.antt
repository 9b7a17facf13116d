-- ===== src/Gocache/Replies.antt =====
-- What the storage of mc_storage.go answers after which requests.
use gomemcached.Prelude.{
  ℕ, ◌<◌, ◌≡◌, ◌↔◌, ◌⊎◌, ap, ◌∙◌, Bool, false, ◌&&◌, ◌||◌, none, some, Bytes, List, [], ◌∷◌, All,
  length, drop, length-drop, ◌==◌, put_uint32, uint32, arith,
}
use gomemcached.GoMap.{lookup, bytes_eq, bytes_beq, bytes_beq_iff, beq_self}
use gomemcached.Wire.Buffer.{slice_from}
use gomemcached.Wire.Opcode
use gomemcached.Wire.Status
use gomemcached.Wire.Request.{McRequest}
use gomemcached.Wire.Response.{McResponse, empty_response}
use gomemcached.Gocache.Runs.{table_laws, run_server-cons}
use gomemcached.Gocache.{
  Storage, handle_set, handle_get, handle_flush, handle_delete, found, dispatch, run_server,
}

-- The request may change what is stored under `k`.
abbrev pub touches : Bytes → McRequest → Bool
touches k req =
    req.opcode == Opcode.flush
    || ((req.opcode == Opcode.set || req.opcode == Opcode.delete) && bytes_beq req.key k)

lookup-dispatch :
    (k : Bytes) (req : McRequest) (s s' : Storage) (res : McResponse)
    → touches k req ≡ false
    → dispatch req s ≡ some (s', res)
    → lookup k s'.table ≡ lookup k s.table
unfolding dispatch handle_set handle_get handle_flush handle_delete
lookup-dispatch k req s s' res un run = grind (arith, table_laws)

lookup-run :
    (k : Bytes) (reqs : List McRequest) (s s' : Storage) (ress : List McResponse)
    → All (λ req. touches k req ≡ false) reqs
    → run_server s reqs ≡ some (s', ress)
    → lookup k s'.table ≡ lookup k s.table
lookup-run k [] s s' ress un run = unfold run_server in ground arith
lookup-run k (req ∷ reqs) s s' ress (u, us) run =
    let (s1, res, ress1, e1, e2, e3) = run_server-cons s s' req reqs ress run in
    lookup-run k reqs s1 s' ress1 us e2 ∙ lookup-dispatch k req s s1 res u e1

dispatch-get :
    (req : McRequest) (s : Storage)
    → req.opcode ≡ Opcode.get
    → dispatch req s ≡ some (s, found (lookup req.key s.table))
unfolding dispatch handle_get
dispatch-get req s o = ground arith

dispatch-set :
    (req : McRequest) (s s1 : Storage) (stored : McResponse) (flags : ℕ)
    → req.opcode ≡ Opcode.set
    → uint32 req.extras ≡ some flags
    → dispatch req s ≡ some (s1, stored)
    → found (lookup req.key s1.table) ≡ record empty_response {
      status = Status.success;
      extras = put_uint32 flags;
      cas = stored.cas;
      body = req.body;
    }
unfolding dispatch handle_set
dispatch-set req s s1 stored flags o fl run = grind (arith, table_laws, beq_self req.key)

-- A GET after a SET of its key, with requests between that do not touch the key, answers SUCCESS with
-- the flags, the CAS that the SET was answered with, and the body; it changes nothing.
pub get_after_set :
    (set get : McRequest) (between : List McRequest) (flags : ℕ) (s s1 s2 : Storage)
    (stored : McResponse) (ress : List McResponse)
    → set.opcode ≡ Opcode.set
    → get.opcode ≡ Opcode.get
    → get.key ≡ set.key
    → uint32 set.extras ≡ some flags
    → dispatch set s ≡ some (s1, stored)
    → All (λ req. touches set.key req ≡ false) between
    → run_server s1 between ≡ some (s2, ress)
    → dispatch get s2
      ≡ some (
        s2,
        record empty_response {
          status = Status.success;
          extras = put_uint32 flags;
          cas = stored.cas;
          body = set.body;
        },
      )
get_after_set set get between flags s s1 s2 stored ress so go key fl e1 un e2 =
    dispatch-get get s2 go
    ∙ ap (λ r. some (s2, r))
        (ap (λ k. found (lookup k s2.table)) key
          ∙ ap found (lookup-run set.key between s1 s2 ress un e2)
          ∙ dispatch-set set s s1 stored flags so fl e1)

dispatch-delete :
    (req : McRequest) (k : Bytes) (s s1 : Storage) (res : McResponse)
    → ((req.opcode ≡ Opcode.delete) × (req.key ≡ k)) ⊎ (req.opcode ≡ Opcode.flush)
    → dispatch req s ≡ some (s1, res)
    → lookup k s1.table ≡ none
unfolding dispatch handle_delete handle_flush
dispatch-delete req k s s1 res d run = grind (arith, table_laws, bytes_beq_iff req.key k)

-- A GET after a DELETE of its key, or after a FLUSH, with requests between that do not touch the key,
-- answers KEY_ENOENT and changes nothing.
pub get_after_delete :
    (del get : McRequest) (between : List McRequest) (s s1 s2 : Storage) (res : McResponse)
    (ress : List McResponse)
    → ((del.opcode ≡ Opcode.delete) × (del.key ≡ get.key)) ⊎ (del.opcode ≡ Opcode.flush)
    → get.opcode ≡ Opcode.get
    → dispatch del s ≡ some (s1, res)
    → All (λ req. touches get.key req ≡ false) between
    → run_server s1 between ≡ some (s2, ress)
    → dispatch get s2 ≡ some (s2, record empty_response { status = Status.key_enoent })
get_after_delete del get between s s1 s2 res ress d go e1 un e2 =
    dispatch-get get s2 go
    ∙ ap (λ o. some (s2, found o))
        (lookup-run get.key between s1 s2 ress un e2 ∙ dispatch-delete del get.key s s1 res d e1)

length-uint32 : (xs : Bytes) → (uint32 xs ≡ none) ↔ (length xs < 4)
unfolding uint32
length-uint32 [] = ground arith
length-uint32 (a ∷ []) = ground arith
length-uint32 (a ∷ b ∷ []) = ground arith
length-uint32 (a ∷ b ∷ c ∷ []) = ground arith
length-uint32 (a ∷ b ∷ c ∷ d ∷ r) = (λ e. absurd (cc e), λ e. absurd (omega arith))

-- The dispatch of a request panics exactly when it is a SET with less than 8 bytes of extras or a
-- FLUSH with less than 4, whatever the storage holds.
pub dispatch_panics :
    (req : McRequest) (s : Storage)
    → (dispatch req s ≡ none) ↔ (
        ((req.opcode ≡ Opcode.set) × (length req.extras < 8))
        ⊎ ((req.opcode ≡ Opcode.flush) × (length req.extras < 4)))
unfolding dispatch handle_set handle_get handle_flush handle_delete slice_from
dispatch_panics req s =
    ground
      (arith, length-uint32 req.extras, length-uint32 (drop 4 req.extras), length-drop 4 req.extras)
