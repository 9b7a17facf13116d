-- ===== src/TapFeed/Connect.antt =====
-- The connect request of client/tap_feed.go, read by ParseTapCommands of tap.go.
use gomemcached.Prelude.{
  ℕ, ◌%◌, ◌^◌, ◌<◌, ◌≡◌, refl, ap, ◌∙◌, Bool, true, false, not, ◌&&◌, Option, none, some, Bytes,
  List, [], ◌∷◌, ◌++◌, All, length, ltb, ltb→lt, ◌==◌, if◌then◌else◌, arith, put_uint16, put_uint64,
  uint16_put, uint32_put, uint64_put, IsU16, IsU64, Bool-cases, inl, inr, append-nil, append_assoc,
}
use gomemcached.Io.{eof, Reader, read_full-append}
use gomemcached.GoMap.{GoMap, lookup, insert, nat_eq, lookup-insert, bytes_beq, bytes_beq_iff}
use gomemcached.Tap
use gomemcached.Tap.{
  TapItem, word, flag, vb_list, TapConnect, split_flags, split_loop, parse_fields, parse_vbs,
  parse_tap_commands, tap_parse_uint16, tap_parse_uint64, tap_parse_vb_list, tap_parse_bool,
  tap_flag_parser, read_word,
}
use gomemcached.TapFeed.Arguments.{TapArguments, flag_word, flags, bytes, vb_bytes, connect_request}

-- A test that holds for both Booleans.
every : (Bool → Bool) → Bool
every p = p true && p false

every_sound : (p : Bool → Bool) (b : Bool) → every p ≡ true → p b ≡ true
unfolding every
every_sound p true h = ground (arith, h)
every_sound p false h = ground (arith, h)

abbrev option_flag : Bool → ℕ → List ℕ → List ℕ
option_flag b f fs = if b then f ∷ fs else fs

abbrev flag_list : Bool → Bool → Bool → Bool → Bool → Bool → Bool → Bool → List ℕ
flag_list b0 b1 b2 b3 b4 b5 b6 b7 = option_flag b0 0x01 (
    option_flag b1 0x02 (
      option_flag b2 0x04 (
        option_flag b3 0x08 (
          option_flag b4 0x10
            (option_flag b5 0x20 (option_flag b6 0x40 (option_flag b7 0x80 [])))))))

same_list : Option (List ℕ) → List ℕ → Bool
same_list none gs = false
same_list (some fs) gs = bytes_beq fs gs

same_list_sound : (m : Option (List ℕ)) (gs : List ℕ) → same_list m gs ≡ true → m ≡ some gs
unfolding same_list
same_list_sound none gs h = absurd cc
same_list_sound (some fs) gs h = ap some ((bytes_beq_iff fs gs).0 h)

-- Eight Booleans are few enough to try them all.
all_splits :
    every (λ b0. every (λ b1. every (λ b2. every (λ b3. every (λ b4. every (λ b5. every (λ b6.
      every (λ b7.
        same_list
          (split_flags (flag_word b0 b1 b2 b3 b4 b5 b6 b7))
          (flag_list b0 b1 b2 b3 b4 b5 b6 b7)))))))))
    ≡ true
unfolding every same_list split_flags split_loop flag_word bytes_beq
all_splits = refl

split_flags-flag_word :
    (b0 b1 b2 b3 b4 b5 b6 b7 : Bool)
    → split_flags (flag_word b0 b1 b2 b3 b4 b5 b6 b7) ≡ some (flag_list b0 b1 b2 b3 b4 b5 b6 b7)
split_flags-flag_word b0 b1 b2 b3 b4 b5 b6 b7 = same_list_sound _ _ (
    every_sound _ b7 (
      every_sound _ b6 (
        every_sound _ b5 (
          every_sound _ b4 (
            every_sound _ b3
              (every_sound _ b2 (every_sound _ b1 (every_sound _ b0 all_splits))))))))

all_small :
    every (λ b0. every (λ b1. every (λ b2. every (λ b3. every (λ b4.
      every (λ b5. every (λ b6. every (λ b7. ltb (flag_word b0 b1 b2 b3 b4 b5 b6 b7) 256))))))))
    ≡ true
unfolding every flag_word
all_small = refl

flag_word_small : (b0 b1 b2 b3 b4 b5 b6 b7 : Bool) → flag_word b0 b1 b2 b3 b4 b5 b6 b7 < 256
flag_word_small b0 b1 b2 b3 b4 b5 b6 b7 = ltb→lt _ _ (
    every_sound _ b7 (
      every_sound _ b6 (
        every_sound _ b5 (
          every_sound _ b4 (
            every_sound _ b3 (every_sound _ b2 (every_sound _ b1 (every_sound _ b0 all_small))))))))

abbrev put_item : Bool → ℕ → TapItem → GoMap ℕ TapItem → GoMap ℕ TapItem
put_item b f v m = if b then insert f v m else m

abbrev with_item : Bool → ℕ → TapItem → TapConnect → TapConnect
with_item b f v rv = record rv { flags = put_item b f v rv.flags }

parse_flag :
    (b : Bool) (f : ℕ) (fs : List ℕ) (rv : TapConnect) (r : Reader)
    → (f == Tap.backfill) ≡ false
    → (f == Tap.list_vbuckets) ≡ false
    → parse_fields (option_flag b f fs) rv r ≡ parse_fields fs (with_item b f (flag true) rv) r
unfolding parse_fields tap_flag_parser tap_parse_bool
parse_flag true f fs rv r h k = rw (h, k)
parse_flag false f fs rv r h k = refl

parse_word :
    (b : Bool) (n : ℕ) (fs : List ℕ) (rv : TapConnect) (rest : Bytes)
    → IsU64 n
    → parse_fields
        (option_flag b Tap.backfill fs)
        rv
        (record { input = (if b then put_uint64 n else []) ++ rest; ending = eof })
      ≡ parse_fields fs
          (with_item b Tap.backfill (word n) rv)
          (record { input = rest; ending = eof })
unfolding parse_fields tap_flag_parser tap_parse_uint64 read_word
parse_word true n fs rv rest h =
    rw (read_full-append (put_uint64 n) rest eof 8 refl, uint64_put n [] h)
parse_word false n fs rv rest h = refl

parse_uint16_put :
    (n : ℕ) (rest : Bytes)
    → IsU16 n
    → tap_parse_uint16 (record { input = put_uint16 n ++ rest; ending = eof })
      ≡ some (record { val = word n; err = none; reader = record { input = rest; ending = eof } })
unfolding tap_parse_uint16 read_word
parse_uint16_put n rest h = rw (read_full-append (put_uint16 n) rest eof 2 refl, uint16_put n [] h)

parse_vbs-vb_bytes :
    (vbs rv : List ℕ) (rest : Bytes)
    → All IsU16 vbs
    → parse_vbs (length vbs) rv (record { input = vb_bytes vbs ++ rest; ending = eof })
      ≡ some (record {
        val = vb_list (rv ++ vbs);
        err = none;
        reader = record { input = rest; ending = eof };
      })
unfolding parse_vbs vb_bytes
parse_vbs-vb_bytes [] rv rest h = rw append-nil
parse_vbs-vb_bytes (vb ∷ vbs) rv rest (h, hs) =
    rw (parse_uint16_put vb (vb_bytes vbs ++ rest) h, ← append_assoc rv (vb ∷ []) vbs)
      (parse_vbs-vb_bytes vbs (rv ++ (vb ∷ [])) rest hs)

parse_vb_list :
    (b : Bool) (vbs : List ℕ) (fs : List ℕ) (rv : TapConnect) (rest : Bytes)
    → IsU16 (length vbs)
    → All IsU16 vbs
    → parse_fields (option_flag b Tap.list_vbuckets fs) rv (record {
      input = (if b then put_uint16 (length vbs % 2 ^ 16) ++ vb_bytes vbs else []) ++ rest;
      ending = eof;
    })
      ≡ parse_fields fs
          (with_item b Tap.list_vbuckets (vb_list vbs) rv)
          (record { input = rest; ending = eof })
unfolding parse_fields tap_flag_parser tap_parse_vb_list
parse_vb_list true vbs fs rv rest n h =
    let same : length vbs % 2 ^ 16 ≡ length vbs = omega arith in
    rw (
      same,
      parse_uint16_put (length vbs) (vb_bytes vbs ++ rest) n,
      parse_vbs-vb_bytes vbs [] rest h,
    )
parse_vb_list false vbs fs rv rest n h = refl

lookup-put_item :
    (b : Bool) (f j : ℕ) (v : TapItem) (m : GoMap ℕ TapItem)
    → lookup j (put_item b f v m) ≡ (if b && (f == j) then some v else lookup j m)
lookup-put_item true f j v m = lookup-insert f j v m
lookup-put_item false f j v m = refl

-- What the arguments ask for under a flag.
abbrev pub argument_item : TapArguments → ℕ → Option TapItem
argument_item args f =
    if args.registered_client && (Tap.registered_client == f)
    then some (flag true)
    else if args.checkpoint && (Tap.checkpoint == f)
    then some (flag true)
    else if args.keys_only && (Tap.request_keys_only == f)
    then some (flag true)
    else if args.support_ack && (Tap.support_ack == f)
    then some (flag true)
    else if args.takeover && (Tap.takeover_vbuckets == f)
    then some (flag true)
    else if ltb 0 (length args.vbuckets) && (Tap.list_vbuckets == f)
    then some (vb_list args.vbuckets)
    else if args.dump && (Tap.dump == f)
    then some (flag true)
    else if ltb 0 args.backfill && (Tap.backfill == f)
    then some (word args.backfill)
    else none

abbrev connected : TapArguments → TapConnect
connected args = with_item args.registered_client 0x80 (flag true) (
    with_item args.checkpoint 0x40 (flag true) (
      with_item args.keys_only 0x20 (flag true) (
        with_item args.support_ack 0x10 (flag true) (
          with_item args.takeover 0x08 (flag true) (
            with_item (ltb 0 (length args.vbuckets)) 0x04 (vb_list args.vbuckets) (
              with_item args.dump 0x02 (flag true) (
                with_item (ltb 0 args.backfill) 0x01 (word args.backfill)
                  (record { flags = []; remaining_body = []; name = args.client_name }))))))))

lookup-connected :
    (args : TapArguments) (f : ℕ) → lookup f (connected args).flags ≡ argument_item args f
unfolding lookup
lookup-connected args f = rw (
  lookup-put_item args.registered_client 0x80 f (flag true) _,
  lookup-put_item args.checkpoint 0x40 f (flag true) _,
  lookup-put_item args.keys_only 0x20 f (flag true) _,
  lookup-put_item args.support_ack 0x10 f (flag true) _,
  lookup-put_item args.takeover 0x08 f (flag true) _,
  lookup-put_item (ltb 0 (length args.vbuckets)) 0x04 f (vb_list args.vbuckets) _,
  lookup-put_item args.dump 0x02 f (flag true) _,
  lookup-put_item (ltb 0 args.backfill) 0x01 f (word args.backfill) _,
)

payload : (args : TapArguments) → Bytes
payload args =
    (if ltb 0 args.backfill then put_uint64 args.backfill else [])
    ++ ((if ltb 0 (length args.vbuckets)
          then put_uint16 (length args.vbuckets % 2 ^ 16) ++ vb_bytes args.vbuckets
          else [])
        ++ [])

bytes-payload : (args : TapArguments) → bytes args ≡ payload args
unfolding bytes payload
bytes-payload args = elim (Bool-cases (ltb 0 (length args.vbuckets))) [
  | inl h ↦
      rw (h, append-nil (put_uint16 (length args.vbuckets % 2 ^ 16) ++ vb_bytes args.vbuckets))
  | inr h ↦ rw (h, append-nil (if ltb 0 args.backfill then put_uint64 args.backfill else []))
]

fields_parsed :
    (args : TapArguments)
    → IsU64 args.backfill
    → IsU16 (length args.vbuckets)
    → All IsU16 args.vbuckets
    → parse_fields
        (flag_list
          (ltb 0 args.backfill)
          args.dump
          (ltb 0 (length args.vbuckets))
          args.takeover
          args.support_ack
          args.keys_only
          args.checkpoint
          args.registered_client)
        (record { flags = []; remaining_body = []; name = args.client_name })
        (record { input = payload args; ending = eof })
      ≡ some (record { connect = connected args; err = none })
unfolding payload parse_fields
fields_parsed args b n vs =
    parse_word (ltb 0 args.backfill) args.backfill _ _ _ b
    ∙ (parse_flag args.dump 0x02 _ _ _ refl refl
        ∙ (parse_vb_list (ltb 0 (length args.vbuckets)) args.vbuckets _ _ [] n vs
            ∙ (parse_flag args.takeover 0x08 _ _ _ refl refl
                ∙ (parse_flag args.support_ack 0x10 _ _ _ refl refl
                    ∙ (parse_flag args.keys_only 0x20 _ _ _ refl refl
                        ∙ (parse_flag args.checkpoint 0x40 _ _ _ refl refl
                            ∙ parse_flag args.registered_client 0x80 [] _ _ refl refl))))))

-- The request that StartTapFeed makes of its arguments is read back by ParseTapCommands: no error, the
-- client's name, nothing left of the body, and under every flag exactly what the arguments ask for,
-- for a backfill of 64 bits and less than 2 ^ 16 vbuckets of 16 bits each.
pub parse_tap_commands-connect_request :
    (args : TapArguments)
    → IsU64 args.backfill
    → IsU16 (length args.vbuckets)
    → All IsU16 args.vbuckets
    → (rv : TapConnect) × (parse_tap_commands (connect_request args)
        ≡ some (record { connect = rv; err = none }))
      × (rv.name ≡ args.client_name)
      × (rv.remaining_body ≡ [])
      × ((f : ℕ) → lookup f rv.flags ≡ argument_item args f)
unfolding parse_tap_commands connect_request flags
parse_tap_commands-connect_request args b n vs =
    let given : not (args.backfill == 0) ≡ ltb 0 args.backfill = ground arith in
    let w =
      flag_word (ltb 0 args.backfill) args.dump (ltb 0 (length args.vbuckets)) args.takeover
        args.support_ack args.keys_only args.checkpoint args.registered_client in
    let small =
      flag_word_small (ltb 0 args.backfill) args.dump (ltb 0 (length args.vbuckets)) args.takeover
        args.support_ack args.keys_only args.checkpoint args.registered_client in
    (
      connected args,
      rw
          (
            given,
            uint32_put w [] (omega (arith, small)),
            split_flags-flag_word (ltb 0 args.backfill) args.dump (ltb 0 (length args.vbuckets))
                args.takeover args.support_ack args.keys_only args.checkpoint
                args.registered_client,
            bytes-payload args,
          )
          (fields_parsed args b n vs),
      refl,
      refl,
      lookup-connected args,
    )
