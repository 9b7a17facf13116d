-- ===== src/Client/Observe/Answers.antt =====
-- What Observe of client/mc.go makes of an answer in the documented layout.
use Prim.Native.Nat.{bit_and}
use gomemcached.Prelude.{
  ℕ, ◌+◌, ◌-◌, ◌*◌, ◌/◌, ◌%◌, ◌^◌, ◌<◌, ◌≤◌, ◌≡◌, refl, sym, ap, ◌∙◌, none, some, Bytes, [], ◌∷◌,
  ◌++◌, length, put_uint16, put_uint64, get_elem?, arith, IsU16, IsU64, le→not_ltb, length-append,
  ==_iff, uint16_put, uint64_put, append_assoc,
}
use gomemcached.GoMap.{bytes_eq, beq_self}
use gomemcached.Io.{IoError, Writer}
use gomemcached.Wire.Buffer.{
  write_at-zeros, write_at_rest, slice_from, slice_below, slice-append, slice_from-append,
}
use gomemcached.Wire.Layout.{hdr_len}
use gomemcached.Wire.Status
use gomemcached.Wire.Response.{McResponse}
use gomemcached.Wire.Response.Encoding.{wire}
use gomemcached.Client.{Client}
use gomemcached.Client.Talk.{IsAnswer, behind, send_answered, failure_success}
use gomemcached.Client.Observe.{
  observe_body, observe_request, millisecond, read_result, read_key, parse_observation,
  observe_rest, observe,
}

-- The body of an answer: the vBucket, the key with its length, the status and the CAS.
abbrev pub observation : ℕ → Bytes → ℕ → ℕ → Bytes
observation vb key status cas =
    put_uint16 vb ++ (put_uint16 (length key) ++ (key ++ (status ∷ put_uint64 cas)))

get_elem?-append :
    (front : Bytes) (b : ℕ) (rest : Bytes) (i : ℕ)
    → i ≡ length front
    → get_elem? (front ++ (b ∷ rest)) i ≡ some b
get_elem?-append [] b rest i e = rw e refl
get_elem?-append (x ∷ front) b rest i e = rw e (get_elem?-append front b rest (length front) refl)

observe_body-layout :
    (vb : ℕ) (key : Bytes)
    → observe_body vb key ≡ some (put_uint16 vb ++ (put_uint16 (length key) ++ key))
unfolding observe_body
observe_body-layout vb key = rw (
  write_at-zeros [] (put_uint16 vb) 0 (4 + length key) (2 + length key) refl (omega arith),
  write_at-zeros (put_uint16 vb) (put_uint16 (length key)) 2 (2 + length key) (length key) refl
      (omega arith),
  write_at_rest (put_uint16 vb ++ put_uint16 (length key)) key 4 refl,
)

-- An answer in the documented layout, about the vBucket and the key that were asked for, with a key
-- shorter than 65,531 bytes: the result has its status and its CAS, and the times, in milliseconds,
-- from the two halves of the response's CAS.
pub parse_observation-observation :
    (vb : ℕ) (key : Bytes) (status cas : ℕ) (res : McResponse)
    → IsU16 vb
    → length key + 5 < 2 ^ 16
    → IsU64 cas
    → res.body ≡ observation vb key status cas
    → parse_observation vb key res
      ≡ some (record {
        result = record {
          status = status;
          cas = cas;
          persistence_time = res.cas / 2 ^ 32 * millisecond;
          replication_time = bit_and res.cas (2 ^ 32 - 1) * millisecond;
        };
        err = none;
      })
unfolding parse_observation read_key read_result
parse_observation-observation vb key status cas res v k c b =
    let n = length key in
    let rest : Bytes = status ∷ put_uint64 cas in
    let front : Bytes = put_uint16 vb ++ put_uint16 n in
    let body = observation vb key status cas in
    let size : length body ≡ 4 + (n + 9) = omega (arith, length-append key rest) in
    let at4 : (4 + n) % 2 ^ 16 ≡ 4 + n = omega arith in
    let at5 : (5 + n) % 2 ^ 16 ≡ 5 + n = omega arith in
    let cas_at : slice_from body (5 + n) ≡ some (put_uint64 cas) =
      ap (λ (t : Bytes). slice_from (front ++ t) (5 + n))
        (sym (append_assoc key (status ∷ []) (put_uint64 cas)))
      ∙ slice_from-append (front ++ (key ++ (status ∷ []))) (put_uint64 cas) (5 + n)
          (omega (arith, length-append key (status ∷ []))) in
    rw (
      b,
      le→not_ltb (length body) 5 (omega (arith, size)),
      slice-append [] (put_uint16 vb) (put_uint16 n ++ (key ++ rest)) 0 2 refl refl,
      uint16_put vb [] v,
      slice-append (put_uint16 vb) (put_uint16 n) (key ++ rest) 2 4 refl refl,
      uint16_put n [] (omega arith),
      le→not_ltb (length body) (2 + 2 + n + 1 + 8) (omega (arith, size)),
      at4,
      slice-append front key rest 4 (4 + n) refl refl,
      (==_iff vb vb).1 refl,
      beq_self key,
      get_elem?-append (front ++ key) status (put_uint64 cas) (4 + n) (omega arith),
      at5,
      cas_at,
      uint64_put cas [] c,
    )

-- Observe of a client on a connection with a writer that does not fail, when the server answers with
-- a response that fits its header, is not marked as fatal, has the status SUCCESS and has a body in the documented layout,
-- with the vBucket and the key that were asked for, a status and a CAS; the key is shorter than
-- 65,531 bytes and the client's header buffer has 24 bytes at most. The request goes out with the
-- vBucket and the key; the result has the body's status and CAS, and as its times, in milliseconds,
-- the two halves of the response's CAS; there is no error, and the rest of the input is left.
pub observe-answered :
    (c : Client) (vb : ℕ) (key : Bytes) (status cas : ℕ) (res : McResponse) (rest : Bytes)
    (e : IoError) (w : Writer)
    → IsU16 vb
    → length key + 5 < 2 ^ 16
    → IsU64 cas
    → res.body ≡ observation vb key status cas
    → res.status ≡ Status.success
    → IsAnswer res
    → w.room ≡ none
    → length c.hdr_buf ≤ hdr_len
    → c.conn
      ≡ some (record { reader = record { input = wire res ++ rest; ending = e }; writer = w })
    → observe c vb key
      ≡ some (
        record {
          result = record {
            status = status;
            cas = cas;
            persistence_time = res.cas / 2 ^ 32 * millisecond;
            replication_time = bit_and res.cas (2 ^ 32 - 1) * millisecond;
          };
          err = none;
        },
        behind rest e w c.hdr_buf
            (observe_request vb (put_uint16 vb ++ (put_uint16 (length key) ++ key)))
            res,
      )
unfolding observe observe_rest
observe-answered c vb key status cas res rest e w v k ca b ok a free short conn =
    let req = observe_request vb (put_uint16 vb ++ (put_uint16 (length key) ++ key)) in
    rw (
      observe_body-layout vb key,
      send_answered c req res rest e w a free short conn,
      failure_success res ok,
      parse_observation-observation vb key status cas res v k ca b,
    )

-- An answer whose key has 65,532 bytes or more panics Observe where the positions wrap, whatever the
-- bytes of the key and behind it are, when the body is long enough for its key.
pub parse_observation_panics :
    (vb out_vb key_len : ℕ) (key rest : Bytes) (res : McResponse)
    → IsU16 out_vb
    → IsU16 key_len
    → 2 ^ 16 ≤ key_len + 4
    → key_len + 9 ≤ length rest
    → res.body ≡ put_uint16 out_vb ++ (put_uint16 key_len ++ rest)
    → parse_observation vb key res ≡ none
unfolding parse_observation read_key
parse_observation_panics vb out_vb key_len key rest res v k long enough b =
    let body : Bytes = put_uint16 out_vb ++ (put_uint16 key_len ++ rest) in
    rw (
      b,
      le→not_ltb (length body) 5 (omega arith),
      slice-append [] (put_uint16 out_vb) (put_uint16 key_len ++ rest) 0 2 refl refl,
      uint16_put out_vb [] v,
      slice-append (put_uint16 out_vb) (put_uint16 key_len) rest 2 4 refl refl,
      uint16_put key_len [] k,
      le→not_ltb (length body) (2 + 2 + key_len + 1 + 8) (omega arith),
      slice_below body 4 ((4 + key_len) % 2 ^ 16) (omega arith),
    )
