-- ===== src/Tests/CommandTests.antt =====
-- The client's operations at concrete inputs.
use gomemcached.Prelude.{
  ℕ, ◌*◌, ◌^◌, ◌<◌, ◌≡◌, ◌≢◌, refl, none, some, Option, Bytes, List, [], ◌∷◌, ◌++◌, length, arith,
  put_uint16, replicate, inr,
}
use gomemcached.Io.{eof, Writer}
use gomemcached.GoMap.{GoMap, lookup, bytes_eq}
use gomemcached.Wire.Opcode
use gomemcached.Wire.Status
use gomemcached.Wire.Request.Encoding as RequestEncoding
use gomemcached.Wire.Response.{McResponse, empty_response}
use gomemcached.Wire.Response.Encoding.{wire}
use gomemcached.Server.Refinement.{stream}
use gomemcached.Client.{Client, get_request, is_conflict}
use gomemcached.Client.Progress.{finished, out_of_fuel}
use gomemcached.Client.Talk.{IsAnswer, client_at, behind, facing, wires}
use gomemcached.Client.Commands.{auth, list_mechs, no_plain}
use gomemcached.Client.Commands.Answers.{auth-answered}
use gomemcached.Client.Observe.{observe, observe_request, millisecond}
use gomemcached.Client.Observe.Answers.{observation, observe-answered}
use gomemcached.Client.Stats.{stats, stats_request}
use gomemcached.Client.Stats.Answers.{IsStat, stat_of, stats-answered}
use gomemcached.Client.Cas.{cas, cas_delete, CasFunc}
use gomemcached.Client.Cas.Loop.{cas_ends, cas_delete_is_store, without_delete}
use gomemcached.Client.Cas.Rounds.{storing, Round, IsRound, answers, updates, done, cas-rounds}
use gomemcached.Client.Bulk.{get_bulk}
use gomemcached.Client.Bulk.Answers.{IsHit, bulk_requests, answer_for, get_bulk-answered}

abbrev open_writer : Writer
open_writer = record { sent = []; room = none; failure = eof }

-- A client in front of some bytes, behind which the connection ends.
abbrev ahead : Bytes → Client
ahead input = client_at input eof open_writer []

-- A success with a CAS and a body.
abbrev success : ℕ → Bytes → McResponse
success cas body = record empty_response { cas = cas; body = body }

success-IsAnswer :
    (cas : ℕ) (body : Bytes) → cas < 2 ^ 64 → length body < 100 → IsAnswer (success cas body)
success-IsAnswer cas body c b = record { fits = omega arith; fatal = refl }

abbrev counter : McResponse
counter = success 3 (0 ∷ 0 ∷ 0 ∷ 0 ∷ 0 ∷ 0 ∷ 1 ∷ 2 ∷ [])

-- A list of mechanisms without PLAIN.
abbrev mechs : McResponse
mechs = success 0 (67 ∷ 82 ∷ [])

auth-answered_example :
    auth (ahead (wire mechs ++ (wire counter ++ []))) (117 ∷ []) (112 ∷ [])
    ≡ some (record {
      res = some mechs;
      err = some no_plain;
      client = behind (wire counter ++ []) eof open_writer [] list_mechs mechs;
    })
auth-answered_example =
    auth-answered (ahead (wire mechs ++ (wire counter ++ []))) (117 ∷ []) (112 ∷ []) mechs counter
      [] eof open_writer (success-IsAnswer 0 mechs.body (omega arith) (omega arith)) refl
      (success-IsAnswer 3 counter.body (omega arith) (omega arith)) refl (omega arith) refl

abbrev seen : McResponse
seen = success 0x700000002 (observation 5 (97 ∷ []) 1 9)

observe-answered_example :
    observe (ahead (wire seen ++ [])) 5 (97 ∷ [])
    ≡ some (
      record {
        result = record {
          status = 1;
          cas = 9;
          persistence_time = 7 * millisecond;
          replication_time = 2 * millisecond;
        };
        err = none;
      },
      behind [] eof open_writer []
          (observe_request 5 (put_uint16 5 ++ (put_uint16 1 ++ (97 ∷ []))))
          seen,
    )
observe-answered_example =
    observe-answered (ahead (wire seen ++ [])) 5 (97 ∷ []) 1 9 seen [] eof open_writer (omega arith)
      (omega arith) (omega arith) refl refl
      (success-IsAnswer 0x700000002 seen.body (omega arith) (omega arith)) refl (omega arith) refl

abbrev oversized : McResponse
oversized = success 0 (put_uint16 5 ++ (put_uint16 65532 ++ replicate 65541 0))

abbrev uptime : McResponse
uptime = record (success 0 (49 ∷ [])) { key = 117 ∷ 112 ∷ [] }

abbrev last_stat : McResponse
last_stat = success 0 []

stats-answered_example :
    stats
      (facing
        (ahead [])
        (wires (uptime ∷ uptime ∷ []) ++ (wire last_stat ++ (7 ∷ [])))
        eof
        open_writer)
      []
    ≡ finished (record {
      stats = stat_of uptime ∷ stat_of uptime ∷ [];
      err = none;
      client =
          facing
            (ahead [])
            (7 ∷ [])
            eof
            (record open_writer { sent = RequestEncoding.wire (stats_request []) });
    })
stats-answered_example =
    stats-answered (ahead []) [] (uptime ∷ uptime ∷ []) last_stat (7 ∷ []) eof open_writer
      (uptime-IsStat, (uptime-IsStat, tt)) (success-IsAnswer 0 [] (omega arith) (omega arith)) refl
      refl refl (omega arith)
  where
    uptime-IsStat : IsStat uptime
    uptime-IsStat = record {
      answer = record { fits = omega arith; fatal = refl };
      status = refl;
      key = refl;
    }

abbrev append_one : Option Bytes → Bytes
append_one none = 1 ∷ []
append_one (some bs) = bs ++ (1 ∷ [])

cas_ends_example : cas (ahead (1 ∷ [])) 7 (97 ∷ []) (storing append_one) 0 ≢ out_of_fuel
cas_ends_example = cas_ends (ahead (1 ∷ [])) 7 (97 ∷ []) (storing append_one) 0

-- A function that asks for a deletion with a value.
abbrev deleting : CasFunc
deleting current = (some (append_one current), cas_delete)

cas_delete_is_store_example :
    cas (ahead (wire counter ++ wire mechs)) 7 (97 ∷ []) deleting 0
    ≡ cas (ahead (wire counter ++ wire mechs)) 7 (97 ∷ []) (without_delete deleting) 0
cas_delete_is_store_example =
    cas_delete_is_store (ahead (wire counter ++ wire mechs)) 7 (97 ∷ []) deleting 0

abbrev round : Round
round = record {
  conflict = record empty_response { status = Status.key_eexists };
  current = success 8 (98 ∷ []);
}

round-IsRound : IsRound round
unfolding is_conflict
round-IsRound = record {
  answer = record { fits = omega arith; fatal = refl };
  conflict = refl;
  current = record {
    answer = success-IsAnswer 8 (98 ∷ []) (omega arith) (omega arith);
    status = refl;
  };
}

abbrev cas_input : Bytes
cas_input = wire (success 5 (97 ∷ [])) ++ (answers (round ∷ []) (success 9 []) ++ [])

cas-rounds_example :
    cas (ahead cas_input) 7 (97 ∷ []) (storing append_one) 0
    ≡ finished (
        done [] eof
          (record open_writer {
            sent = stream (
                get_request 7 (97 ∷ [])
                ∷ updates 7 (97 ∷ []) append_one (success 5 (97 ∷ [])) (round ∷ []));
          })
          []
          (success 9 []))
unfolding is_conflict
cas-rounds_example =
    cas-rounds (ahead cas_input) 7 (97 ∷ []) append_one 0 (success 5 (97 ∷ [])) (round ∷ [])
      (success 9 []) [] eof open_writer
      (record { answer = success-IsAnswer 5 (97 ∷ []) (omega arith) (omega arith); status = refl })
      (round-IsRound, tt) (success-IsAnswer 9 [] (omega arith) (omega arith)) refl refl
      (omega arith) refl

abbrev hit : McResponse
hit = record (success 5 (98 ∷ [])) { opcode = Opcode.getq; opaque = 1 }

abbrev no_hit : McResponse
no_hit = record empty_response { status = Status.key_enoent; opcode = Opcode.get; opaque = 2 }

abbrev three_keys : List Bytes
three_keys = (97 ∷ []) ∷ (98 ∷ []) ∷ (99 ∷ []) ∷ []

get_bulk-answered_example :
    (rv : GoMap Bytes McResponse) × (get_bulk []
        (facing (ahead []) (wires (hit ∷ []) ++ (wire no_hit ++ [])) eof open_writer)
        7
        three_keys
      ≡ finished (record {
        rv = rv;
        err = none;
        client =
            facing
              (ahead [])
              []
              eof
              (record open_writer { sent = stream (bulk_requests 7 three_keys 0) });
      }))
    × ((k : Bytes) → lookup k rv ≡ answer_for three_keys k (hit ∷ no_hit ∷ []) none)
get_bulk-answered_example =
    get_bulk-answered [] (ahead []) 7 three_keys (hit ∷ []) no_hit [] eof open_writer (omega arith)
      (hit-IsHit, tt) (inr (record { fits = omega arith; fatal = refl }, refl)) refl (omega arith)
  where
    hit-IsHit : IsHit three_keys Opcode.getq hit
    hit-IsHit = record {
      answer = record { fits = omega arith; fatal = refl };
      status = refl;
      opcode = refl;
      opaque = omega arith;
    }
