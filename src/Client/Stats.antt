-- ===== src/Client/Stats.antt =====
-- client/mc.go: Stats and StatsMap.
pub mod Answers
use gomemcached.Prelude.{
  ℕ, zero, suc, Option, none, some, Bytes, List, [], ◌∷◌, ◌++◌, length, ◌==◌, if◌then◌else◌,
}
use gomemcached.GoMap.{GoMap, insert, bytes_eq}
use gomemcached.Wire.Opcode
use gomemcached.Wire.Request.{McRequest, empty_request}
use gomemcached.Wire.Response.{McResponse, GoError}
use gomemcached.Client.{Client, Reply, get_response, transmit_request}
use gomemcached.Client.Progress.{Run, finished, panicked, out_of_fuel, waiting}

pub record StatValue : Type 0 where
  pub key : Bytes
  pub val : Bytes

pub record StatsResult : Type 0 where
  pub stats : List StatValue
  pub err : Option GoError
  pub client : Client

-- One turn on what getResponse gave. Without an error the response is not nil.
unfoldable pub stats_got :
    (Client → List StatValue → Run StatsResult)
    → List StatValue
    → Client
    → Option GoError
    → Option McResponse
    → Run StatsResult
stats_got again rv c (some err) res = finished (record { stats = rv; err = some err; client = c })
stats_got again rv c none none = panicked
stats_got again rv c none (some res) =
    let rest = again c (rv ++ (record { key = res.key; val = res.body } ∷ [])) in
    if length res.key == 0 then finished (record { stats = rv; err = none; client = c }) else rest

unfoldable pub stats_turn :
    (Client → List StatValue → Run StatsResult) → List StatValue → Option Reply → Run StatsResult
stats_turn again rv none = panicked
stats_turn again rv (some got) = stats_got again rv got.client got.err got.res

-- The loop of Stats.
unfoldable pub stats_loop : ℕ → Client → List StatValue → Run StatsResult
stats_loop zero c rv = out_of_fuel
stats_loop (suc fuel) c rv = stats_turn (stats_loop fuel) rv (get_response c)

abbrev pub stats_request : Bytes → McRequest
stats_request key = record empty_request { opcode = Opcode.stat; key = key; opaque = 918494 }

-- Stats behind transmitRequest. A turn that goes on takes a byte at least, so that this fuel is
-- enough.
unfoldable pub stats_rest : Client → Option GoError → Run StatsResult
stats_rest c (some err) = finished (record { stats = []; err = some err; client = c })
stats_rest c none = stats_loop (suc (waiting c)) c []

unfoldable pub stats_sent : Option Reply → Run StatsResult
stats_sent none = panicked
stats_sent (some sent) = stats_rest sent.client sent.err

-- Stats
unfoldable pub stats : Client → Bytes → Run StatsResult
stats c key = stats_sent (transmit_request c (stats_request key))

-- The loop of StatsMap over the stats.
abbrev pub map_stats : List StatValue → GoMap Bytes Bytes → GoMap Bytes Bytes
map_stats [] rv = rv
map_stats (sv ∷ svs) rv = map_stats svs (insert sv.key sv.val rv)

pub record StatsMapResult : Type 0 where
  pub stats : GoMap Bytes Bytes
  pub err : Option GoError
  pub client : Client

unfoldable pub to_map : StatsResult → Option GoError → StatsMapResult
to_map got (some err) = record { stats = []; err = some err; client = got.client }
to_map got none = record { stats = map_stats got.stats []; err = none; client = got.client }

unfoldable pub stats_map_rest : Run StatsResult → Run StatsMapResult
stats_map_rest (finished got) = finished (to_map got got.err)
stats_map_rest panicked = panicked
stats_map_rest out_of_fuel = out_of_fuel

-- StatsMap
unfoldable pub stats_map : Client → Bytes → Run StatsMapResult
stats_map c key = stats_map_rest (stats c key)
