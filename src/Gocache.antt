-- ===== src/Gocache.antt =====
-- gocache/: the sample server's storage (mc_storage.go), and its handler for connections
-- (gocache.go). Log output is left out.
pub mod Runs
pub mod Replies
pub mod Invariant
pub mod Session
pub mod Channel
use gomemcached.Prelude.{
  ℕ, ◌+◌, ◌%◌, ◌^◌, Option, none, some, Bytes, List, [], ◌∷◌, ◌==◌, if◌then◌else◌, ◌>>=◌,
  put_uint32, uint32,
}
use gomemcached.Io.{Writer}
use gomemcached.GoMap.{GoMap, lookup, insert, delete, bytes_eq}
use gomemcached.Wire.Buffer.{slice_from}
use gomemcached.Wire.Opcode
use gomemcached.Wire.Status
use gomemcached.Wire.Request.{McRequest}
use gomemcached.Wire.Response.{McResponse, empty_response}
use gomemcached.Server.{RequestHandler}

-- MCItem of mc_constants.go.
pub record McItem : Type 0 where
  pub cas : ℕ
  pub flags : ℕ
  pub expiration : ℕ
  pub value : Bytes

-- The struct `storage`: its field `data` is `table` here. A string key is its bytes.
pub record Storage : Type 0 where
  pub table : GoMap Bytes McItem
  pub cas : ℕ

abbrev pub empty_storage : Storage
empty_storage = record { table = []; cas = 0 }

-- `none` is a panic: the extras are too short.
unfoldable pub handle_set : McRequest → Storage → Option (Storage × McResponse)
handle_set req s = do
  flags ← uint32 req.extras
  expiration ← uint32 (← slice_from req.extras 4)
  let cas = (s.cas + 1) % 2 ^ 64
  let item : McItem = record { cas = cas; flags = flags; expiration = expiration; value = req.body }
  some (
    record { table = insert req.key item s.table; cas = cas },
    record empty_response { status = Status.success; cas = cas },
  )

abbrev pub found : Option McItem → McResponse
found none = record empty_response { status = Status.key_enoent }
found (some item) = record empty_response {
  status = Status.success;
  extras = put_uint32 item.flags;
  cas = item.cas;
  body = item.value;
}

unfoldable pub handle_get : McRequest → Storage → Option (Storage × McResponse)
handle_get req s = some (s, found (lookup req.key s.table))

-- The delay is read and, but for a log line, not used.
unfoldable pub handle_flush : McRequest → Storage → Option (Storage × McResponse)
handle_flush req s = do delay ← uint32 req.extras; some (record s { table = [] }, empty_response)

unfoldable pub handle_delete : McRequest → Storage → Option (Storage × McResponse)
handle_delete req s = some (record s { table = delete req.key s.table }, empty_response)

unfoldable pub not_found : McRequest → Storage → Option (Storage × McResponse)
not_found req s = some (s, record empty_response { status = Status.unknown_command })

-- The map `handlers` has these four codes.
unfoldable pub dispatch : McRequest → Storage → Option (Storage × McResponse)
unfolding not_found
dispatch req s =
    if req.opcode == Opcode.set
    then handle_set req s
    else if req.opcode == Opcode.get
    then handle_get req s
    else if req.opcode == Opcode.delete
    then handle_delete req s
    else if req.opcode == Opcode.flush
    then handle_flush req s
    else not_found req s

-- RunServer on the requests that arrive on its channel, in their order, with the responses that it
-- sends back.
unfoldable pub run_server : Storage → List McRequest → Option (Storage × List McResponse)
run_server s [] = some (s, [])
run_server s (req ∷ reqs) = do
  (s, res) ← dispatch req s
  (s, ress) ← run_server s reqs
  some (s, res ∷ ress)

-- reqHandler.HandleMessage for a single connection: the request goes to the storage goroutine and
-- its response comes back.
abbrev pub req_handler : RequestHandler Storage
req_handler = record {
  handle = λ s w req. do
    (s, res) ← dispatch req s
    some (record { state = s; writer = w; req = req; res = some res });
}
