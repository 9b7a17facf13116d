-- ===== src/Lib.antt =====
-- gomemcached: memcached's binary protocol, a server's side of a connection, a sample server, a
-- client that sends requests, and the client's side of a TAP and an UPR feed.
--
-- The parts, with the files of the repository that they model:
--   * Wire: the root package. Wire/Request is mc_req.go and Wire/Response is mc_res.go: the encoders
--     (`fill_header_bytes` is fillHeaderBytes, `bytes` is Bytes), `transmit` (Transmit) and `receive`
--     (Receive), which is cut into one function per stretch of code between two early returns.
--     Wire/Opcode and Wire/Status are mc_constants.go. Wire/Buffer has Go's writes and slices by
--     position, and Wire/Layout the layout of a header without buffers, against which the encoders
--     and the receivers are stated.
--   * Server: server/mc_conn_handler.go, HandleIO, HandleMessage and ReadPacket over a handler that is
--     a parameter (the record RequestHandler, which is the Go interface).
--   * Gocache: gocache/mc_storage.go, the storage goroutine's handlers, and the handler of
--     gocache/gocache.go that passes a connection's requests to it. Gocache/Channel has any number
--     of connections: a step is one meeting on a channel, of a connection that passes its request on,
--     or of RunServer that answers the one that it has in hand.
--   * Client: client/transport.go (getResponse, transmitRequest) and client/mc.go. Client has `send`,
--     `get`, `add` and CASNext (`cas_next`, cut at its comments), and its children the rest:
--     Client/Commands the operations of one request, and Transmit and Receive; Client/Observe Observe;
--     Client/Cas the loop of CAS; Client/Stats the loop of Stats; Client/Bulk GetBulk, whose goroutine
--     is run behind the requests, since the two work on the two directions of the connection.
--     Client/Exchange puts a client and the sample server at the two ends of one connection. A
--     connection is the bytes that the server will send and a writer. The hooks are unset, the ints
--     for flags and expirations are not negative, and the functions that a caller passes to CAS are
--     functions of the value.
--   * Tap: tap.go, the flags of a TAP connect and the fields behind them (`split_flags` is SplitFlags,
--     `parse_tap_commands` is ParseTapCommands). TapFeed: client/tap_feed.go, makeTapEvent and
--     runFeed, cut like that of Upr/Feed, and in TapFeed/Arguments the request for a feed.
--   * Upr: client/upr_feed.go, the events that are made from packets (makeUprEvent), failover logs and
--     opaque words. Upr/Feed is runFeed: `handle_packet` is the switch over the opcode, the `after_`
--     functions are the code between two exits of the loop, and what goes out on the channels is kept
--     in lists. A slice of a received packet's extras may reach into its key and body, which stand
--     behind it in one array (`backing`).
--     Upr/Feed/Channels has its goroutines, runFeed and sendCommands, and the application: a step is a
--     meeting on one of the feed's channels, or what a goroutine does between two, of which Hijack is
--     the first. The application takes events and closes the feed; it calls no other method while the
--     feed runs.
--     Upr/Requests has what a client asks for: doUprOpen, UprOpen, UprRequestStream and CloseStream,
--     and in Upr/Requests/LogRequests UprGetFailoverLog and Latest.
--   * Debug: debug/mcdebug.go, the counters that the hooks keep, and the maps of their report.
--     Debug/Hooks has transmitRequest and getResponse with their counts and these hooks.
--   * Text: the verbs of package fmt that the program uses, maps of names, and strings.Join. The texts
--     themselves are in Wire/Texts (commands, statuses, requests and responses), Tap/Texts, TapFeed/Texts
--     and Upr/Texts; the verb %q, which one of them has, is a parameter.
--   * Io: io.ReadFull and Write over one stream of bytes. A reader is the bytes that are still to come
--     and the error after them; a writer takes bytes up to a bound and then fails with an error of
--     its own. GoMap: Go's maps; where the program ranges over one, any order of its entries is a
--     part of the state (`MapRange` in Upr/Feed). Prelude: numbers, lists and encoding/binary.
--   * Tests: runs at concrete inputs.
--
-- A panic is `none` of an Option, or the outcome `panicked`; Go's error values are data (WireError,
-- GoError). Bytes are natural numbers; the encoders keep Go's truncations (% 2 ^ w) and the request's
-- uint32 difference of lengths wraps. An int is 64 bits wide.
--
-- The loops over a connection, HandleIO, the two runFeeds, CAS, Stats and GetBulk's, run on fuel, one
-- more than the bytes of the input: every turn that goes on has taken a byte at least, so that this is
-- enough. SplitFlags has 33 rounds of fuel, one for each bit of the word and one to end. A number is
-- formatted with 20 decimal or 17 hexadecimal digits of fuel, and 64 bits never need more.
--
-- Not modelled: the texts of error values that are made on the spot, log output, the report of
-- debug/mcdebug.go in JSON, the sockets and goroutines of the sample server's main
-- (gocache/gocache.go), dialling and closing connections, UnwrapMemcachedError, the float32 product of
-- UprOpen (a parameter), and the example programs.
pub mod Prelude
pub mod Io
pub mod GoMap
pub mod Text
pub mod Wire
pub mod Server
pub mod Gocache
pub mod Upr
pub mod Tap
pub mod TapFeed
pub mod Client
pub mod Debug
mod Tests
