-- ===== src/Lib.antt =====
-- A model of the core of nps, an intranet-penetration proxy: the multiplexer that carries the
-- connections of a client over one stream, the quotas that admit connections, the accounting of
-- traffic, the access lists of visitors and destinations with their geographic data, the rate limits,
-- the registry of visitor addresses, the protection of the login and the remembered devices of the
-- dashboard, the routes of HTTP hosts, the candidates for P2P, and the framing of datagrams.
--
-- * Mux (lib/nps_mux) is the multiplexer. Mux/Packet is netpackager.go: the frames, with Set, Pack and
--   UnPack as set_packet, encode and decode. Mux/Deque and Mux/Chain are bufDequeue and bufChain of
--   queue.go, the ring with its packed indices and the chain of rings. Mux/Priority is priorityQueue,
--   three chains that hold the frames to send, by urgency; Mux/Accept is connQueue, the connections
--   that wait for Accept. Mux/Window is the flow control of conn.go: the packed word, sendWindow
--   (Window/Send), receiveWindow and receiveWindowQueue (Window/Receive), and both ends together
--   with the frames and acknowledgements between them (Window/Link). Mux/Session is Mux of mux.go
--   with its connections (conn of conn.go, connMap of map.go): Session/Opening is NewConn and getId,
--   Session/Accepting is Accept and the goroutine that serves it, Session/Arrivals is the reader and
--   the pings, Session/Calls is Read and Write of a connection and the writer of the mux, and
--   Session/Steps puts them together as a step relation.
-- * Quota is the admission of connections in lib/file: the counts of a user (user_runtime.go), of all
--   connections (global_connections.go) and of a client (GetConn and AddConn of obj.go).
--   Quota/Steps is all clients with the settings, as a step relation.
-- * Flow is the type Flow of lib/file/obj.go: the traffic of a client and its limit.
-- * Acl is lib/acl: of acl.go the rules of a visitor list and their compilation (Rules, Wildcard,
--   Source), the levels of server, client and entry (Level) and the lists of destinations (Dest); of
--   geodata.go the wire format (Proto), the decoders of the two kinds of files (Geo), and the data in
--   use with its reloads (GeoData). Text and Net are what these use of strings, net and net/netip.
-- * Rate is lib/rate: rate.go, and the two buckets of directional.go.
-- * Sessions is web/controllers/web_session_registry.go.
-- * Login is the protection of the login in web/controllers/login.go: Login/Attempts is
--   loginAttemptLimiter, Login/Work is powChallengeStore with verifyLoginPoW.
-- * Candidates is bridge/p2p_addr.go: the order of the addresses for P2P, with IsPublicIP of
--   lib/common/util.go, and where they come from (Candidates/Sources).
-- * Hosts is lib/file/db.go as far as entries for HTTP are concerned: Hosts/Rules is the matching and
--   the overlap of names, locations and schemes, Hosts/Routes is IsHostRouteConflict and GetInfoByHost.
-- * IpRegistry is lib/ipreg/ipreg.go, and Framed is FramedConn of lib/conn/framed.go: its Write and
--   Read are divided where they can overlap, since they share a buffer and not a mutex.
--
-- A struct is a record, and an operation is a function from a state to its answer and the next state.
-- Numbers are natural numbers, and the width of a word is written out where the code depends on it.
-- Operations that hold a lock, or that retry a compare-and-swap, are taken one at a time in the order
-- in which they take effect; what a concurrent setting can store in the middle of a reservation is an
-- argument (Quota.Race), and a Read and a Write of a FramedConn overlap by steps. Where a call would
-- wait, the model says so in its answer.
--
-- write_full runs on fuel; a fuel above the number of bytes is enough, since every turn that goes on
-- sends one byte at least; lengths of buffers wrap at 2 ^ 32 there, as in the code. getId runs on one
-- turn more than the map has entries. The indices of a ring are 32 bits wide, and a ring has at most
-- 2 ^ 30 slots, as the code has it. protoFields and the loop of Rate.Get run on fuel too, one round for each
-- byte of the message and of the size; each round takes one byte at least.
--
-- Not modelled: the network errors of Mux other than a failed write, deadlines, the measurement
-- of latency and bandwidth (an estimate is an argument of calc_size), the buffer pools, the token
-- bucket of golang.org/x/time/rate (whether WaitN succeeds is an argument of get), the normal form of
-- addresses in IpRegistry and the texts of IPv6 addresses in Acl (arguments), regular expressions and
-- SHA-256 (arguments), net.ParseIP in the rules of hosts (an argument), the order that CompileSource gives to its prefixes, which no lookup depends on,
-- reading and writing of files (what is found and whether a write succeeds are arguments), the text
-- form of the geographic files, the order of the rows that lists return, and the parts of nps that the
-- modules above do not name.
pub mod Prelude
pub mod Mux
pub mod Quota
pub mod IpRegistry
pub mod Framed
pub mod Hosts
pub mod Acl
pub mod Net
pub mod Text
pub mod Sessions
pub mod Rate
pub mod Login
pub mod Flow
pub mod Candidates
pub mod Tests
