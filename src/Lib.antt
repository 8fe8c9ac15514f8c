-- ===== src/Lib.antt =====
-- opx: a daemon that reads secrets for its clients, from 1Password, Vault or OpenBao, and keeps them
-- for a while.
--
-- A read reaches the server, which checks the token and, where it knows the peer, the policy; it
-- looks into the cache, and asks the backend for what the cache does not have. The session manager
-- stands between the server and the backend: it locks the session when it is idle, and its lock
-- callback clears the cache. The audit log records the decisions, and the management commands turn
-- the denials of the log into rules of the policy. The client, which starts the daemon where it is
-- not running, finds the socket and the token in the directories of the user; the command line makes
-- its requests.
--
-- The files and the code that they model:
--
-- - SafeString, SafeString/Pool: internal/safestring/safestring.go. An object has its array, the
--   length of its slice (none is a nil slice), and the arrays that an append has left behind.
-- - Cache: internal/cache/cache.go. The store of the texts stands beside the map, which points into
--   it. Cache/Ownership has the invariant, Cache/Refinement the map that the cache stands for.
-- - Policy: internal/policy/policy.go, with filepath.Clean and Join in Paths.
-- - Generics: internal/util/generics.go.
-- - Security: internal/security/peer.go.
-- - Audit/Events and Audit/Logger: internal/audit/audit.go. Audit/Roller: internal/audit/roller.go,
--   over the files of its directory; Audit/Roller/Timer has its timer. Audit/Denials, Audit/Scan
--   and Audit/Rules: internal/audit/management.go.
-- - Files: the directories of internal/util/fs.go. Files/Token: its EnsureToken, as a process that
--   makes one call of the operating system at a time, so that many of them can run at once.
--   Files/Certs: the certificate of internal/util/tls.go.
-- - Client: internal/client/client.go; Client/Wire joins it to the server, over the routes of Serve,
--   and Client/Started to the machine that a started server leaves.
-- - Cli: cmd/opx/main.go, its arguments; Cli/Commands: its commands and main; Cli/Selection: the
--   audit command; Cli/Machine: main with the certificate that the client finds.
-- - Session: internal/session/state.go; Session/Config: config.go, and the flags of
--   cmd/opx-authd/main.go that set it; Session/Config/Storage: its file; Session/Manager: manager.go;
--   Session/Manager/Monitor: Start, Stop and the loop of the monitor over their channels.
-- - Backend: internal/backend/backend.go; Backend/OpCli: opcli.go and fake.go; Backend/Multi:
--   multi.go; Backend/Vault: vault.go; Daemon: session_aware.go over the state that the parts of the
--   daemon share; Daemon/Start: the choice of the backend in cmd/opx-authd/main.go.
-- - Authd: the main of cmd/opx-authd/main.go.
-- - Protocol: internal/protocol/protocol.go.
-- - Server: the reads of internal/server/server.go; Server/Handlers: its handlers; Server/Locked: the
--   reads, the unlocks, the monitor of the session and the clean-up of the cache, one after the other;
--   Server/Overlap: the reads of one server that overlap, a call at a time; Server/Start: Serve up to
--   the acceptance of connections, and its end.
-- - Strings and Dict: Go's strings package and maps, as far as the code uses them.
--
-- The names are those of the source in snake_case. What the source asks the clock for is an
-- argument, in nanoseconds; a method that takes a lock is one step. The counters of the cache and of
-- the denials wrap around at 64 bits, and the durations saturate or wrap as those of Go do; times
-- are integers without bounds. Most loops are recursions on the list that they range over. Three
-- recursions are on fuel: the printing of a number in decimal, with the number itself, which is more
-- than its digits; the wait for the daemon, with one round for each pause that its patience has room
-- for, which the results say is enough; and EnsureToken run by itself, with as many steps as its longest
-- way has calls, which is enough by a lemma (Files/Token/Alone).
--
-- The examples apply the results to concrete inputs.
--
-- Not modelled: HTTP, TLS, JSON, the signing of certificates and the package flag (parameters, where a
-- result depends on them); the tickers, as times at which something happens; the signals. A read runs
-- by itself, and the monitor, the clean-up and other reads do not run in its midst, except in
-- Server/Overlap and where a result says so. Timeouts, cancellation and the texts for people are left
-- out.
mod Prelude
pub mod Strings
pub mod Dict
pub mod SafeString
pub mod Cache
pub mod Paths
pub mod Policy
pub mod Generics
pub mod Security
pub mod Files
pub mod Client
pub mod Cli
pub mod Audit
pub mod Session
pub mod Backend
pub mod Protocol
pub mod Daemon
pub mod Server
pub mod Authd
mod Examples
