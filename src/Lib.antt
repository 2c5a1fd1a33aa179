-- ===== src/Lib.antt =====
-- The VulcanLocalDB controller, the process that shares SQLite and LanceDB databases between the programs of
-- one machine: its registry, its spooled query streams, its data plane, its service, and the client's session.
--
-- The program. Host programs talk to a controller over gRPC (controller/src/server.rs, and for the other
-- side client/src/client.rs, ffi/ and client-go/). The controller keeps one registry behind a mutex
-- (controller/src/core/runtime.rs). A client registers and holds a lease; a registered client attaches
-- spaces; an attached client enables backends in a space, each under a binding that it owns; a binding uses
-- a resource, a database that bindings with the same key share; a query on a SQLite backend may open a
-- stream, which is registered too: a thread writes the answer to a spool file in chunks, which readers take
-- by index. When a lease ends, everything that its client holds is released. A
-- managed controller that nobody uses stops itself. A client remembers what it was granted, and when a
-- controller has lost its session it registers again and replays all of it.
--
-- The files.
--   Base      tests on numbers, orders of keys, 64-bit arithmetic, and the functions on text that the
--             source calls (trim, to_string, replace), with the lemmas that the other files share.
--   BTreeMap, BTreeSet
--             the standard library's ordered maps and sets, as sorted association lists with their laws.
--   Types     client/src/types.rs: configuration, registrations, requests and snapshots.
--   Runtime   controller/src/core/runtime.rs, one file for each group of methods, with the names of the
--             source: State, Key and Keys (the state and how keys are made), Validate, Access (who may use
--             what), Bindings (track, untrack and remove), Clients (removal, pruning), Sessions (requests
--             and leases), Spaces (attach, detach), Enable, Streams, Listing, Shutdown, Snapshots. Backends
--             is the part of core/sqlite.rs and core/lancedb.rs that opens a backend.
--   Registry  the proofs. Views asks the state one question for each index, Invariant says when the indexes
--             agree, and the other files follow the operations up to Steps, which puts all methods into one
--             step relation and the reachable states over it.
--   Base64    the coder of ffi/src/lib.rs and the decoders of ffi/src/lib.rs and client/src/client.rs.
--   Spool     controller/src/core/sqlite.rs, the streams: the writer, the shared state, the readers, and what
--             the readers are given.
--   Wire      the numbers of the enumerations (client/src/types.rs) and the messages of the control plane
--             (proto/v1/controller.proto).
--   DataPlane the data-plane methods of core/runtime.rs, and the methods of the backends that they call
--             (core/sqlite.rs, core/lancedb.rs), with the names of LanceDB's enumerations.
--   Cli       controller/src/cli.rs: the parser of the command line, and which command lines it accepts.
--   Server    controller/src/server.rs: the statuses, the conversions of messages, the handlers of the control
--             plane and of the data plane, and the maintenance loop. Runtime.Message has the texts that
--             the statuses carry.
--   Client    client/src/client.rs: the session state and its recovery, the operations of the control plane
--             against any controller, and the two sides together (Agree).
--   Tests     concrete runs, and the theorems at concrete inputs.
--
-- How the model corresponds to the code. A method that locks the state once is a function from the state
-- before to the result and the state after; where the source locks twice (opening and closing a stream),
-- there are two steps, and anything may happen between them. A lock whose holder failed is taken over with
-- its state, as the source does. An error is a value with the texts that its message shows; a failed
-- `expect` is the result `panic`. A field or method that the source has once for SQLite and once for
-- LanceDB is one function of BackendKind, and carries both names. The clock, the fresh session identifier
-- (Uuid::new_v4), what vldb-sqlite, vldb-lancedb and serde_json return, how a socket address is read, and
-- what writes to a spool file and reads from it return are arguments; so is, for the client, the
-- controller that answers its calls. A request to the service is the registry when its guard is made, the
-- method, and the registry when the guard is dropped; on the data plane no other request comes between
-- these three. Words have 64 bits. The addition that gives the end of a lease wraps around, as the release
-- profile compiles it; a debug build fails there.
--
-- Bounds. The functions with fuel are `decimal`, which divides by ten at most n + 1 times for n, more
-- than it has digits, and `emit_full_within`, which takes a chunk of at least one byte from the pending
-- bytes at most as often as there are bytes and fails if it has not ended then. All else is structural recursion.
--
-- What is not modelled: the start of the process; the stream handlers of the service; of the client the
-- data plane, the endpoint and the start of a controller; of the foreign function interface all but
-- base64, the C bindings of the client; the client in Go, largely generated; the name of a spool file and
-- its removal, which are input and output. Log messages are left out.
pub mod Base
pub mod BTreeMap
pub mod BTreeSet
pub mod Types
pub mod Runtime
pub mod Registry
pub mod Base64
pub mod Spool
pub mod Wire
pub mod DataPlane
pub mod Cli
pub mod Server
pub mod Client
pub mod Tests
