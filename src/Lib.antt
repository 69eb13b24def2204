-- ===== src/Lib.antt =====
-- detritus: a receiver of crash reports and logs, and the client that ships them.
--
-- A request reaches the server through the bearer-token middleware. A crash upload then passes the
-- gate (its form, the protocol version, the source, the token's permission, the rate limit, the schema
-- of the project), its parts become blobs named after their digests, and an index of the upload points
-- to them. A log export is validated as a whole, then queued line by line for the writer of its source,
-- which appends to the file of the day. The janitor removes what is past its time. These parts share
-- the disk, the rate limiter and the metrics.
--
-- The client keeps crashes in a spool of directories. A run over the spool reads each pending entry,
-- compresses its parts, writes them as a multipart body, posts the body and, once the server has
-- answered with a success, moves the entry to those that are sent. A worker gathers log records in
-- batches, exports each as one request and keeps a request that fails in a queue of files.
--
-- Which file models what:
--   Storage      crates/detritus-server/src/storage.rs: `SourceKey` and the paths of `StoragePaths`
--   RateLimit    crates/detritus-server/src/rate_limit.rs: `RateLimiter::check` and its callers
--   Auth         crates/detritus-server/src/auth.rs: `TokenStore`, `TokenContext`, `auth_middleware`;
--                Auth/Loading has `TokenStore::load` and `load_security_config`
--   Metrics      crates/detritus-server/src/metrics.rs: the counters of `Metrics`
--   Schemas      crates/detritus-server/src/schemas.rs: `SchemaRegistry::validate`; Schemas/Loading has
--                `SchemaRegistry::load_with_options`
--   Crashes      crates/detritus-server/src/crashes.rs: types and errors; Crashes/Blobs has
--                `write_part_to_blob`, `finalize_blob` and `write_index`, Crashes/Handler has
--                `crashes_inner` and `crashes_handler`
--   Janitor      crates/detritus-server/src/janitor.rs: one cycle, `run_janitor_cycle`
--   Logs         crates/detritus-server/src/logs.rs: the messages of OTLP and their JSON; Logs/Requests
--                has what a request must carry, Logs/Writers the queues and `writer_loop`, Logs/Export
--                `export_inner` and `export`
--   Protocol     crates/detritus-protocol/src/crash.rs, source.rs and schema.rs: the types of the wire
--   Multer       what both ends see of the multipart parser
--   Multipart    crates/detritus-protocol/src/multipart.rs: `CrashEnvelope::write_to`, `read_from` and
--                their variants; Multipart/Format has the form of a body, Multipart/Reader a reader
--                that follows RFC 7578, as a description of bodies; Crashes/Handler/Opening joins
--                the two ends
--   Client       crates/detritus-client/src: Client/Compression has compression.rs, Client/Spool the
--                operations of the file system on the spool, Client/Upload and Client/Shipper have
--                shipper.rs, Client/PanicHook panic_hook.rs, Client/Layer and Client/Layer/Worker layer.rs
--                with the log batches of spool.rs
--   Disk         the file system that the server uses, with its failures and with other tasks;
--                Disk/Quiet and Disk/Spared have the rules for a disk that is left alone, as a whole or
--                in some of its files
--   FilePath     the paths of the language, as lists of components
--   Common       shared types, lists, texts as bytes, results, tables and the rule of `Ends`
--   Examples     concrete data at which each theorem applies
--
-- A `Result` has a third case `panic` for code that would unwind. Stateful code is an `Action`, from a
-- state to a result and a state. Between any two operations of the disk another task may create or
-- remove a file and an operation may fail: the disk carries a list of such events, and the theorems
-- hold for every list that keeps the rules which they name. Loops run over the list that the code
-- consumes, so they need no fuel. Counters keep the wrap-around of their 64 bits, as in a release
-- build. Times are whole seconds, and the clock stands still during one cycle of the janitor.
--
-- The spool of the client is a state of its own: a table of entries for each of its two folders, and
-- an event for each operation, which works or fails; one that fails while it changes an entry may
-- leave the files of that entry in any state. A listing of a folder leaves out each item that the disk
-- does not give, as the code does. Once the events are used up every operation works. The lock of the
-- spool keeps other runs away. The answers of the network and the outcomes of the exports are lists,
-- taken in turn. Trimming a text takes its length for fuel, which is enough since each step shortens
-- the text.
--
-- Parameters are the crates that the code calls: Argon2, SHA-256, UUIDs, serde, TOML, the multipart
-- parser, JSON schemas, zstd, addresses, the HTTP and gRPC clients, and the 64-bit floats, of which
-- IEEE 754 facts are named hypotheses. Of the multipart parser the round trip takes that it reads the
-- bodies of RFC 7578.
--
-- Not modelled: the wiring of routes, sockets and the command line (server.rs, main.rs), the generated
-- OTLP types, the builder and the channel of the layer, the installation of the panic hook and the
-- archive that it makes of a panic, and the wrappers that make an HTTP client for the shipper.
pub mod Common
pub mod FilePath
pub mod Storage
pub mod Protocol
pub mod Disk
pub mod Multer
pub mod Multipart
pub mod Schemas
pub mod Metrics
pub mod RateLimit
pub mod Auth
pub mod Crashes
pub mod Janitor
pub mod Logs
pub mod Client
pub mod Examples
