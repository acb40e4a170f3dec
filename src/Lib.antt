-- ===== src/Lib.antt =====
-- Infrarust, a reverse proxy for Minecraft servers: a model of its core and what is proved of it.
--
-- A client's byte stream is cut into packets (crates/infrarust_protocol), the address of its
-- handshake chooses a server (crates/infrarust-core/src/routing), the player is checked against the
-- bans (crates/infrarust-core/src/ban), and the backend server is started if it sleeps
-- (crates/infrarust_server_manager) before the session is forwarded. The parts meet only through
-- these results, so each has its own module here.
--
-- Protocol: crates/infrarust_protocol/src.
--   Words             machine words as bit patterns
--   Error             error.rs
--   VarInt            codec/varint.rs: `written_size`, `encode`, `decode`, `decode_partial`
--   VarLong           codec/varlong.rs: the same for 64 bits
--   Frames            io/encoder.rs, io/decoder.rs, io/frame.rs and the traits of
--                     io/compression.rs: `append_raw`, `append_frame`, `queue_bytes`,
--                     `try_next_frame`; the branches of a long function are functions of their own;
--                     Compression has the two implementations of the zlib traits
--   Codec             codec/mod.rs and codec/types.rs: the reading and writing methods on slices
--                     and buffers; a `String` is its bytes, which Codec/Utf8 checks as the
--                     standard library does
--   Version           version.rs
--   Packets, Play     packets/: the fields, `decode` and `encode` of the packets before the game
--                     and of the game, in the format of each version
--   Registry          registry/mod.rs and registry/builder.rs: the maps, their builder, and the
--                     table of `build_default_registry` (Default)
--   Dispatch          a packet of any type with the decoder and the encoder of its type; Wire is
--                     the way through frames and registry
-- ServerManager: crates/infrarust_server_manager/src.
--   State             state.rs, provider.rs, error.rs
--   Service           service.rs: an `async` method is cut at its await into two functions
--   Monitor           monitor.rs: a polling round and the idle check
--   Events            any interleaving of those pieces, as a list of steps
--   Startup           `new` and `initial_health_check`
--   Idle, Herd, Stop  automatic shutdown, many connections at once, and stopping
-- Ban: crates/infrarust-core/src/ban and the ban types of
-- crates/infrarust-api/src/services/ban_service.rs.
--   Types, Storage    the entries, and `FileBanStorage` with its file
--   View, Checks      the ban in force on a target, and what each operation does to it
--   Keys, Purge       `purge_expired` on indexes that hold a key once
--   Audit             the audit log and its limit
--   Requests          sequences of requests, and how an invariant of the indexes is kept by them
--   Invariants        each key is there once, each entry lies under the key of its target
-- EventBus: crates/infrarust-core/src/event_bus, `EventBusImpl` with its handlers as functions.
--   Order, Vectors    the order of a vector of handlers, and the vectors of a map
--   Sound, Calls      what a sequence of calls keeps, and what follows
-- Routing: crates/infrarust-core/src/routing/domain_router.rs, with `normalize_handshake` of
-- util/mod.rs, `ProviderId` of provider/provider_id.rs, and the fields of
-- crates/infrarust_config/src/server.rs that it reads.
--   Types, Router     the tables, and `DomainRouter` with its operations
--   Resolve           what `resolve` answers after a change
--   Owners, Registered, Routes  the tables agree with the configurations, and what follows
-- Common: shared names, Boolean tests, lists, bitwise laws, and maps as association lists.
--
-- Integers are bit patterns with their wrap-around written out. The loops of the VarInt and
-- VarLong decoders are bounded by five and ten as in the source, the loop of the VarLong encoder
-- has fuel for the ten groups that 64 bits have at most, and the rest is recursion on lists. The
-- functions of the crates `flate2` and `libdeflater` are parameters, with the law that
-- decompression inverts compression, `to_lowercase` of the standard library and the matcher of
-- `WildMatch` are parameters without any. The text form of a UUID is a parameter too, with the
-- law that what the `uuid` crate prints it parses. A provider's answer, the outcome of a file
-- write and the reading of the clock are arguments. A concurrent map is an association list that
-- is written in place; an operation of the ban storage, of the router or of the event bus is one
-- step, so races between two of its calls are not modelled. Logging is left out, and so are NBT,
-- the socket loops, the plugins and the reading of the configuration.
pub mod Common
pub mod Protocol
pub mod ServerManager
pub mod Ban
pub mod EventBus
pub mod Routing
