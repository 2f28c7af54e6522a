-- ===== src/Lib.antt =====
-- bitDrive: a verification library for the desktop side: the protocol (desktop/protocol), the core of
-- the application (desktop/core), the stream (desktop/bluetooth) and the daemon (desktop/daemon).
--
-- Two devices exchange frames over a Bluetooth stream. `FrameCodec` (desktop/protocol/src/frame.rs)
-- writes a frame as a 30-byte header with a CRC, the payload and a 16-byte tag, reads it back, tests
-- its sequence number, and cuts long payloads into fragments. `ProtocolCodec`
-- (desktop/protocol/src/codec.rs) keeps the receive buffer, runs the frame codec over it until no whole
-- frame is left and hands out the reassembled frames. `ChannelManager` (desktop/protocol/src/mux.rs)
-- shares the stream among at most 15 numbered channels with a send window each.
-- `CapabilityNegotiator` (desktop/protocol/src/capability.rs) settles which services both sides have
-- and in which version, and `ServiceRegistry` (desktop/protocol/src/registry.rs) keeps the services
-- that one side offers and whether they are alive. `AuthManager` (desktop/protocol/src/auth.rs) proves
-- a pre-shared key and derives the keys of a session, and `Session` (desktop/protocol/src/session.rs)
-- puts these parts together and watches over them with keepalives. Requests of the peer go to services
-- through a `ServiceManager`, of which the protocol crate (desktop/protocol/src/service.rs) and the
-- application (desktop/core/src/service.rs) have one each. The application keeps its configuration
-- (desktop/core/src/config.rs), its database (desktop/core/src/database.rs) and a bus of events
-- (desktop/core/src/events.rs) together in `Core` (desktop/core/src/lib.rs), which the daemon
-- (desktop/daemon/src/main.rs) makes, starts and stops. `RfcommStream`
-- (desktop/bluetooth/src/stream.rs) carries the bytes.
--
-- Prelude: lists on native numbers, machine words, equality as an interface, maps as lists of pairs.
-- Errors: `ProtocolError` and `Result` of desktop/protocol/src/error.rs. `panic` is an outcome of its
--   own (an `unwrap` of `None`, a division by zero).
-- Pb: the generated messages of desktop/protocol/src/pb/bpl.protocol.rs that the code uses.
-- Frame: desktop/protocol/src/frame.rs, `encode` and `decode` under their own names; the children hold
--   the layout of the bytes, the round trip, what `decode` delivers and refuses, replays, fragments
--   and control frames.
-- Codec: desktop/protocol/src/codec.rs; `decode_data` is `ProtocolCodec::decode`.
-- Mux: desktop/protocol/src/mux.rs; Mux.Manager holds the table of channels. A channel behind
--   `Arc<RwLock<..>>` is a place in a heap, and a handle is its index.
-- Capability, Registry: the two files of the same names.
-- Auth: desktop/protocol/src/auth.rs; Auth.Keys holds the key derivation and the encryption with
--   channel keys, over a record `Crypto` of the calls of hkdf, hmac, aes-gcm and bincode.
-- Session: desktop/protocol/src/session.rs, with the keepalive tasks as a list of counters;
--   Session.Sessions holds `SessionManager`, its sessions in a heap.
-- Loop: loops with `?` over a list, which the managers and the migrations share.
-- Service: `trait Service`, a record of methods over the state of a service. Dispatch: the manager of
--   desktop/protocol/src/service.rs, which works on the services in place.
-- Core.Context, Core.Services: desktop/core/src/service.rs; its manager takes a service out of the map
--   while a method runs. Core.Events, Core.EventBus: desktop/core/src/events.rs. Core.Settings,
--   Core.Config: desktop/core/src/config.rs; the settings of the services are reached through Slots,
--   the trusted devices through Trusted.
-- Core.Database: desktop/core/src/database.rs, the tables as lists of the records: Table holds the SQL
--   statements on a table, State and Sync the rest of the operations, Schema and Migrations the
--   versions of the schema, ForeignKeys what SQLite does for the clauses of that schema.
-- Core.App: `Core` of desktop/core/src/lib.rs. Daemon: desktop/daemon/src/main.rs.
-- Bluetooth.Stream: desktop/bluetooth/src/stream.rs.
-- Tests: the theorems at concrete inputs.
--
-- A method that mutates its receiver returns the new state first and its result last. Bytes and
-- machine integers are numbers, with the wrap-around of the release profile written out. The receive
-- loop runs on fuel, one more than the bytes in the buffer: a frame that is delivered takes 46 bytes
-- off it at least. The chunks of a payload run on fuel too, one for each byte of the payload, and the
-- digits of a number on one more than the number.
--
-- `crc32` (the crate crc32fast) and `encode_message` (prost) are parameters; of the first the
-- theorems assume that its results fit 32 bits, as they assume of AES-GCM that it decrypts what it
-- encrypted. Events that go to a channel of tokio are a list in the state. Clocks are arguments.
-- A call is one step, also where the source takes several locks one after the other; for
-- `open_channel` Mux.Manager.Sections has the single sections and how two calls may alternate. Where
-- the source locks what it holds already, in `init_all` and `start_all` of
-- desktop/core/src/service.rs, the call ends in `deadlock`. Log lines are left out.
--
-- A service is a parameter, since no service of the repository implements the trait. What the file
-- system, SQLite and the platform answer are arguments; of base64 one theorem assumes that it decodes
-- what it encoded. The loops over services, rows and migrations are structural.
--
-- Not modelled: the rest of desktop/bluetooth, which is calls of the platform, `unimplemented!` or
-- not part of the crate; desktop/cli, which parses arguments and prints; the main loop of the
-- daemon; the Android application, which is Kotlin.
pub mod Prelude
pub mod Errors
pub mod Pb
pub mod Frame
pub mod Codec
pub mod Mux
pub mod Capability
pub mod Registry
pub mod Auth
pub mod Session
pub mod Loop
pub mod Service
pub mod Dispatch
pub mod Bluetooth
pub mod Core
pub mod Daemon
pub mod Tests
