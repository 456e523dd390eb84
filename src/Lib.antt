-- ===== src/Lib.antt =====
-- NexusKVM: one keyboard and mouse for several machines. A verification library for the part of the
-- program that decides which machine receives input, for the devices and the connection that carry the
-- input, for the channels by which the daemon and the agents of the machines are asked, and for the
-- supervisor that keeps them alive.
--
-- The parts, and how they interact. The server (rkvm-master/rkvm-server/src/server.rs) owns a
-- `TargetRouter` (rkvm-master/rkvm-server/src/target.rs): it grabs the input devices, asks the router
-- for the destination of each event, and writes the event back to this machine or into the queue of a
-- peer. The daemon (crates/nexus-daemon) has a `Controller` over the trait `InputTransport`; the
-- adapter `RkvmAdapter` implements the trait by commands, which the server's loop applies to the
-- router one after the other, and by the snapshot that the loop publishes. Screen layouts, entry
-- points and the authentication of messages are shared by all programs (crates/nexus-common). A task
-- of the server writes the queue of a peer to the peer's stream, whose frames (rkvm-master/rkvm-net)
-- the client (rkvm-master/rkvm-client) turns into events of its own devices; the client's confirmation
-- of a handoff goes back to the server's loop. Programs of the session ask the daemon by lines on its
-- control socket. The agents of two machines (crates/nexus-agent) send each other sealed lines and
-- the contents of the clipboard.
--
-- The files, and the code that they model:
--   Base             shared helpers: Boolean tests, lists, texts, association lists, i32 and f32
--   Common           crates/nexus-common/src: Model (model.rs, state.rs), Geometry (geometry.rs),
--                    Layouts (layout.rs), Auth and Auth/Replay (auth.rs); Validation, Auth/Sealing and
--                    Auth/Replay/Window are about them
--   Router           rkvm-master/rkvm-server/src/target.rs: Router (the state and the basic methods
--                    of `TargetRouter`), Router/Switch (the methods that choose the target),
--                    Router/Keys (held keys), Router/Commands (`PendingCommand::apply`, `drive_with`);
--                    Router/Invariant, Cycle, Travel, Failsafe, Edges, HeldKeys, Transitions,
--                    Published and Events are about them
--   Server           rkvm-master/rkvm-server/src/server.rs: Server (the variables of `run`, channels),
--                    Server/Routing (`route_events`, `emit_releases`, `emit_warp`,
--                    `emit_local_warp`), Server/Handlers (the arms of the `select!` and the functions
--                    that they call), Server/Steps (the loop); Server/Kept, Rest, Delivery, Sound,
--                    Handoff and Chord are about them
--   Daemon           crates/nexus-daemon/src: Transport (`InputTransport`), Adapter/Handle
--                    (`RkvmAdapter` and the `TargetHandle` that it calls), Adapter (the same while the
--                    loop answers in time), Controller and Controller/Methods (controller.rs),
--                    Daemon/Ipc (crates/nexus-common/src/ipc.rs and ipc_server.rs: `handle`);
--                    Adapter/Calls, Controller/Truth, Calls, Peers, Crossings and Requests,
--                    Ipc/Sessions and Ipc/Replies are about them
--   Net              rkvm-master/rkvm-net/src: Net (message.rs), Net/Handshake (auth.rs, version.rs, and
--                    the greetings of server.rs and client.rs); Net/Frames, Calls, Deliver and
--                    Handshake/Agree are about them
--   Server           also Server/Connection (the loop of `client` in server.rs); Connection/Written
--                    and Connection/Silent are about it
--   Client           rkvm-master/rkvm-client/src/client.rs, the loop of `run`; Client/Devices and
--                    Client/Confirms are about it
--   Agent            crates/nexus-agent/src: Engine (engine.rs, daemon_client.rs), and of
--                    peer_channel.rs Stream (`write_aead_bytes`, `read_aead_bytes`), Paths
--                    (`safe_file_name`, `safe_rel_path`, `confined`), Trees (`push_tree`), Receive
--                    (messages), Receive/Clip (`recv_clip`), Receive/Conn (a round of `handle_conn`),
--                    Inbox (`prune_inbox`) and Send (`send_clip`), and Clipboard (clipboard.rs: URIs,
--                    polls and retries); Clipboard/Uris and Retries, Stream/Ends, Contents and Rounds,
--                    Paths/Names, Paths/Safe, Trees/Limits, Receive/Clips and Lines, Inbox/Full and
--                    Send/Received are about them
--   Input            rkvm-master/rkvm-input/src: Keyboard and Keyboard/Arms (key/keyboard.rs), Button
--                    (key/button.rs), Axes (abs.rs, rel.rs, sync.rs), Codes (`Convert`, key.rs and
--                    event.rs), Interceptor (`read` of interceptor.rs, `write` of writer.rs), Caps
--                    (interceptor/caps.rs, `WriterBuilder`) and Registry (registry.rs, `open`, and
--                    `try_open` and `scan_dir` of monitor.rs); Faithful, Interceptor/Written, Packets,
--                    Steps, Kept, Runs, Local and Overflow, and Registry/Scans are about them
--   Desktop          src-tauri/src/runtime.rs: Supervisor (`should_attempt`, `supervise_once` and what
--                    they need) and Logs (`strip_ansi`, `spawn_log_pump`); Supervisor/Starts and Stops,
--                    Logs/Stripped and Bounds are about them
--   Scenarios        concrete runs
--
-- How code becomes a definition. A method that changes its object returns the new object beside its
-- result. A `oneshot` reply is a value. `HashMap`s are association lists whose order means nothing,
-- `BTreeMap`s are association lists that are kept sorted. A key is the code of its variant, an edge is
-- a number. `next_transition` wraps at 2^64, and i32 negation at the least value. An `f32` is its bits,
-- with the comparisons of IEEE 754; the travel of the remote pointer is a whole number, so it is kept
-- as one and rounded to 24 bits after every sum, the spacing of the rounding found by at most 104
-- doublings, which reach every finite value. `scaled` is the product of a length and a float, an
-- argument of the definitions that use it. The cipher, the key derivation, hex and the comparison in
-- constant time are a record `Crypto` of operations with the laws that their documentation gives. The
-- nonce, the transition id and the clock are arguments. A channel is what its sender can observe: if it
-- is closed, its free places, and if it makes room within the 20 ms of a bounded retry. No time passes
-- within a call of the controller. `RkvmAdapter` can meet a loop that has ended, and a snapshot that is
-- not published yet; what is stated of the controller over the router is stated over `prompt_adapter`,
-- which is that adapter while the loop answers and publishes in time. The loop of the server is any
-- sequence of its arms, each with what its branch received, and between its rounds the other ends of
-- the channels may drain them, stall, or close.
--
-- The serializer of the frames, the JSON code, UTF-8 and SHA-256 are records of operations (`Codec`,
-- `Json`, `PeerCode`). What a read, a write, the file system, a `uinput` writer or a time-out returns is
-- an argument of the round that meets it. The chunks that the reads of a stream return are a list. A
-- loop over the bytes of a stream runs on fuel: each of its rounds takes at least one byte, so one
-- round more than there are bytes is enough. The texts of errors are values.
--
-- The constants of the kernel's headers are an argument, by their names, as is whether they have
-- `ABS_PROFILE`. A call of `read` on a device meets a list of what `read_raw` returns, each event with
-- how a write of it would end; the call is dropped where the list ends or a write is not ready. What the
-- system answers to the supervisor in a round is an argument, with the moment at which the user stops
-- the program; locks are not poisoned. `strip_ansi` takes a byte or more in a round, so that the length
-- of the text is fuel enough.
--
-- Not modelled: libevdev, uinput, inotify and scheduling classes, the loop around the scans of devices,
-- the names of switch keys, TLS and the making of connections, configuration files, the contents of the
-- desktop's clipboard, files of layouts and the backends of the agent,
-- `normalize_axis` on f64, and of the desktop application (src-tauri, src) the windows, the setting up
-- and starting of a role, and persistence: these are calls of the system and of user interfaces. An
-- error that ends the server, and texts that are logged, are left out. After a clip that failed, where
-- the reader stands in the stream is left open.
pub mod Base
pub mod Common
pub mod Input
pub mod Router
pub mod Server
pub mod Daemon
pub mod Net
pub mod Client
pub mod Agent
pub mod Desktop
pub mod Scenarios
