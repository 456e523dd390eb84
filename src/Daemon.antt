-- ===== src/Daemon.antt =====
-- crates/nexus-daemon: the transport, its adapter to the router, and the controller.
pub mod Transport
pub mod Adapter
pub mod Controller
pub mod Ipc
