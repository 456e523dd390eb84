-- ===== src/Common.antt =====
-- crates/nexus-common: the data that the daemon, the agent and the UI share.
pub mod Model
pub mod Geometry
pub mod Layouts
pub mod Validation
pub mod Auth
