-- ===== src/Desktop.antt =====
-- src-tauri/src: the desktop program, which starts the services of the machine and keeps them alive.
pub mod Logs
pub mod Supervisor
