-- ===== src/Idle.antt =====
-- internal/idle/daemon.go: the idle session daemon.
pub mod Rules
pub mod Scan
pub mod Lifecycle
pub mod Reconnect
