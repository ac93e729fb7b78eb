-- ===== src/Ha.antt =====
-- internal/controller/ha_controller.go: the HA controller.
pub mod Types
pub mod Probe
pub mod Actions
pub mod Quiet
pub mod Promotions
