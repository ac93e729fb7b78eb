-- ===== src/Controller.antt =====
-- internal/controller/cluster_controller.go: the long operations of the cluster reconciler.
pub mod Types
pub mod Sts
pub mod ScaleIn
pub mod ScaleOut
pub mod Upgrade
