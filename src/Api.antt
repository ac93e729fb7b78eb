-- ===== src/Api.antt =====
-- api/v1alpha1: the custom resource, as the admission webhooks see it.
pub mod Backup
pub mod DataLoading
pub mod Cluster
