-- ===== src/Webhook.antt =====
-- internal/webhook: the admission webhooks of a CloudberryCluster.
pub mod Defaults
pub mod Validation
pub mod Stability
