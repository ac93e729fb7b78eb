-- ===== src/Util.antt =====
-- internal/util: the leaf helpers that the controllers and the API share.
pub mod Conditions
pub mod Retry
