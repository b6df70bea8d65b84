-- ===== src/Stackdeploy.antt =====
-- internal/adapter/stackdeploy
pub mod CarryForward
pub mod Retry
pub mod Deploy
