-- ===== src/Config.antt =====
-- internal/config: what the daemon reads from labels.
pub mod Labels
pub mod Gitops
pub mod Runtime
