-- ===== src/Gitops.antt =====
-- internal/app/gitopsync/loop.go
pub mod Desired
pub mod Pass
pub mod Keeps
pub mod Sync
pub mod Calm
pub mod Deploys
pub mod DryRun
pub mod Report
pub mod PostCheck
