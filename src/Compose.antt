-- ===== src/Compose.antt =====
-- internal/core/compose, and the compose documents that the GitOps components pass on: what the YAML
-- library decodes into Go's `any`.
pub mod Fields
pub mod Labels
pub mod Rotation
