-- ===== src/Examples.antt =====
-- One concrete input for each theorem that has conditions.
mod Data
mod Core
mod Adapters
mod Control
mod Status
mod Deployment
mod Syncing
mod Surface
