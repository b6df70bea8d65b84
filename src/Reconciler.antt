-- ===== src/Reconciler.antt =====
-- internal/app/reconciler: the control loop, its guarded mutations and its damping of scale-downs.
pub mod Stabilizer
pub mod World
pub mod Cooldown
pub mod Guard
pub mod Observation
pub mod Loop
