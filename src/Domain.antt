-- ===== src/Domain.antt =====
-- The pure rules of the control plane (packages/server/src/domain).
pub mod ArtifactStatus
pub mod JobState
pub mod ModelStatus
pub mod Placement
pub mod Quota
pub mod Retry
pub mod Roles
pub mod Routing
