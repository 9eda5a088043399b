-- ===== src/Services.antt =====
-- The services that change what the database holds (packages/server/src/services), with the queries
-- that they make (packages/server/src/repos).
pub mod Models
pub mod Deployments
pub mod Tables
pub mod Store
pub mod Observation
pub mod Decisions
pub mod Cluster
pub mod Scheduler
pub mod Jobs
pub mod Retries
