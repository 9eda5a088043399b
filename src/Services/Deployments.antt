-- ===== src/Services/Deployments.antt =====
-- packages/server/src/services/deployments.js with its queries of repos/deployments.js, for the
-- deployment of one name in a project: its row, and the cluster objects that it owns.
pub mod Rows
pub mod Status
pub mod Front
pub mod Cluster
pub mod Backed
pub mod Held
pub mod Apply
pub mod Traffic
pub mod Sync
pub mod History
