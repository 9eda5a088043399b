-- ===== src/Tests.antt =====
-- The theorems at inputs that meet their hypotheses.
mod Rules
mod Traffic
mod Deploying
mod Images
mod Nodes
mod Services
mod Scheduling
mod Rulings
mod Rows
mod Rotation
