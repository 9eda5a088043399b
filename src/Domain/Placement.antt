-- ===== src/Domain/Placement.antt =====
-- packages/server/src/domain/placement.js: on which node a job runs, and why. Capacities are whole
-- numbers, as the database's columns are; a difference may be negative. A reason is the data that
-- its text shows. `Capacity` and `Evaluate` are one node's part, `Place` the choice; the
-- others say what is chosen.
pub mod Capacity
pub mod Evaluate
pub mod Place
pub mod Fit
pub mod Ranking
pub mod Best
pub mod Audit
