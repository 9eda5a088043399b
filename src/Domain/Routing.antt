-- ===== src/Domain/Routing.antt =====
-- packages/server/src/domain/routing.js: what a traffic weight means.
pub mod Hash
pub mod Weights
pub mod Rollout
pub mod Choice
