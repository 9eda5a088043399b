-- ===== src/Services/Observation.antt =====
-- What a backend of packages/server/src/k8s reports of a job, as services/jobs.js reads it.
use ash_ml.Base.{Option}
use ash_ml.Services.Store.{Text}

-- `other` is a phase that is none of the four.
pub data Phase : Type 0 where
  pending running succeeded failed other : Phase

pub record Observation : Type 0 where
  pub phase : Phase
  pub reason : Option Text
