-- ===== src/Services/Scheduler.antt =====
-- packages/server/src/services/scheduler.js: may a claimed job run, and where? The advisory lock puts
-- the passes one after another. The nodes and the quotas are tables that a pass only reads. The
-- texts of the reasons are parameters, rendered from what the model keeps of them, and so is
-- `localeCompare`.
pub mod Capacity
pub mod Pass
pub mod Calls
pub mod Gate
pub mod Settled
use Prim.Native.String.{String}
use ash_ml.Base.{ℕ, Option, none, some, List, [], ◌∷◌, map, pos, ◌-ℤ◌, ℤ}
use ash_ml.Domain.JobState.{queued}
use ash_ml.Domain.Quota.{Request, Quota, Usage, Check, check_quota}
use ash_ml.Domain.Retry.{codes}
use ash_ml.Domain.Placement.Capacity.{Node}
use ash_ml.Domain.Placement.Place.{
  Outcome, selected, viable, refused, no_capacity, Row, Reason, Decision, place_job,
}
use ash_ml.Services.Store.{
  Text, Job, Considered, Db, Result, ok, err, job_vanished, no_node, M, pure, throw, ◌>>=◌, ◌>>◌,
  get_job, bind_job_to_node, unbind_job,
}
use ash_ml.Services.Decisions.{record_decisions}
use ash_ml.Services.Cluster.{NodeRow, cluster_view, project_usage, project_quota}
use ash_ml.Services.Jobs.{apply_transition}

-- What `scheduleJob` returns.
pub data Placement : Type 0 where
  bound : Node → Text → Placement
  requeued : Text → Placement

unfoldable pub outcome_text : Outcome → Text
outcome_text selected = codes "SELECTED"
outcome_text viable = codes "VIABLE"
outcome_text refused = codes "REJECTED"
outcome_text no_capacity = codes "NO_CAPACITY"

-- The job's own request is off what its project uses.
unfoldable pub usage_excluding_this : Request → Usage → Usage
usage_excluding_this request usage = record {
  gpu = usage.gpu -ℤ pos request.gpu;
  cpu = usage.cpu -ℤ pos request.cpu;
  memory_bytes = usage.memory_bytes -ℤ pos request.memory_bytes;
  jobs = usage.jobs -ℤ pos 1;
}

unfoldable pub requeue : ℕ → ℕ → Text → M Placement
requeue now id reason = do
  unbind_job id reason
  apply_transition now id queued none
  pure (requeued reason)

-- `if (!job) throw`.
unfoldable pub find_job : ℕ → M Job
find_job id db = elim (get_job id db.jobs) [ none ↦ err job_vanished | some j ↦ ok (j, db) ]

unfoldable pub quota_row : Text → Considered
quota_row reason = record {
  node_id = none;
  node_name = [];
  outcome = codes "QUOTA_EXCEEDED";
  reason = reason;
}

-- The texts of a refusal, a decision and a row.
pub record Wording : Type 0 where
  pub refusal : Check → Text
  pub decision : Reason → Text
  pub row : Row → Text

module _ (locale_compare : String → String → ℤ) (wording : Wording) where
  unfoldable pub considered : Row → Considered
  unfolding outcome_text
  considered r = record {
    node_id = some r.node.id;
    node_name = codes r.node.name;
    outcome = outcome_text r.outcome;
    reason = wording.row r;
  }

  -- A decision that selects names its node.
  unfoldable pub settle : ℕ → ℕ → Text → Outcome → Option Node → M Placement
  settle now id reason selected (some n) = do bind_job_to_node id n.id reason; pure (bound n reason)
  settle now id reason selected none = throw no_node
  settle now id reason viable _ = requeue now id reason
  settle now id reason refused _ = requeue now id reason
  settle now id reason no_capacity _ = requeue now id reason

  unfoldable pub refuse : ℕ → Job → Check → M Placement
  refuse now job c = do
    record_decisions now job.id job.attempt (quota_row (wording.refusal c) ∷ [])
    requeue now job.id (wording.refusal c)

  unfoldable pub apply_decision : ℕ → Job → Decision → M Placement
  apply_decision now job decision = do
    record_decisions now job.id job.attempt (map considered decision.decisions)
    settle now job.id (wording.decision decision.reason) decision.outcome decision.node

  unfoldable pub place : ℕ → List NodeRow → Job → M Placement
  place now nodes job db =
      apply_decision now job (place_job locale_compare job.resources (cluster_view nodes db.jobs))
        db

  -- What the first gate says.
  unfoldable pub pass_gates : ℕ → List NodeRow → Job → Option Check → M Placement
  pass_gates now nodes job none = place now nodes job
  pass_gates now nodes job (some c) = refuse now job c

  unfoldable pub affordable : (ℕ → Option Quota) → Job → List Job → Option Check
  affordable quotas job jobs =
      check_quota job.resources (project_quota (quotas job.project))
        (usage_excluding_this job.resources (project_usage job.project jobs))

  unfoldable pub schedule_locked : ℕ → List NodeRow → (ℕ → Option Quota) → Job → M Placement
  schedule_locked now nodes quotas job db =
      pass_gates now nodes job (affordable quotas job db.jobs) db

  unfoldable pub schedule_job : ℕ → List NodeRow → (ℕ → Option Quota) → ℕ → M Placement
  schedule_job now nodes quotas id = do job ← find_job id; schedule_locked now nodes quotas job
