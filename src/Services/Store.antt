-- ===== src/Services/Store.antt =====
-- packages/server/src/repos/jobs.js: the queries on training_jobs and job_events. A query is an action
-- on the tables; one that throws leaves none behind. The time of a transaction is an argument.
pub mod Rows
pub mod Order
pub mod Queue
pub mod Keeps
use ash_ml.Base.{
  ℕ, suc, ◌+◌, Bool, true, false, not, ◌&&◌, ◌||◌, Option, none, some, List, [], ◌∷◌, map, find,
  any, keep, ltb, ◌==◌, is_some, if◌then◌else◌, ◌or_else◌,
}
pub use ash_ml.Services.Tables.{
  Text, Priority, high, medium, low, Job, EventType, job_created, job_queued, job_scheduling,
  job_starting, job_started, job_completed, job_failed, job_retrying, job_cancelling, job_cancelled,
  job_state_changed, job_waiting, job_retry_declined, Event, Checkpoint, Considered, Pass, Db,
  Error, job_not_found, job_vanished, no_node, project_not_found, experiment_not_found,
  experiment_project_mismatch, unknown_k8s_phase, already_cancelled, job_already_finished,
  illegal_transition,
}
use ash_ml.Domain.JobState.{
  JobState, created, queued, scheduling, starting, running, succeeded, failed, cancelling,
  cancelled, same,
}
use ash_ml.Domain.Quota.{Request}
use ash_ml.Domain.Retry.{RetryDecision}

pub data Result {κ} (B : Type κ) : Type κ where
  err : Error → Result B
  ok : B → Result B

-- An action of a transaction.
abbrev pub M : Type 0 → Type 0
M B = Db → Result (B × Db)

-- `withTransaction`: what is thrown rolls the store back.
abbrev pub committed : {B : Type 0} → Db → Result (B × Db) → Db
committed before (err thrown) = before
committed before (ok (b, after)) = after

abbrev pub throw : {B : Type 0} → Error → M B
throw thrown db = err thrown

infixl 5 ◌>>=◌
abbrev pub ◌>>=◌ : {B C : Type 0} → M B → (B → M C) → M C
◌>>=◌ first next db = elim (first db) [ err thrown ↦ err thrown | ok (b, after) ↦ next b after ]

abbrev pub pure : {B : Type 0} → B → M B
pure b db = ok (b, db)

infixl 5 ◌>>◌
abbrev pub ◌>>◌ : {C : Type 0} → M (Unit {0}) → M C → M C
first >> next = first >>= λ _. next

-- `getJobById` and `getJobForUpdate`.
unfoldable pub get_job : ℕ → List Job → Option Job
get_job id = find (λ j. j.id == id)

-- `getJobForUpdate` with the check behind it, `if (!job) throw`.
unfoldable pub require_job : ℕ → M Job
require_job id db = elim (get_job id db.jobs) [ none ↦ err job_not_found | some j ↦ ok (j, db) ]

-- `UPDATE training_jobs SET … WHERE id = …`.
unfoldable pub update_jobs : ℕ → (Job → Job) → List Job → List Job
update_jobs id f = map (λ j. if j.id == id then f j else j)

unfoldable pub update_job : ℕ → (Job → Job) → M (Unit {0})
update_job id f db = ok (tt, record db { jobs = update_jobs id f db.jobs })

unfoldable pub insert_job_event : Event → M (Unit {0})
insert_job_event e db = ok (tt, record db { events = e ∷ db.events })

-- `insertJob`: `id` is the new row's, and what is not given has the column's default.
unfoldable pub new_job : ℕ → ℕ → Priority → Request → ℕ → Job
new_job id project priority resources max_retries = record {
  id = id;
  project = project;
  state = created;
  priority = priority;
  resources = resources;
  attempt = 0;
  max_retries = max_retries;
  failure_reason = [];
  pending_reason = [];
  retry_decision = none;
  retry_decided_at = none;
  resume_artifact = none;
  node = none;
  placement_reason = [];
  k8s_job_name = [];
  queued_at = none;
  started_at = none;
  finished_at = none;
}

unfoldable pub insert_job : Job → M (Unit {0})
insert_job j db = ok (tt, record db { jobs = j ∷ db.jobs })

-- The body of `updateJobState`.
unfoldable pub with_state : ℕ → JobState → Option Text → Job → Job
unfolding same
with_state now to reason j = record j {
  state = to;
  queued_at = if same to queued && not (is_some j.queued_at) then some now else j.queued_at;
  started_at = if same to running && not (is_some j.started_at) then some now else j.started_at;
  finished_at =
      if same to succeeded || (same to failed || same to cancelled)
      then some now
      else j.finished_at;
  failure_reason = reason or_else j.failure_reason;
}

unfoldable pub update_job_state : ℕ → ℕ → JobState → Option Text → M (Unit {0})
update_job_state now id to reason = update_job id (with_state now to reason)

unfoldable pub set_k8s_job_name : ℕ → Text → M (Unit {0})
set_k8s_job_name id name = update_job id (λ j. record j { k8s_job_name = name })

unfoldable pub set_pending_reason : ℕ → Text → M (Unit {0})
set_pending_reason id reason = update_job id (λ j. record j { pending_reason = reason })

unfoldable pub set_resume_artifact : ℕ → Option ℕ → M (Unit {0})
set_resume_artifact id artifact = update_job id (λ j. record j { resume_artifact = artifact })

unfoldable pub record_retry_decision : ℕ → ℕ → RetryDecision → M (Unit {0})
record_retry_decision now id decision = update_job id (λ j. record j {
  retry_decision = some decision;
  retry_decided_at = some now;
  resume_artifact = none;
})

-- `prepareRetry`.
unfoldable pub next_attempt : Job → Job
next_attempt j = record j {
  attempt = j.attempt + 1;
  retry_decision = none;
  retry_decided_at = none;
  k8s_job_name = [];
  node = none;
  placement_reason = [];
  failure_reason = [];
  pending_reason = [];
  finished_at = none;
}

abbrev pub attempt_of : Option Job → Option ℕ
attempt_of none = none
attempt_of (some j) = some j.attempt

-- It returns the new attempt number.
unfoldable pub prepare_retry : ℕ → M (Option ℕ)
prepare_retry id db =
    let after = update_jobs id next_attempt db.jobs in
    ok (attempt_of (get_job id after), record db { jobs = after })

-- `bindJobToNode` and `unbindJob` of packages/server/src/repos/nodes.js.
unfoldable pub bind_job_to_node : ℕ → ℕ → Text → M (Unit {0})
bind_job_to_node id node reason =
    update_job id (λ j. record j { node = some node; placement_reason = reason })

unfoldable pub unbind_job : ℕ → Text → M (Unit {0})
unbind_job id reason = update_job id (λ j. record j { node = none; placement_reason = reason })

-- `listJobsAwaitingRetryDecision`, unordered and without its limit.
unfoldable pub awaits_retry_decision : Job → Bool
unfolding same
awaits_retry_decision j = same j.state failed && not (is_some j.retry_decided_at)

unfoldable pub list_jobs_awaiting_retry_decision : List Job → List Job
unfolding awaits_retry_decision
list_jobs_awaiting_retry_decision = keep awaits_retry_decision

-- `listJobsToReconcile`, likewise.
unfoldable pub to_reconcile : JobState → Bool
unfolding same
to_reconcile s = same s scheduling || (same s starting || (same s running || same s cancelling))

unfoldable pub list_jobs_to_reconcile : List Job → List Job
unfolding to_reconcile
list_jobs_to_reconcile = keep (λ j. to_reconcile j.state)
