-- ===== src/Services/Jobs.antt =====
-- packages/server/src/services/jobs.js, but for `considerRetry`: the changes of a job's state. Each
-- call is one transaction; `now` is its time. Messages, details and log lines are left out.
pub mod Log
pub mod Claim
pub mod Ruling
pub mod Cancellation
pub mod Seen
pub mod Calls
pub mod Budget
pub mod Submission
pub mod History
use Prim.Native.String.{String}
use text.Mathlib.Text.{◌==◌ as str_eq}
use ash_ml.Base.{
  ℕ, Bool, true, false, ◌||◌, Option, none, some, List, [], ◌∷◌, any, ◌==◌, is_some, if◌then◌else◌,
  ◌or_else◌, ◌&&◌, not,
}
use ash_ml.Domain.JobState.{
  JobState, created, queued, scheduling, starting, running, succeeded, failed, retrying, cancelling,
  cancelled, name, same, Transitioned, moved, refused, transition,
}
use ash_ml.Domain.Quota.{Request}
use ash_ml.Domain.Retry.{RetryDecision, codes, Failure, Verdict, retry, decide_retry}
use ash_ml.Services.Store.{
  Text, Priority, Job, EventType, job_created, job_queued, job_scheduling, job_starting,
  job_started, job_completed, job_failed, job_retrying, job_cancelling, job_cancelled,
  job_state_changed, job_waiting, job_retry_declined, Event, Checkpoint, Db, Error, job_not_found,
  project_not_found, experiment_not_found, experiment_project_mismatch, unknown_k8s_phase,
  already_cancelled, job_already_finished, illegal_transition, ok, M, pure, throw, ◌>>=◌, ◌>>◌,
  get_job, require_job, insert_job_event, new_job, insert_job, update_job_state, set_k8s_job_name,
  set_pending_reason, set_resume_artifact, record_retry_decision, prepare_retry,
}
use ash_ml.Services.Observation.{Phase, Observation}
use ash_ml.Services.Store.Order.{lock_next_queued_job, latest_resumable_checkpoint}

-- `EVENT_FOR_STATE[toState] ?? 'JOB_STATE_CHANGED'`.
unfoldable pub event_for_state : JobState → EventType
event_for_state queued = job_queued
event_for_state scheduling = job_scheduling
event_for_state starting = job_starting
event_for_state running = job_started
event_for_state succeeded = job_completed
event_for_state failed = job_failed
event_for_state retrying = job_retrying
event_for_state cancelling = job_cancelling
event_for_state cancelled = job_cancelled
event_for_state created = job_state_changed

-- `transition(job.state, toState)`: it returns or throws.
unfoldable pub check_transition : JobState → JobState → M (Unit {0})
check_transition from to db = elim (transition (name from) (name to)) [
  | moved t ↦ ok (tt, db)
  | refused e ↦ throw (illegal_transition from to) db
]

-- The event that a transition writes.
unfoldable pub move_event : ℕ → JobState → JobState → Event
move_event id from to = record {
  job = id;
  event_type = event_for_state to;
  from_state = some from;
  to_state = some to;
}

unfoldable pub apply_transition : ℕ → ℕ → JobState → Option Text → M (Unit {0})
apply_transition now id to failure_reason = do
  job ← require_job id
  check_transition job.state to
  update_job_state now id to failure_reason
  insert_job_event (move_event id job.state to)

-- `getJobById`.
unfoldable pub reread : ℕ → M (Option Job)
reread id db = ok (get_job id db.jobs, db)

-- The project's row, if it is found.
unfoldable pub require_project : Option ℕ → M ℕ
require_project none = throw project_not_found
require_project (some p) = pure p

-- The experiment of a submission: not named, not found, or that of a project.
unfoldable pub check_experiment : String → Option (Option String) → M (Unit {0})
check_experiment project none = pure tt
check_experiment project (some none) = throw experiment_not_found
check_experiment project (some (some owner)) =
    if str_eq owner project then pure tt else throw experiment_project_mismatch

-- `submitJob`; `id` is what the insertion returns.
unfoldable pub submit_job :
    ℕ → ℕ → String → Option ℕ → Option (Option String) → Priority → Request → ℕ → M (Option Job)
submit_job now id project_name project experiment priority resources max_retries = do
  p ← require_project project
  check_experiment project_name experiment
  insert_job (new_job id p priority resources max_retries)
  insert_job_event
      (record { job = id; event_type = job_created; from_state = none; to_state = some created })
  apply_transition now id queued none
  reread id

abbrev pub cancel_needs_executor : List JobState
cancel_needs_executor = scheduling ∷ starting ∷ running ∷ []

-- The refusals of `cancelJob`.
unfoldable pub check_cancel : JobState → M (Unit {0})
check_cancel s =
    if same s cancelled || same s cancelling
    then throw (already_cancelled s)
    else if same s succeeded
    then throw job_already_finished
    else pure tt

unfoldable pub cancel_moves : ℕ → ℕ → JobState → M (Unit {0})
cancel_moves now id s =
    let at_once = apply_transition now id cancelled none in
    let begin = apply_transition now id cancelling none in
    if same s created
    then at_once
    else if any (same s) cancel_needs_executor
    then begin
    else (begin >> at_once)

unfoldable pub cancel_job : ℕ → ℕ → M (Option Job)
cancel_job now id = do
  job ← require_job id
  check_cancel job.state
  cancel_moves now id job.state
  reread id

unfoldable pub claim_locked : ℕ → Option Job → M (Option Job)
claim_locked now none = pure none
claim_locked now (some job) = do apply_transition now job.id scheduling none; reread job.id

unfoldable pub claim_next_job : ℕ → List ℕ → List ℕ → M (Option Job)
claim_next_job now exclude locked db =
    claim_locked now (lock_next_queued_job exclude locked db.jobs) db

unfoldable pub mark_launched : ℕ → ℕ → Text → M (Option Job)
mark_launched now id k8s_job_name = do
  set_k8s_job_name id k8s_job_name
  apply_transition now id starting none
  reread id

-- `isJobFinished`.
unfoldable pub is_job_finished : JobState → Bool
is_job_finished s = same s succeeded || (same s failed || same s cancelled)

-- `a || b` on texts.
abbrev pub text_or : Option Text → Text → Text
text_or none d = d
text_or (some []) d = d
text_or (some (c ∷ t)) d = c ∷ t

abbrev pub same_text : Text → Text → Bool
same_text [] [] = true
same_text [] (d ∷ u) = false
same_text (c ∷ t) [] = false
same_text (c ∷ t) (d ∷ u) = c == d && same_text t u

abbrev pub is_empty : Text → Bool
is_empty [] = true
is_empty (c ∷ t) = false

-- The case `PENDING`.
unfoldable pub observe_pending : ℕ → Job → Text → M (Option JobState)
observe_pending id job reason =
    let note = do
      set_pending_reason id reason
      insert_job_event
          (record { job = id; event_type = job_waiting; from_state = none; to_state = none })
      pure {B = Option JobState} none
    in if not (is_empty reason) && not (same_text reason job.pending_reason)
      then note
      else pure none

abbrev pod_failed : Text
pod_failed = codes "pod failed"

-- The case `RUNNING`.
unfoldable pub observe_running : ℕ → ℕ → Job → M (Option JobState)
observe_running now id job =
    let start = do
      set_pending_reason id []
      apply_transition now id running none
      pure (some running)
    in if same job.state running then pure none else start

-- The case `SUCCEEDED`: a job that was last seen starting passes through RUNNING.
unfoldable pub observe_succeeded : ℕ → ℕ → Job → M (Option JobState)
observe_succeeded now id job = do
  if same job.state starting then apply_transition now id running none else pure tt
  set_pending_reason id []
  apply_transition now id succeeded none
  pure (some succeeded)

unfoldable pub observe_failed : ℕ → ℕ → Option Text → M (Option JobState)
observe_failed now id reason = do
  apply_transition now id failed (some (text_or reason pod_failed))
  pure (some failed)

-- The `switch`.
unfoldable pub observe_phase : ℕ → ℕ → Job → Option Text → Phase → M (Option JobState)
observe_phase now id job reason Phase.pending = observe_pending id job (text_or reason [])
observe_phase now id job reason Phase.running = observe_running now id job
observe_phase now id job reason Phase.succeeded = observe_succeeded now id job
observe_phase now id job reason Phase.failed = observe_failed now id reason
observe_phase now id job reason Phase.other = throw unknown_k8s_phase

-- A cancellation that has begun, or an end, is not changed by what is seen of the workload.
unfoldable pub is_settled : JobState → Bool
is_settled s = same s cancelling || is_job_finished s

unfoldable pub record_observation : ℕ → ℕ → Observation → M (Option JobState)
record_observation now id seen = do
  job ← require_job id
  if is_settled job.state then pure none else observe_phase now id job seen.reason seen.phase

unfoldable pub mark_failed : ℕ → ℕ → Text → M (Option JobState)
mark_failed now id reason = do apply_transition now id failed (some reason); pure (some failed)

unfoldable pub mark_workload_missing : ℕ → ℕ → Text → M (Option JobState)
mark_workload_missing now id reason = do
  job ← require_job id
  if is_settled job.state then pure none else mark_failed now id reason

unfoldable pub finish_cancellation : ℕ → ℕ → M (Option Job)
finish_cancellation now id = do apply_transition now id cancelled none; reread id
