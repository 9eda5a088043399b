-- ===== src/Services/Retries.antt =====
-- `considerRetry` of packages/server/src/services/jobs.js: one ruling on a failed job, with the
-- checkpoint that another attempt would resume from.
use ash_ml.Base.{ℕ, Bool, true, false, Option, none, some, is_some, if◌then◌else◌}
use ash_ml.Domain.JobState.{queued, retrying}
use ash_ml.Domain.Retry.{RetryDecision, Failure, Verdict, retry, decide_retry}
use ash_ml.Services.Store.{
  Job, job_retry_declined, Checkpoint, M, pure, ◌>>=◌, ◌>>◌, require_job, insert_job_event,
  set_resume_artifact, record_retry_decision, prepare_retry,
}
use ash_ml.Services.Store.Order.{latest_resumable_checkpoint}
use ash_ml.Services.Jobs.{apply_transition, is_empty}

-- What `considerRetry` returns.
pub data RetryOutcome : Type 0 where
  already_decided : Option RetryDecision → RetryOutcome
  declined : Verdict → RetryOutcome
  applied : Verdict → Option ℕ → Option Checkpoint → RetryOutcome

-- What `decideRetry` is given of a row.
unfoldable pub failure_of : Job → Failure
failure_of job = record {
  state = job.state;
  attempt = some job.attempt;
  max_retries = some job.max_retries;
  failure_reason = if is_empty job.failure_reason then none else some job.failure_reason;
}

abbrev pub checkpoint_id : Option Checkpoint → Option ℕ
checkpoint_id none = none
checkpoint_id (some c) = some c.id

unfoldable pub decline_retry : ℕ → ℕ → Verdict → M RetryOutcome
decline_retry now id verdict = do
  record_retry_decision now id verdict.decision
  insert_job_event
      (record { job = id; event_type = job_retry_declined; from_state = none; to_state = none })
  pure (declined verdict)

unfoldable pub issue_retry : ℕ → ℕ → Verdict → Option Checkpoint → M RetryOutcome
issue_retry now id verdict checkpoint = do
  apply_transition now id retrying none
  attempt ← prepare_retry id
  set_resume_artifact id (checkpoint_id checkpoint)
  apply_transition now id queued none
  pure (applied verdict attempt checkpoint)

-- `verdict.decision !== RetryDecision.RETRY` fails.
abbrev pub says_retry : RetryDecision → Bool
says_retry retry = true
says_retry _ = false

unfoldable pub apply_verdict : ℕ → ℕ → Option Checkpoint → Verdict → M RetryOutcome
apply_verdict now id checkpoint verdict =
    if says_retry verdict.decision
    then issue_retry now id verdict checkpoint
    else decline_retry now id verdict

unfoldable pub rule_on : ℕ → ℕ → Job → M RetryOutcome
rule_on now id job db =
    let checkpoint = latest_resumable_checkpoint id db.checkpoints in
    apply_verdict now id checkpoint (decide_retry (failure_of job) (is_some checkpoint)) db

unfoldable pub consider_retry : ℕ → ℕ → M RetryOutcome
consider_retry now id = do
  job ← require_job id
  if is_some job.retry_decided_at
      then pure (already_decided job.retry_decision)
      else rule_on now id job
