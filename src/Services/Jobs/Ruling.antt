-- ===== src/Services/Jobs/Ruling.antt =====
-- What `considerRetry` leaves of a job that has no ruling yet.
use ash_ml.Base.{
  ℕ, ◌+◌, ◌≡◌, ◌≢◌, refl, ap, ◌∙◌, inl, inr, true, false, Option, none, some, [], ◌∷◌, is_some,
  arith, Bool-cases, Option-cases,
}
use ash_ml.Domain.JobState.{
  JobState, created, queued, scheduling, starting, running, succeeded, failed, retrying, cancelling,
  cancelled, same, allows,
}
use ash_ml.Domain.Retry.{RetryDecision, not_applicable, Verdict, decide_retry}
use ash_ml.Services.Store.{
  Text, Job, Event, job_retry_declined, Checkpoint, Db, ok, ◌>>=◌, get_job, update_jobs, update_job,
  insert_job_event, with_state, next_attempt, prepare_retry, set_resume_artifact,
  record_retry_decision, awaits_retry_decision,
}
use ash_ml.Services.Store.Rows.{get_job-update}
use ash_ml.Services.Store.Order.{latest_resumable_checkpoint}
use ash_ml.Services.Retries.{
  checkpoint_id, failure_of, says_retry, declined, applied, decline_retry, issue_retry,
  apply_verdict, rule_on, consider_retry,
}
use ash_ml.Services.Jobs.Log.{apply_transition-allowed, moved_db, with_state-id, require_job-some}

-- The verdict on a job, and the checkpoint that it would resume from.
abbrev pub resume_of : Job → Db → Option Checkpoint
resume_of j db = latest_resumable_checkpoint j.id db.checkpoints

abbrev pub verdict_of : ℕ → Job → Db → Verdict
verdict_of id j db =
    decide_retry (failure_of j) (is_some (latest_resumable_checkpoint id db.checkpoints))

-- The row of a job that was ruled on for good.
abbrev pub ruled : ℕ → RetryDecision → Job → Job
ruled now decision j = record j {
  retry_decision = some decision;
  retry_decided_at = some now;
  resume_artifact = none;
}

-- A job without a ruling is ruled on by the verdict.
consider_retry-open :
    (now id : ℕ) (db : Db) (j : Job)
    → get_job id db.jobs ≡ some j
    → j.retry_decided_at ≡ none
    → consider_retry now id db
      ≡ apply_verdict now id (latest_resumable_checkpoint id db.checkpoints) (verdict_of id j db) db
unfolding consider_retry rule_on
consider_retry-open now id db j found undecided =
    rw (require_job-some id db found, ◌>>=◌, undecided) refl

-- What is left where the verdict is not to retry.
pub consider_retry-declines :
    (now id : ℕ) (db : Db) (j : Job)
    → get_job id db.jobs ≡ some j
    → j.retry_decided_at ≡ none
    → says_retry (verdict_of id j db).decision ≡ false
    → (after : Db) × (consider_retry now id db ≡ ok (declined (verdict_of id j db), after))
      × (get_job id after.jobs ≡ some (ruled now (verdict_of id j db).decision j))
unfolding apply_verdict decline_retry record_retry_decision update_job insert_job_event
consider_retry-declines now id db j found undecided stays =
    let v = verdict_of id j db in
    let note : Event = record {
      job = id;
      event_type = job_retry_declined;
      from_state = none;
      to_state = none;
    } in
    (
      record db { jobs = update_jobs id (ruled now v.decision) db.jobs; events = note ∷ db.events },
      consider_retry-open now id db j found undecided ∙ rw stays refl,
      get_job-update (ruled now v.decision) (λ k. refl) id db.jobs found,
    )

same-failed : (s : JobState) → same s failed ≡ true → s ≡ failed
unfolding same
same-failed created h = absurd (cc h)
same-failed queued h = absurd (cc h)
same-failed scheduling h = absurd (cc h)
same-failed starting h = absurd (cc h)
same-failed running h = absurd (cc h)
same-failed succeeded h = absurd (cc h)
same-failed failed h = refl
same-failed retrying h = absurd (cc h)
same-failed cancelling h = absurd (cc h)
same-failed cancelled h = absurd (cc h)

not_failed-verdict :
    (id : ℕ) (j : Job) (db : Db) → j.state ≢ failed → (verdict_of id j db).decision ≡ not_applicable
unfolding failure_of decide_retry
not_failed-verdict id j db h = elim (Bool-cases (same j.state failed)) [
  | inl e ↦ absurd (h (same-failed j.state e))
  | inr e ↦ rw e refl
]

-- A ruling on a job that is not FAILED, such as one that another pass has just put back in the queue,
-- is final all the same: it is recorded as NOT_APPLICABLE with its time, so that the job does not
-- await a ruling when it fails after that.
pub consider_retry-not_failed :
    (now later id : ℕ) (reason : Text) (db : Db) (j : Job)
    → get_job id db.jobs ≡ some j
    → j.retry_decided_at ≡ none
    → j.state ≢ failed
    → (after : Db) × (v : Verdict) × (consider_retry now id db ≡ ok (declined v, after))
      × (get_job id after.jobs ≡ some (ruled now not_applicable j))
      × (awaits_retry_decision (with_state later failed (some reason) (ruled now not_applicable j))
          ≡ false)
unfolding with_state awaits_retry_decision
consider_retry-not_failed now later id reason db j found undecided h =
    let na = not_failed-verdict id j db h in
    let (after, ran, row) =
      consider_retry-declines now id db j found undecided (ap says_retry na) in
    (after, verdict_of id j db, ran, row ∙ ap (λ d. some (ruled now d j)) na, ground arith)

-- The row of a job that is put back in the queue for another attempt.
abbrev pub again : ℕ → Option Checkpoint → Job → Job
again now checkpoint j = record {
  id = j.id;
  project = j.project;
  state = queued;
  priority = j.priority;
  resources = j.resources;
  attempt = j.attempt + 1;
  max_retries = j.max_retries;
  failure_reason = [];
  pending_reason = [];
  retry_decision = none;
  retry_decided_at = none;
  resume_artifact = checkpoint_id checkpoint;
  node = none;
  placement_reason = [];
  k8s_job_name = [];
  queued_at = elim j.queued_at [ none ↦ some now | some t ↦ some t ];
  started_at = j.started_at;
  finished_at = none;
}

again-steps :
    (now : ℕ) (checkpoint : Option Checkpoint) (j : Job)
    → with_state now queued none (record (next_attempt (with_state now retrying none j)) {
      resume_artifact = checkpoint_id checkpoint;
    })
      ≡ again now checkpoint j
unfolding with_state next_attempt
again-steps now checkpoint j = elim (Option-cases j.queued_at) [
  | inl e ↦ rw e refl
  | inr (t, e) ↦ rw e refl
]

abbrev resuming : Option Checkpoint → Job → Job
resuming checkpoint j = record j { resume_artifact = checkpoint_id checkpoint }

prepare_retry-ok :
    (id : ℕ) (db : Db) (j : Job)
    → get_job id db.jobs ≡ some j
    → (prepare_retry id db
        ≡ ok (some (j.attempt + 1), record db { jobs = update_jobs id next_attempt db.jobs }))
      × (get_job id (update_jobs id next_attempt db.jobs) ≡ some (next_attempt j))
unfolding prepare_retry next_attempt
prepare_retry-ok id db j found =
    let row = get_job-update next_attempt (λ k. refl) id db.jobs found in (rw row refl, row)

issue_retry-ok :
    (now id : ℕ) (v : Verdict) (checkpoint : Option Checkpoint) (db : Db) (j : Job)
    → get_job id db.jobs ≡ some j
    → j.state ≡ failed
    → (after : Db) × (issue_retry now id v checkpoint db
        ≡ ok (applied v (some (j.attempt + 1)) checkpoint, after))
      × (get_job id after.jobs ≡ some (again now checkpoint j))
unfolding issue_retry set_resume_artifact update_job allows with_state next_attempt
issue_retry-ok now id v checkpoint db j found at_state =
    let first = apply_transition-allowed now id retrying none db j found (rw at_state refl) in
    let db1 : Db = moved_db now id retrying none j.state db in
    let j1 : Job = with_state now retrying none j in
    let row1 =
      get_job-update (with_state now retrying none) (with_state-id now retrying none) id db.jobs
        found in
    let db2 : Db = record db1 { jobs = update_jobs id next_attempt db1.jobs } in
    let (prepared, row2) = prepare_retry-ok id db1 j1 row1 in
    let db3 : Db = record db2 { jobs = update_jobs id (resuming checkpoint) db2.jobs } in
    let row3 : get_job id db3.jobs ≡ some (resuming checkpoint (next_attempt j1)) =
      get_job-update (resuming checkpoint) (λ k. refl) id db2.jobs row2 in
    let last =
      apply_transition-allowed now id queued none db3 (resuming checkpoint (next_attempt j1)) row3
        refl in
    (
      moved_db now id queued none retrying db3,
      rw (◌>>=◌, first, prepared, last) refl,
      get_job-update (with_state now queued none) (with_state-id now queued none) id db3.jobs row3
          ∙ ap some (again-steps now checkpoint j),
    )

-- Where the verdict on a FAILED job without a ruling is to retry, it is QUEUED again with one
-- attempt more and the checkpoint it resumes from; its node, workload name, reasons, ruling and
-- end are cleared, its time in the queue is kept, or set where it had none, and its other
-- columns are as they were.
pub consider_retry-requeues :
    (now id : ℕ) (db : Db) (j : Job)
    → get_job id db.jobs ≡ some j
    → j.retry_decided_at ≡ none
    → j.state ≡ failed
    → says_retry (verdict_of id j db).decision ≡ true
    → let checkpoint = latest_resumable_checkpoint id db.checkpoints in
      (after : Db) × (consider_retry now id db
        ≡ ok (applied (verdict_of id j db) (some (j.attempt + 1)) checkpoint, after))
      × (get_job id after.jobs ≡ some (again now checkpoint j))
unfolding apply_verdict
consider_retry-requeues now id db j found undecided at_state goes =
    let checkpoint = latest_resumable_checkpoint id db.checkpoints in
    let (after, ran, row) =
      issue_retry-ok now id (verdict_of id j db) checkpoint db j found at_state in
    (after, consider_retry-open now id db j found undecided ∙ rw goes ran, row)
