-- ===== src/Services/Jobs/Submission.antt =====
-- `submitJob` and `considerRetry` of services/jobs.js against the event log.
use Prim.Native.String.{String}
use text.Mathlib.Text.{◌==◌ as str_eq}
use ash_ml.Base.{
  ℕ, ◌≡◌, ◌≤◌, refl, sym, ap, subst, inl, inr, Option, none, some, ◌∷◌, ◌==◌, ==_iff, Bool-cases,
  is_some,
}
use ash_ml.Domain.JobState.{created, queued, retrying}
use ash_ml.Domain.Quota.{Request}
use ash_ml.Domain.Retry.{Verdict, decide_retry}
use ash_ml.Services.Store.{
  Priority, Job, job_created, Checkpoint, Db, get_job, new_job, insert_job, insert_job_event,
  next_attempt, prepare_retry,
}
use ash_ml.Services.Store.Order.{latest_resumable_checkpoint}
use ash_ml.Services.Store.Rows.{field_of-update, state}
use ash_ml.Services.Store.Keeps.{Leaves, Keeps, pure-Keeps, bind-Keeps, then-Keeps, if-Keeps}
use ash_ml.Services.Jobs.{require_project, check_experiment, submit_job}
use ash_ml.Services.Retries.{
  issue_retry, apply_verdict, rule_on, consider_retry, failure_of, says_retry, already_decided,
}
use ash_ml.Services.Jobs.Log.{Follows, birth, elsewhere, IsLogged, require_job-Keeps}
use ash_ml.Services.Jobs.Calls.{IsKept, reread-Keeps, resume-Keeps, decline_retry-Keeps}
use ash_ml.Services.Jobs.Budget.{IsLogged-IsKept, WithinBudget}

prepare_retry-IsLogged : (id : ℕ) → Keeps IsLogged (prepare_retry id)
unfolding prepare_retry next_attempt
prepare_retry-IsLogged id = record {
  keeps = λ db h k.
      subst (Follows k db.events)
        (sym (field_of-update (λ j. j.state) next_attempt (λ j. refl) (λ j. refl) k id db.jobs))
        (h k);
}

apply_verdict-IsLogged :
    (now id : ℕ) (c : Option Checkpoint) (v : Verdict) → Keeps IsLogged (apply_verdict now id c v)
unfolding apply_verdict issue_retry
apply_verdict-IsLogged now id c v =
    if-Keeps IsLogged (says_retry v.decision)
      (then-Keeps IsLogged (IsLogged-IsKept.transition now id retrying none) (
        bind-Keeps IsLogged (prepare_retry-IsLogged id) λ attempt.
          then-Keeps IsLogged (resume-Keeps IsLogged IsLogged-IsKept id _) (
            then-Keeps IsLogged (IsLogged-IsKept.transition now id queued none)
              (pure-Keeps IsLogged _))))
      (decline_retry-Keeps IsLogged IsLogged-IsKept now id v)

rule_on-IsLogged : (now id : ℕ) (job : Job) → Keeps IsLogged (rule_on now id job)
unfolding rule_on
rule_on-IsLogged now id job = record {
  keeps = λ db h.
      let checkpoint = latest_resumable_checkpoint id db.checkpoints in
      (apply_verdict-IsLogged now id checkpoint
          (decide_retry (failure_of job) (is_some checkpoint))).keeps
        db h;
}

pub consider_retry-IsLogged : (now id : ℕ) → Keeps IsLogged (consider_retry now id)
unfolding consider_retry
consider_retry-IsLogged now id = bind-Keeps IsLogged (require_job-Keeps IsLogged id) λ job.
    if-Keeps IsLogged (is_some job.retry_decided_at)
      (pure-Keeps IsLogged (already_decided job.retry_decision)) (rule_on-IsLogged now id job)

-- The store with the new row and the event of its creation.
abbrev pub born : Job → Db → Db
born j db = record db {
  jobs = j ∷ db.jobs;
  events =
      record { job = j.id; event_type = job_created; from_state = none; to_state = some created }
      ∷ db.events;
}

-- What is left by a submission is what is left by queueing the new job.
pub submit_job-Leaves {ℓ} :
    (P : Db → Type ℓ) (kept : IsKept P) (now id : ℕ) (name : String) (project : Option ℕ)
    (experiment : Option (Option String)) (priority : Priority) (resources : Request)
    (max_retries : ℕ) (db : Db)
    → ((p : ℕ) → P (born (new_job id p priority resources max_retries) db))
    → Leaves P (submit_job now id name project experiment priority resources max_retries db)
unfolding submit_job require_project check_experiment insert_job insert_job_event new_job
submit_job-Leaves P kept now id name none experiment priority resources max_retries db h = tt
submit_job-Leaves P kept now id name (some p) none priority resources max_retries db h =
    (then-Keeps P (kept.transition now id queued none) (reread-Keeps P kept id)).keeps _ (h p)
submit_job-Leaves P kept now id name (some p) (some none) priority resources max_retries db h = tt
submit_job-Leaves P kept now id name (some p) (some (some owner)) priority resources max_retries db
      h =
    elim (Bool-cases (str_eq owner name)) [
      | inl e ↦ rw e (
          (then-Keeps P (kept.transition now id queued none) (reread-Keeps P kept id)).keeps _
            (h p))
      | inr e ↦ rw e tt
    ]

-- A new row under a free id keeps the log true.
pub born-IsLogged :
    (j : Job) (db : Db)
    → j.state ≡ created
    → get_job j.id db.jobs ≡ none
    → IsLogged db
    → IsLogged (born j db)
unfolding get_job
born-IsLogged j db starts free h k = elim (Bool-cases (j.id == k)) [
  | inl e ↦
      let same_id : j.id ≡ k = (==_iff j.id k).0 e in
      rw e (
        subst (Follows k (born j db).events) (ap some (sym starts)) (
          birth same_id refl refl (
            subst (Follows k db.events)
              (ap state (subst (λ i. get_job i db.jobs ≡ none) same_id free)) (h k))))
  | inr e ↦ rw e (elsewhere (λ q. cc (e, (==_iff j.id k).1 q)) (h k))
]

-- A new row within its budget keeps every job within its own.
pub born-WithinBudget :
    (j : Job) (db : Db) → j.attempt ≤ j.max_retries → WithinBudget db → WithinBudget (born j db)
unfolding get_job
born-WithinBudget j db fresh h k = elim (Bool-cases (j.id == k)) [
  | inl e ↦ rw e fresh
  | inr e ↦ rw e (h k)
]
