-- ===== src/Services/Jobs/History.antt =====
-- Any history of the calls of services/jobs.js and of the scheduler's passes, in any order and by any number of callers: each is
-- one transaction under the lock of the job's row.
use Prim.Native.String.{String}
use ash_ml.Base.{ℕ, ◌≡◌, ◌≤◌, refl, Option, none, some, List, [], arith, ℤ}
use ash_ml.Domain.Quota.{Request, Quota}
use ash_ml.Services.Cluster.{NodeRow}
use ash_ml.Services.Scheduler.{Wording, schedule_job}
use ash_ml.Services.Scheduler.Calls.{schedule_job-Keeps}
use ash_ml.Services.Observation.{Observation}
use ash_ml.Services.Store.{
  Text, Priority, Job, Checkpoint, Db, Result, ok, err, committed, get_job, new_job,
}
use ash_ml.Services.Store.Rows.{state}
use ash_ml.Services.Store.Keeps.{Leaves, Keeps}
use ash_ml.Services.Jobs.{
  submit_job, cancel_job, claim_next_job, mark_launched, record_observation, mark_workload_missing,
  finish_cancellation,
}
use ash_ml.Services.Retries.{consider_retry}
use ash_ml.Services.Jobs.Log.{Follows, blank, IsLogged}
use ash_ml.Services.Jobs.Calls.{
  IsKept, cancel_job-Keeps, claim_next_job-Keeps, mark_launched-Keeps, record_observation-Keeps,
  mark_workload_missing-Keeps, finish_cancellation-Keeps,
}
use ash_ml.Services.Jobs.Budget.{
  IsLogged-IsKept, WithinBudget, WithinBudget-IsKept, WithinBudget-attempt,
  consider_retry-WithinBudget,
}
use ash_ml.Services.Jobs.Submission.{
  consider_retry-IsLogged, born, submit_job-Leaves, born-IsLogged, born-WithinBudget,
}

-- One transaction, committed or rolled back. A submission inserts under a free id.
pub data Step (db : Db) : Db → Type 0 where
  submits :
      (now id : ℕ) (name : String) (project : Option ℕ) (experiment : Option (Option String))
      (priority : Priority) (resources : Request) (max_retries : ℕ)
      → get_job id db.jobs ≡ none
      → Step db (
          committed db
            (submit_job now id name project experiment priority resources max_retries db))
  cancels : (now id : ℕ) → Step db (committed db (cancel_job now id db))
  claims :
      (now : ℕ) (exclude locked : List ℕ)
      → Step db (committed db (claim_next_job now exclude locked db))
  launches : (now id : ℕ) (name : Text) → Step db (committed db (mark_launched now id name db))
  observes :
      (now id : ℕ) (seen : Observation) → Step db (committed db (record_observation now id seen db))
  misses :
      (now id : ℕ) (reason : Text) → Step db (committed db (mark_workload_missing now id reason db))
  tears_down : (now id : ℕ) → Step db (committed db (finish_cancellation now id db))
  rules : (now id : ℕ) → Step db (committed db (consider_retry now id db))
  schedules :
      (locale_compare : String → String → ℤ) (wording : Wording) (now : ℕ) (nodes : List NodeRow)
      (quotas : ℕ → Option Quota) (id : ℕ)
      → Step db (committed db (schedule_job locale_compare wording now nodes quotas id db))

pub data Reach (db : Db) : Db → Type 0 where
  start : Reach db db
  next : {mid after : Db} → Reach db mid → Step mid after → Reach db after

committed-keeps {ℓ} :
    {A : Type 0} (P : Db → Type ℓ) (db : Db) (r : Result (A × Db))
    → P db
    → Leaves P r
    → P (committed db r)
committed-keeps P db (ok (a, db')) h l = l
committed-keeps P db (err e) h l = h

module _ {ℓ} (P : Db → Type ℓ) (kept : IsKept P)
    (retries : (now id : ℕ) → Keeps P (consider_retry now id))
    (births : (db : Db) (id p : ℕ) (priority : Priority) (resources : Request) (max_retries : ℕ)
      → get_job id db.jobs ≡ none
      → P db
      → P (born (new_job id p priority resources max_retries) db)) where
  step-keeps : {db db' : Db} → Step db db' → P db → P db'
  step-keeps {db} (submits now id name project experiment priority resources max_retries free) h =
      committed-keeps P db _ h (
        submit_job-Leaves P kept now id name project experiment priority resources max_retries db
          (λ p. births db id p priority resources max_retries free h))
  step-keeps {db} (cancels now id) h =
      committed-keeps P db _ h ((cancel_job-Keeps P kept now id).keeps db h)
  step-keeps {db} (claims now exclude locked) h =
      committed-keeps P db _ h ((claim_next_job-Keeps P kept now exclude locked).keeps db h)
  step-keeps {db} (launches now id name) h =
      committed-keeps P db _ h ((mark_launched-Keeps P kept now id name).keeps db h)
  step-keeps {db} (observes now id seen) h =
      committed-keeps P db _ h ((record_observation-Keeps P kept now id seen).keeps db h)
  step-keeps {db} (misses now id reason) h =
      committed-keeps P db _ h ((mark_workload_missing-Keeps P kept now id reason).keeps db h)
  step-keeps {db} (tears_down now id) h =
      committed-keeps P db _ h ((finish_cancellation-Keeps P kept now id).keeps db h)
  step-keeps {db} (rules now id) h = committed-keeps P db _ h ((retries now id).keeps db h)
  step-keeps {db} (schedules locale_compare wording now nodes quotas id) h =
      committed-keeps P db _ h
        ((schedule_job-Keeps P kept locale_compare wording now nodes quotas id).keeps db h)

  reach-keeps : {db db' : Db} → Reach db db' → P db → P db'
  reach-keeps start h = h
  reach-keeps (next r s) h = step-keeps s (reach-keeps r h)

-- The empty tables, beside whatever checkpoints.
abbrev pub empty : List Checkpoint → Db
empty checkpoints = record { jobs = []; events = []; checkpoints = checkpoints; passes = [] }

empty-IsLogged : (cs : List Checkpoint) → IsLogged (empty cs)
unfolding get_job
empty-IsLogged cs k = blank

empty-WithinBudget : (cs : List Checkpoint) → WithinBudget (empty cs)
unfolding get_job
empty-WithinBudget cs k = tt

-- After any history of calls from empty tables, the log brings every job to the state of its row:
-- one creation, then moves along edges of the diagram, each from where the last one led.
pub Reach-Follows :
    (checkpoints : List Checkpoint) (db : Db)
    → Reach (empty checkpoints) db
    → (id : ℕ) → Follows id db.events (state (get_job id db.jobs))
Reach-Follows checkpoints db r =
    reach-keeps IsLogged IsLogged-IsKept consider_retry-IsLogged
      (λ db id p priority resources max_retries free h.
        unfold new_job in born-IsLogged _ db refl free h)
      r (empty-IsLogged checkpoints)

-- After any history of calls from empty tables, no job's attempt has passed its max_retries.
pub Reach-attempt_bounded :
    (checkpoints : List Checkpoint) (db : Db)
    → Reach (empty checkpoints) db
    → (id : ℕ) (j : Job) → get_job id db.jobs ≡ some j
    → j.attempt ≤ j.max_retries
Reach-attempt_bounded checkpoints db r id j found =
    WithinBudget-attempt db id j
      (reach-keeps WithinBudget WithinBudget-IsKept consider_retry-WithinBudget
        (λ db id p priority resources max_retries free h.
          unfold new_job in born-WithinBudget _ db (omega arith) h)
        r (empty-WithinBudget checkpoints))
      found
