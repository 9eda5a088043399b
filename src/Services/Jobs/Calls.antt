-- ===== src/Services/Jobs/Calls.antt =====
-- What the writes of services/jobs.js keep, its calls keep.
use ash_ml.Base.{ℕ, ◌≡◌, refl, Option, none, some, List, []}
use ash_ml.Domain.JobState.{JobState}
use ash_ml.Domain.Retry.{RetryDecision, Verdict}
use ash_ml.Services.Observation.{Phase, Observation}
use ash_ml.Services.Store.{
  Text, Job, Event, Pass, Db, M, ◌>>◌, insert_job_event, set_k8s_job_name, set_pending_reason,
  set_resume_artifact, record_retry_decision, update_job,
}
use ash_ml.Services.Store.Order.{lock_next_queued_job}
use ash_ml.Services.Store.Keeps.{Keeps, pure-Keeps, throw-Keeps, bind-Keeps, then-Keeps, if-Keeps}
use ash_ml.Services.Jobs.{
  apply_transition, reread, check_cancel, cancel_moves, cancel_job, claim_locked, claim_next_job,
  mark_launched, observe_pending, observe_running, observe_succeeded, observe_failed, observe_phase,
  record_observation, mark_failed, mark_workload_missing, finish_cancellation,
}
use ash_ml.Services.Retries.{decline_retry}
use ash_ml.Services.Jobs.Log.{require_job-Keeps}

-- A property that the writes keep: transitions, updates that leave the id, the state, the attempt
-- and its bound, events without states, and what the scheduler records.
pub record IsKept {ℓ} (P : Db → Type ℓ) : Type ℓ where
  pub transition :
      (now id : ℕ) (to : JobState) (reason : Option Text)
      → Keeps P (apply_transition now id to reason)
  pub update :
      (f : Job → Job)
      → ((j : Job) → (f j).id ≡ j.id)
      → ((j : Job) → (f j).state ≡ j.state)
      → ((j : Job) → (f j).attempt ≡ j.attempt)
      → ((j : Job) → (f j).max_retries ≡ j.max_retries)
      → (id : ℕ) → Keeps P (update_job id f)
  pub remark : (e : Event) → e.to_state ≡ none → Keeps P (insert_job_event e)
  pub audit : (db : Db) (passes : List Pass) → P db → P (record db { passes = passes })

module _ {ℓ} (P : Db → Type ℓ) (kept : IsKept P) where
  pub reread-Keeps : (id : ℕ) → Keeps P (reread id)
  unfolding reread
  reread-Keeps id = record { keeps = λ db h. h }

  then_reread : (id : ℕ) (m : M (Unit {0})) → Keeps P m → Keeps P (m >> reread id)
  then_reread id m h = then-Keeps P h (reread-Keeps id)

  name-Keeps : (id : ℕ) (name : Text) → Keeps P (set_k8s_job_name id name)
  unfolding set_k8s_job_name
  name-Keeps id name = kept.update _ (λ j. refl) (λ j. refl) (λ j. refl) (λ j. refl) id

  pending-Keeps : (id : ℕ) (reason : Text) → Keeps P (set_pending_reason id reason)
  unfolding set_pending_reason
  pending-Keeps id reason = kept.update _ (λ j. refl) (λ j. refl) (λ j. refl) (λ j. refl) id

  pub resume-Keeps : (id : ℕ) (a : Option ℕ) → Keeps P (set_resume_artifact id a)
  unfolding set_resume_artifact
  resume-Keeps id a = kept.update _ (λ j. refl) (λ j. refl) (λ j. refl) (λ j. refl) id

  decision-Keeps : (now id : ℕ) (d : RetryDecision) → Keeps P (record_retry_decision now id d)
  unfolding record_retry_decision
  decision-Keeps now id d = kept.update _ (λ j. refl) (λ j. refl) (λ j. refl) (λ j. refl) id

  check_cancel-Keeps : (s : JobState) → Keeps P (check_cancel s)
  unfolding check_cancel
  check_cancel-Keeps s = search (if-Keeps, pure-Keeps, throw-Keeps)

  cancel_moves-Keeps : (now id : ℕ) (s : JobState) → Keeps P (cancel_moves now id s)
  unfolding cancel_moves
  cancel_moves-Keeps now id s = search (if-Keeps, then-Keeps, kept.transition)

  pub cancel_job-Keeps : (now id : ℕ) → Keeps P (cancel_job now id)
  unfolding cancel_job
  cancel_job-Keeps now id = bind-Keeps P (require_job-Keeps P id) λ job.
      then-Keeps P (check_cancel-Keeps job.state)
        (then_reread id _ (cancel_moves-Keeps now id job.state))

  pub claim_next_job-Keeps :
      (now : ℕ) (exclude locked : List ℕ) → Keeps P (claim_next_job now exclude locked)
  unfolding claim_next_job
  claim_next_job-Keeps now exclude locked = record {
    keeps = λ db h. (claim (lock_next_queued_job exclude locked db.jobs)).keeps db h;
  }
    where
      claim : (o : Option Job) → Keeps P (claim_locked now o)
      claim none = unfold claim_locked in pure-Keeps P none
      claim (some j) = unfold claim_locked in then_reread j.id _ (kept.transition now j.id _ none)

  pub mark_launched-Keeps : (now id : ℕ) (name : Text) → Keeps P (mark_launched now id name)
  unfolding mark_launched
  mark_launched-Keeps now id name =
      then-Keeps P (name-Keeps id name) (then_reread id _ (kept.transition now id _ none))

  observe_phase-Keeps :
      (now id : ℕ) (job : Job) (reason : Option Text) (p : Phase)
      → Keeps P (observe_phase now id job reason p)
  unfolding observe_phase observe_pending observe_running observe_succeeded observe_failed
  observe_phase-Keeps now id job reason Phase.pending =
      if-Keeps P _
        (then-Keeps P (pending-Keeps id _) (then-Keeps P (kept.remark _ refl) (pure-Keeps P none)))
        (pure-Keeps P none)
  observe_phase-Keeps now id job reason Phase.running = if-Keeps P _ (pure-Keeps P none) (
      then-Keeps P (pending-Keeps id [])
        (then-Keeps P (kept.transition now id _ none) (pure-Keeps P _)))
  observe_phase-Keeps now id job reason Phase.succeeded =
      then-Keeps P (if-Keeps P _ (kept.transition now id _ none) (pure-Keeps P tt)) (
        then-Keeps P (pending-Keeps id [])
          (then-Keeps P (kept.transition now id _ none) (pure-Keeps P _)))
  observe_phase-Keeps now id job reason Phase.failed =
      then-Keeps P (kept.transition now id _ _) (pure-Keeps P _)
  observe_phase-Keeps now id job reason Phase.other = throw-Keeps P _

  pub record_observation-Keeps :
      (now id : ℕ) (seen : Observation) → Keeps P (record_observation now id seen)
  unfolding record_observation
  record_observation-Keeps now id seen = bind-Keeps P (require_job-Keeps P id) λ job.
      if-Keeps P _ (pure-Keeps P none) (observe_phase-Keeps now id job seen.reason seen.phase)

  pub mark_workload_missing-Keeps :
      (now id : ℕ) (reason : Text) → Keeps P (mark_workload_missing now id reason)
  unfolding mark_workload_missing mark_failed
  mark_workload_missing-Keeps now id reason = bind-Keeps P (require_job-Keeps P id) λ job.
      if-Keeps P _ (pure-Keeps P none) (then-Keeps P (kept.transition now id _ _) (pure-Keeps P _))

  pub finish_cancellation-Keeps : (now id : ℕ) → Keeps P (finish_cancellation now id)
  unfolding finish_cancellation
  finish_cancellation-Keeps now id = then_reread id _ (kept.transition now id _ none)

  pub decline_retry-Keeps : (now id : ℕ) (v : Verdict) → Keeps P (decline_retry now id v)
  unfolding decline_retry
  decline_retry-Keeps now id v =
      then-Keeps P (decision-Keeps now id v.decision)
        (then-Keeps P (kept.remark _ refl) (pure-Keeps P _))
