-- ===== src/Tests/Services.antt =====
-- Histories of the services at concrete inputs.
use ash_ml.Base.{ℕ, ◌≡◌, ◌≤◌, refl, none, some, List, [], ◌∷◌, All}
use ash_ml.Domain.JobState.{queued}
use ash_ml.Domain.ModelStatus.{staging, production}
use ash_ml.Domain.ArtifactStatus
use ash_ml.Domain.Retry.{codes}
use ash_ml.Domain.Quota.{Request}
use ash_ml.Services.Models.{
  Version, Artifact, Changed, set_status, get_version, register_version, get_production_version,
  apply_status, new_version,
}
use ash_ml.Services.Models
use ash_ml.Services.Models.Promotion.{set_status-promotes}
use ash_ml.Services.Models.Current.{get_production_version-set_status}
use ash_ml.Services.Models.Registration.{Registered, Numbered, register_version-Registered}
use ash_ml.Services.Models.History.{registers, sets_status, run, run-new_model}
use ash_ml.Services.Observation
use ash_ml.Services.Store
use ash_ml.Services.Jobs
use ash_ml.Services.Retries
use ash_ml.Services.Store.Order
use ash_ml.Domain.JobState
use ash_ml.Domain.Retry
use ash_ml.Services.Observation.{Observation}
use ash_ml.Services.Store.{
  medium, Job, Checkpoint, Db, committed, get_job, require_job, update_jobs,
}
use ash_ml.Services.Store.Rows.{state}
use ash_ml.Services.Jobs.{submit_job, claim_next_job, mark_launched, record_observation}
use ash_ml.Services.Retries.{consider_retry}
use ash_ml.Services.Jobs.Log.{Follows}
use ash_ml.Services.Jobs.History.{
  Reach, start, next, submits, claims, launches, observes, rules, empty, Reach-Follows,
  Reach-attempt_bounded,
}

abbrev served : Version
served = record { id = 71; version = 1; artifact_id = 9; status = production; promoted_at = some 5 }

abbrev staged : Version
staged = record { id = 72; version = 2; artifact_id = 10; status = staging; promoted_at = none }

abbrev two_versions : List Version
two_versions = served ∷ staged ∷ []

abbrev promoted : Changed
promoted = apply_status 8 two_versions staged production

set_status-promotes_example :
    (t : Version) × (get_version 2 two_versions ≡ some t)
    × All
        (λ v. (v.status ≡ production → v.id ≡ t.id) × (v.id ≡ t.id → v.status ≡ production))
        promoted.versions
unfolding set_status
set_status-promotes_example = set_status-promotes 8 two_versions 2 promoted refl

get_production_version-set_status_example :
    (t : Version) × (get_version 2 two_versions ≡ some t)
    × (v : Version) × (get_production_version (some promoted.versions) ≡ Models.ok (some v))
    × (v.id ≡ t.id)
unfolding set_status
get_production_version-set_status_example =
    get_production_version-set_status 8 two_versions 2 promoted refl

abbrev weights : Artifact
weights = record { id = 11; status = ArtifactStatus.ready; project = some "vision" }

run-new_model_example :
    let calls =
      registers 71 "vision" (some weights)
      ∷ sets_status 4 1 staging
      ∷ sets_status 5 1 production
      ∷ registers 72 "vision" none
      ∷ [] in
    Numbered 1 (run [] calls)
    × ((id : ℕ) × All (λ v. v.status ≡ production → v.id ≡ id) (run [] calls))
run-new_model_example = run-new_model (
    registers 71 "vision" (some weights)
    ∷ sets_status 4 1 staging
    ∷ sets_status 5 1 production
    ∷ registers 72 "vision" none
    ∷ [])

abbrev one_gpu : Request
one_gpu = record { cpu = 1; memory_bytes = 0; gpu = 1; gpu_memory_min_bytes = 0 }

abbrev killed : Observation
killed = record { phase = Observation.Phase.failed; reason = some (codes "node lost: evicted") }

register_version-Registered_example :
    Registered two_versions "vision"
      (some weights)
      (served ∷ staged ∷ new_version 73 two_versions weights ∷ [])
      (new_version 73 two_versions weights)
unfolding register_version ArtifactStatus.same
register_version-Registered_example =
    register_version-Registered 73 two_versions "vision" (some weights)
      (served ∷ staged ∷ new_version 73 two_versions weights ∷ [])
      (new_version 73 two_versions weights) refl

-- A job that is submitted, claimed, launched and killed.
abbrev submitted : Db
submitted = committed (empty []) (submit_job 1 1 "vision" (some 5) none medium one_gpu 3 (empty []))

abbrev claimed : Db
claimed = committed submitted (claim_next_job 2 [] [] submitted)

abbrev launched : Db
launched = committed claimed (mark_launched 3 1 (codes "j1") claimed)

abbrev lost : Db
lost = committed launched (record_observation 4 1 killed launched)

abbrev retried : Db
retried = committed lost (consider_retry 5 1 lost)

retried-reached : Reach (empty []) retried
unfolding get_job
retried-reached =
    next
      (next
        (next
          (next (next start (submits 1 1 "vision" (some 5) none medium one_gpu 3 refl))
            (claims 2 [] []))
          (launches 3 1 (codes "j1")))
        (observes 4 1 killed))
      (rules 5 1)

Reach-Follows_example : Follows 1 retried.events (state (get_job 1 retried.jobs))
Reach-Follows_example = Reach-Follows [] retried retried-reached 1

abbrev requeued : Job
requeued = record {
  id = 1;
  project = 5;
  state = queued;
  priority = medium;
  resources = one_gpu;
  attempt = 1;
  max_retries = 3;
  failure_reason = [];
  pending_reason = [];
  retry_decision = none;
  retry_decided_at = none;
  resume_artifact = none;
  node = none;
  placement_reason = [];
  k8s_job_name = [];
  queued_at = some 1;
  started_at = none;
  finished_at = none;
}

-- The failure gives the job a second attempt.
requeued-found : get_job 1 retried.jobs ≡ some requeued
unfolding consider_retry record_observation mark_launched claim_next_job submit_job get_job
    require_job Store.set_k8s_job_name Store.update_job Jobs.apply_transition update_jobs
    Jobs.claim_locked Order.lock_next_queued_job Jobs.require_project Jobs.check_experiment
    Store.insert_job Store.insert_job_event Store.new_job Jobs.check_transition JobState.transition
    Store.update_job_state Jobs.reread Store.with_state JobState.all_states JobState.can_transition
    JobState.name JobState.parse JobState.same JobState.transitions Retry.categories
    Retry.classify_failure Retry.contains Retry.decide_failed Retry.decide_retry Retry.first_match
    Retry.fold_case Retry.matches Retry.starts Retries.apply_verdict Jobs.event_for_state
    Retries.failure_of Jobs.is_job_finished Jobs.is_settled Retries.issue_retry Jobs.move_event
    Jobs.observe_failed Jobs.observe_phase Retries.rule_on Order.first_by Order.is_claimable
    Order.latest_resumable_checkpoint Order.priority_rank Order.queued_before Order.resumes_before
    Order.sooner Order.further Store.next_attempt Store.prepare_retry Store.set_resume_artifact
requeued-found = refl

Reach-attempt_bounded_example : requeued.attempt ≤ requeued.max_retries
Reach-attempt_bounded_example =
    Reach-attempt_bounded [] retried retried-reached 1 requeued requeued-found
