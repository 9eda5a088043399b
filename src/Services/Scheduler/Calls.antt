-- ===== src/Services/Scheduler/Calls.antt =====
-- What the writes of the services keep, a pass of the scheduler keeps.
use Prim.Native.String.{String}
use ash_ml.Base.{ℕ, refl, ℤ, Option, none, some, List}
use ash_ml.Domain.Quota.{Quota, Check}
use ash_ml.Domain.Placement.Capacity.{Node}
use ash_ml.Domain.Placement.Place.{Outcome, selected, viable, refused, no_capacity, place_job}
use ash_ml.Services.Store.{Text, Job, Db, bind_job_to_node, unbind_job}
use ash_ml.Services.Store.Keeps.{Keeps, pure-Keeps, throw-Keeps, then-Keeps, bind-Keeps}
use ash_ml.Services.Decisions.{record_decisions}
use ash_ml.Services.Cluster.{NodeRow, cluster_view}
use ash_ml.Services.Jobs.Calls.{IsKept}
use ash_ml.Services.Scheduler.{
  Wording, requeue, settle, refuse, apply_decision, place, pass_gates, schedule_locked,
  schedule_job, affordable,
}
use ash_ml.Services.Scheduler.Pass.{find_job-Keeps}

module _ {ℓ} (P : Db → Type ℓ) (kept : IsKept P) (locale_compare : String → String → ℤ)
    (wording : Wording) where
  requeue-Keeps : (now id : ℕ) (reason : Text) → Keeps P (requeue now id reason)
  unfolding requeue unbind_job
  requeue-Keeps now id reason =
      then-Keeps P (kept.update _ (λ j. refl) (λ j. refl) (λ j. refl) (λ j. refl) id)
        (then-Keeps P (kept.transition now id _ none) (pure-Keeps P _))

  settle-Keeps :
      (now id : ℕ) (reason : Text) (o : Outcome) (chosen : Option Node)
      → Keeps P (settle locale_compare wording now id reason o chosen)
  unfolding settle bind_job_to_node
  settle-Keeps now id reason selected none = throw-Keeps P _
  settle-Keeps now id reason selected (some n) =
      then-Keeps P (kept.update _ (λ j. refl) (λ j. refl) (λ j. refl) (λ j. refl) id)
        (pure-Keeps P _)
  settle-Keeps now id reason viable _ = requeue-Keeps now id reason
  settle-Keeps now id reason refused _ = requeue-Keeps now id reason
  settle-Keeps now id reason no_capacity _ = requeue-Keeps now id reason

  gates-Keeps :
      (now : ℕ) (nodes : List NodeRow) (j : Job) (gate : Option Check)
      → Keeps P (pass_gates locale_compare wording now nodes j gate)
  unfolding pass_gates place apply_decision refuse record_decisions
  gates-Keeps now nodes j none = record {
    keeps = λ db h.
        let d = place_job locale_compare j.resources (cluster_view nodes db.jobs) in
        (settle-Keeps now j.id (wording.decision d.reason) d.outcome d.node).keeps _
          (kept.audit db _ h);
  }
  gates-Keeps now nodes j (some c) = record {
    keeps = λ db h. (requeue-Keeps now j.id (wording.refusal c)).keeps _ (kept.audit db _ h);
  }

  pub schedule_job-Keeps :
      (now : ℕ) (nodes : List NodeRow) (quotas : ℕ → Option Quota) (id : ℕ)
      → Keeps P (schedule_job locale_compare wording now nodes quotas id)
  unfolding schedule_job schedule_locked
  schedule_job-Keeps now nodes quotas id = bind-Keeps P (find_job-Keeps P id) λ j. record {
    keeps = λ db h.
        (gates-Keeps now nodes j (affordable locale_compare wording quotas j db.jobs)).keeps db h;
  }
