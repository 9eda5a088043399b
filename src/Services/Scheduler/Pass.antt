-- ===== src/Services/Scheduler/Pass.antt =====
-- What a whole pass of the scheduler does to the nodes, the quotas and the job.
use Prim.Native.String.{String}
use ash_ml.Base.{
  ℕ, ◌≡◌, refl, sym, ap, subst, ◌∙◌, inl, inr, false, Option, none, some, List, [], ◌∷◌, In, here,
  there, arith, Option-cases, ℤ, not-In-nil, In-cons,
}
use ash_ml.Domain.JobState.{queued}
use ash_ml.Domain.Quota.{Quota, Check}
use ash_ml.Domain.Placement.Capacity.{Node}
use ash_ml.Domain.Placement.Fit.{Fits}
use ash_ml.Domain.Placement.Place.{Outcome, selected, viable, refused, no_capacity, place_job}
use ash_ml.Domain.Placement.Best.{place_job-Fits}
use ash_ml.Services.Store.{
  Text, Job, Db, Result, ok, err, get_job, update_jobs, update_job, bind_job_to_node, unbind_job,
  with_state,
}
use ash_ml.Services.Store.Rows.{get_job-id}
use ash_ml.Services.Store.Keeps.{Leaves, Keeps, pure-Keeps, then-Keeps, bind-Leaves}
use ash_ml.Services.Decisions.{record_decisions}
use ash_ml.Services.Cluster.{NodeRow, to_node, holds, is_at, occupies, cluster_view}
use ash_ml.Services.Cluster.Sums.{Distinct}
use ash_ml.Services.Jobs.{apply_transition}
use ash_ml.Services.Jobs.Log.{apply_transition-cases}
use ash_ml.Services.Scheduler.{
  Wording, requeue, find_job, settle, refuse, apply_decision, place, pass_gates, schedule_locked,
  schedule_job, affordable,
}
use ash_ml.Services.Scheduler.Capacity.{AllWithin, Keyed, placed, placed-AllWithin, off-AllWithin}

view-In :
    (js : List Job) (nodes : List NodeRow) {n : Node}
    → In n (cluster_view nodes js)
    → (r : NodeRow) × In r nodes × (n ≡ to_node js r)
unfolding cluster_view
view-In js [] m = absurd (not-In-nil m)
view-In js (r ∷ rs) m = elim (In-cons m) [
  | inl e ↦ (r, here, e)
  | inr k ↦ let (s, i, e) = view-In js rs k in (s, there i, e)
]

queued-holds : (now n : ℕ) (j : Job) → holds n (with_state now queued none j) ≡ false
unfolding holds occupies with_state
queued-holds now n j = ground arith

unbound-holds :
    (reason : Text) (n : ℕ) (j : Job)
    → holds n (record j { node = none; placement_reason = reason }) ≡ false
unfolding holds is_at
unbound-holds reason n j = refl

to_node-id : (js : List Job) (r : NodeRow) → (to_node js r).id ≡ r.id
unfolding to_node
to_node-id js r = refl

pub find_job-ok :
    (id : ℕ) (db : Db) {j : Job} {same : Db}
    → find_job id db ≡ ok (j, same)
    → (get_job id db.jobs ≡ some j) × (same ≡ db)
unfolding find_job
find_job-ok id db {j} {same} h = elim (Option-cases (get_job id db.jobs)) [
  | inl e ↦ absurd (cc (rw (e, find_job) at h))
  | inr (k, e) ↦ ground (arith, e, h)
]

pub find_job-Keeps {ℓ} : (P : Db → Type ℓ) (id : ℕ) → Keeps P (find_job id)
find_job-Keeps P id = record { keeps = λ db h. after db h (find_job id db) refl }
  where
    after : (db : Db) → P db → (r : Result (Job × Db)) → find_job id db ≡ r → Leaves P r
    after db h (ok (j, same)) e = subst P (sym (find_job-ok id db e).1) h
    after db h (err x) e = tt

module _ (nodes : List NodeRow) where
  abbrev Kept : Db → Type 0
  Kept db = AllWithin nodes db.jobs

  queued-Keeps : (now id : ℕ) → Keeps Kept (apply_transition now id queued none)
  queued-Keeps now id = record {
    keeps = λ db h. elim (apply_transition-cases now id queued none db) [
      | inl (e, f) ↦ subst (Leaves Kept) (sym f) tt
      | inr (j, e, inl (edge, f)) ↦ subst (Leaves Kept) (sym f) (
          off-AllWithin nodes (with_state now queued none) id db.jobs (λ n j. queued-holds now n j)
            h)
      | inr (j, e, inr f) ↦ subst (Leaves Kept) (sym f) tt
    ];
  }

  unbind-Keeps : (id : ℕ) (reason : Text) → Keeps Kept (unbind_job id reason)
  unfolding unbind_job update_job
  unbind-Keeps id reason = record {
    keeps = λ db h.
        off-AllWithin nodes (λ j. record j { node = none; placement_reason = reason }) id db.jobs
          (λ n j. unbound-holds reason n j) h;
  }

  requeue-Keeps : (now id : ℕ) (reason : Text) → Keeps Kept (requeue now id reason)
  unfolding requeue
  requeue-Keeps now id reason =
      then-Keeps Kept (unbind-Keeps id reason)
        (then-Keeps Kept (queued-Keeps now id) (pure-Keeps Kept _))

  module _ (locale_compare : String → String → ℤ) (wording : Wording) where
    settle-Kept :
        (now : ℕ) (job : Job) (reason : Text) (o : Outcome) (chosen : Option Node) (db : Db)
        → Keyed nodes
        → Distinct db.jobs
        → get_job job.id db.jobs ≡ some job
        → ((n : Node) → chosen ≡ some n → In n (cluster_view nodes db.jobs) × Fits n job.resources)
        → Kept db
        → Leaves Kept (settle locale_compare wording now job.id reason o chosen db)
    unfolding settle bind_job_to_node update_job
    settle-Kept now job reason selected none db keyed d found fit h = tt
    settle-Kept now job reason selected (some n) db keyed d found fit h =
        let (inside, fits) = fit n refl in
        let (r, at_row, same) = view-In db.jobs nodes inside in
        subst (λ i. AllWithin nodes (update_jobs job.id (placed i reason) db.jobs))
          (sym (ap (λ (x : Node). x.id) same ∙ to_node-id db.jobs r))
          (placed-AllWithin nodes db.jobs r reason job keyed d found at_row
            (subst (λ x. Fits x job.resources) same fits) h)
    settle-Kept now job reason viable _ db keyed d found fit h =
        (requeue-Keeps now job.id reason).keeps db h
    settle-Kept now job reason refused _ db keyed d found fit h =
        (requeue-Keeps now job.id reason).keeps db h
    settle-Kept now job reason no_capacity _ db keyed d found fit h =
        (requeue-Keeps now job.id reason).keeps db h

    place-Kept :
        (now : ℕ) (job : Job) (db : Db)
        → Keyed nodes
        → Distinct db.jobs
        → get_job job.id db.jobs ≡ some job
        → Kept db
        → Leaves Kept (place locale_compare wording now nodes job db)
    unfolding place apply_decision record_decisions
    place-Kept now job db keyed d found h =
        let view = cluster_view nodes db.jobs in
        let decision = place_job locale_compare job.resources view in
        settle-Kept now job (wording.decision decision.reason) decision.outcome decision.node _
          keyed d found (λ n e. place_job-Fits locale_compare job.resources view n e) h

    refuse-Kept :
        (now : ℕ) (job : Job) (c : Check) (db : Db)
        → Kept db
        → Leaves Kept (refuse locale_compare wording now job c db)
    unfolding refuse record_decisions
    refuse-Kept now job c db h = (requeue-Keeps now job.id (wording.refusal c)).keeps _ h

    gates-Kept :
        (now : ℕ) (job : Job) (gate : Option Check) (db : Db)
        → Keyed nodes
        → Distinct db.jobs
        → get_job job.id db.jobs ≡ some job
        → Kept db
        → Leaves Kept (pass_gates locale_compare wording now nodes job gate db)
    unfolding pass_gates
    gates-Kept now job none db keyed d found h = place-Kept now job db keyed d found h
    gates-Kept now job (some c) db keyed d found h = refuse-Kept now job c db h

    -- Where no node has more promised than it has, a pass of the scheduler that succeeds leaves none
    -- that has: whether it binds the job or returns it to the queue, the cores, the bytes and the
    -- GPUs promised of every node, with what is reserved, are within the node's.
    pub schedule_job-AllWithin :
        (now : ℕ) (quotas : ℕ → Option Quota) (id : ℕ) (db : Db)
        → Keyed nodes
        → Distinct db.jobs
        → AllWithin nodes db.jobs
        → Leaves
            (λ after. AllWithin nodes after.jobs)
            (schedule_job locale_compare wording now nodes quotas id db)
    unfolding schedule_job schedule_locked
    schedule_job-AllWithin now quotas id db keyed d h =
        bind-Leaves (λ after. AllWithin nodes after.jobs) (find_job id) _ db
          λ j same e.
            let (found, at_db) = find_job-ok id db e in
            subst (λ x. Leaves Kept (schedule_locked locale_compare wording now nodes quotas j x))
              (sym at_db)
              (gates-Kept now j (affordable locale_compare wording quotas j db.jobs) db keyed d
                (subst (λ i. get_job i db.jobs ≡ some j) (sym (get_job-id id db.jobs found)) found)
                h)
