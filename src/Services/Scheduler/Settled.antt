-- ===== src/Services/Scheduler/Settled.antt =====
-- What becomes of a claimed job.
use Prim.Native.String.{String}
use ash_ml.Base.{
  ℕ, ◌≡◌, ◌⊎◌, refl, sym, ap, subst, inl, inr, true, Option, none, some, List, [], ◌∷◌, map, In,
  Option-cases, ℤ,
}
use ash_ml.Domain.JobState.{queued, scheduling, allows}
use ash_ml.Domain.Quota.{Request, Quota, Check}
use ash_ml.Domain.Placement.Capacity.{Node}
use ash_ml.Domain.Placement.Fit.{Fits}
use ash_ml.Domain.Placement.Place.{
  Entry, Candidate, selected, no_capacity, evaluated, fitting, rank, conclude, place_job,
}
use ash_ml.Domain.Placement.Best.{place_job-Fits, place_job-none_iff}
use ash_ml.Services.Store.{
  Text, Job, Db, Result, ok, ◌>>=◌, get_job, update_jobs, update_job, bind_job_to_node, unbind_job,
  with_state,
}
use ash_ml.Services.Store.Rows.{get_job-id, get_job-update, state, field_of}
use ash_ml.Services.Decisions.{logged, record_decisions}
use ash_ml.Services.Cluster.{NodeRow, cluster_view}
use ash_ml.Services.Jobs.Log.{apply_transition-allowed, moved_db, with_state-id}
use ash_ml.Services.Scheduler.{
  Placement, bound, requeued, Wording, requeue, find_job, settle, refuse, apply_decision, place,
  pass_gates, schedule_locked, schedule_job, affordable, considered,
}
use ash_ml.Services.Scheduler.Capacity.{placed}

module _ (locale_compare : String → String → ℤ) where
  -- A decision selects a node, or there is no capacity.
  conclude-cases :
      (request : Request) (es : List Entry) (cs : List Candidate)
      → let d = conclude locale_compare request es cs in
        ((d.outcome ≡ selected) × ((n : Node) × (d.node ≡ some n)))
        ⊎ ((d.outcome ≡ no_capacity) × (d.node ≡ none))
  unfolding conclude
  conclude-cases request es [] = inr (refl, refl)
  conclude-cases request es (w ∷ rest) = inl (refl, (w.node, refl))

  place_job-cases :
      (request : Request) (nodes : List Node)
      → let d = place_job locale_compare request nodes in
        ((d.outcome ≡ selected) × ((n : Node) × (d.node ≡ some n)))
        ⊎ ((d.outcome ≡ no_capacity) × (d.node ≡ none))
  unfolding place_job
  place_job-cases request [] = inr (refl, refl)
  place_job-cases request (n ∷ ns) =
      let es = evaluated request (n ∷ ns) in
      conclude-cases request es (rank locale_compare (fitting es) request)

abbrev unbound : Text → Job → Job
unbound reason j = record j { node = none; placement_reason = reason }

-- A scheduling job that is returned to the queue is there, and holds no node.
requeue-ok :
    (now id : ℕ) (reason : Text) (db : Db) (j : Job)
    → get_job id db.jobs ≡ some j
    → j.state ≡ scheduling
    → (after : Db) × (requeue now id reason db ≡ ok (requeued reason, after))
      × (get_job id after.jobs ≡ some (with_state now queued none (unbound reason j)))
unfolding requeue unbind_job update_job allows
requeue-ok now id reason db j found at_state =
    let released = record db { jobs = update_jobs id (unbound reason) db.jobs } in
    let step : get_job id released.jobs ≡ some (unbound reason j) =
      get_job-update (unbound reason) (λ k. refl) id db.jobs found in
    let legal : allows j.state queued ≡ true = rw at_state refl in
    let moved =
      apply_transition-allowed now id queued none released (unbound reason j) step legal in
    (
      moved_db now id queued none j.state released,
      rw (◌>>=◌, moved),
      get_job-update (with_state now queued none) (with_state-id now queued none) id released.jobs
          step,
    )

module _ (locale_compare : String → String → ℤ) (wording : Wording) (nodes : List NodeRow)
    (quotas : ℕ → Option Quota) where
  -- What a pass returns, against the tables before it and after it.
  pub data Settled (j : Job) (before after : Db) : Placement → Type 0 where
    runs :
        {n : Node} {reason : Text}
        → affordable locale_compare wording quotas j before.jobs ≡ none
        → In n (cluster_view nodes before.jobs)
        → Fits n j.resources
        → get_job j.id after.jobs ≡ some (placed n.id reason j)
        → Settled j before after (bound n reason)
    over_quota :
        {c : Check} {reason : Text}
        → affordable locale_compare wording quotas j before.jobs ≡ some c
        → state (get_job j.id after.jobs) ≡ some queued
        → field_of (λ k. k.node) (get_job j.id after.jobs) ≡ some none
        → Settled j before after (requeued reason)
    no_room :
        {reason : Text}
        → affordable locale_compare wording quotas j before.jobs ≡ none
        → ((n : Node) → In n (cluster_view nodes before.jobs) → ¬ Fits n j.resources)
        → state (get_job j.id after.jobs) ≡ some queued
        → field_of (λ k. k.node) (get_job j.id after.jobs) ≡ some none
        → Settled j before after (requeued reason)

  requeued-state :
      (now : ℕ) (reason : Text) (o : Option Job) (j : Job)
      → o ≡ some (with_state now queued none (unbound reason j))
      → (state o ≡ some queued) × (field_of (λ k. k.node) o ≡ some none)
  unfolding with_state
  requeued-state now reason o j e = (ap state e, ap (field_of (λ k. k.node)) e)

  Settles : Job → Db → Result (Placement × Db) → Type 0
  Settles j db r = (p : Placement) × (after : Db) × (r ≡ ok (p, after)) × Settled j db after p

  refused-Settles :
      (now : ℕ) (j : Job) (c : Check) (db : Db)
      → get_job j.id db.jobs ≡ some j
      → j.state ≡ scheduling
      → affordable locale_compare wording quotas j db.jobs ≡ some c
      → Settles j db (refuse locale_compare wording now j c db)
  unfolding Settles refuse record_decisions
  refused-Settles now j c db found at_state gate =
      let reason = wording.refusal c in
      let (after, done, row) = requeue-ok now j.id reason _ j found at_state in
      let (s, n) = requeued-state now reason (get_job j.id after.jobs) j row in
      (requeued reason, after, done, over_quota gate s n)

  placed-Settles :
      (now : ℕ) (j : Job) (db : Db)
      → get_job j.id db.jobs ≡ some j
      → j.state ≡ scheduling
      → affordable locale_compare wording quotas j db.jobs ≡ none
      → Settles j db (place locale_compare wording now nodes j db)
  unfolding Settles place apply_decision record_decisions settle bind_job_to_node update_job
  placed-Settles now j db found at_state gate =
      let view = cluster_view nodes db.jobs in
      let d = place_job locale_compare j.resources view in
      let reason = wording.decision d.reason in
      let recorded : Db = record db {
        passes =
            logged now j.id j.attempt (map (considered locale_compare wording) d.decisions)
              db.passes;
      } in
      elim (place_job-cases locale_compare j.resources view) [
        | inl (sel, (n, e)) ↦
            let (inside, fit) = place_job-Fits locale_compare j.resources view n e in
            (
              bound n reason,
              record recorded { jobs = update_jobs j.id (placed n.id reason) db.jobs },
              rw (sel, e) refl,
              runs gate inside fit
                  (get_job-update (placed n.id reason) (λ k. refl) j.id db.jobs found),
            )
        | inr (sel, e) ↦
            let (after, done, row) = requeue-ok now j.id reason recorded j found at_state in
            let (s, n) = requeued-state now reason (get_job j.id after.jobs) j row in
            (
              requeued reason,
              after,
              rw sel done,
              no_room gate ((place_job-none_iff locale_compare j.resources view).0 e) s n,
            )
      ]

  gates-Settles :
      (now : ℕ) (j : Job) (db : Db)
      → get_job j.id db.jobs ≡ some j
      → j.state ≡ scheduling
      → Settles j db (schedule_locked locale_compare wording now nodes quotas j db)
  unfolding schedule_locked pass_gates Settles
  gates-Settles now j db found at_state =
      elim (Option-cases (affordable locale_compare wording quotas j db.jobs)) [
        | inl e ↦ rw (e, pass_gates) (placed-Settles now j db found at_state e)
        | inr (c, e) ↦ rw (e, pass_gates) (refused-Settles now j c db found at_state e)
      ]

  -- A pass over a SCHEDULING job always succeeds, in one of three ways: the job can be afforded and
  -- is bound to a node that fits it; it cannot be afforded; or it can, and no node fits it. In the
  -- last two it is QUEUED again and holds no node.
  pub schedule_job-Settled :
      (now id : ℕ) (db : Db) (j : Job)
      → get_job id db.jobs ≡ some j
      → j.state ≡ scheduling
      → (p : Placement) × (after : Db) × (schedule_job locale_compare wording now nodes quotas id db
          ≡ ok (p, after))
        × Settled j db after p
  unfolding schedule_job find_job Settles
  schedule_job-Settled now id db j found at_state =
      let own : get_job j.id db.jobs ≡ some j =
        subst (λ i. get_job i db.jobs ≡ some j) (sym (get_job-id id db.jobs found)) found in
      let done : find_job id db ≡ ok (j, db) = rw (found, find_job) refl in
      let (p, after, ran, settled) = gates-Settles now j db own at_state in
      (p, after, rw (done, ◌>>=◌) ran, settled)
