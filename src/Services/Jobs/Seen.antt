-- ===== src/Services/Jobs/Seen.antt =====
-- What `recordObservation` does with each phase, for a job in each state.
use ash_ml.Base.{
  ℕ, ◌≡◌, refl, ap, subst, ◌∙◌, inl, inr, Bool, true, false, Bool-cases, Option, none, some, [],
  not, ◌&&◌, if◌then◌else◌,
}
use ash_ml.Domain.JobState.{
  JobState, created, queued, scheduling, starting, running, succeeded, failed, retrying, cancelling,
  cancelled, same, allows,
}
use ash_ml.Services.Store.{
  Text, Job, Db, Result, Error, unknown_k8s_phase, illegal_transition, ok, err, pure, ◌>>=◌, ◌>>◌,
  get_job, update_jobs, update_job, set_pending_reason, insert_job_event, with_state,
}
use ash_ml.Services.Store.Rows.{get_job-update, state}
use ash_ml.Services.Observation.{Phase, Observation}
use ash_ml.Services.Jobs.{
  apply_transition, is_empty, same_text, is_settled, is_job_finished, text_or, pod_failed,
  observe_pending, observe_running, observe_succeeded, observe_failed, observe_phase,
  record_observation,
}
use ash_ml.Services.Jobs.Log.{
  apply_transition-allowed, apply_transition-refused, moved_db, with_state-id, with_state-state,
  require_job-some,
}

-- The job stays in its state, moves, or the call throws.
pub data Outcome : Type 0 where
  stays : Outcome
  becomes : JobState → Outcome
  throws : Error → Outcome

abbrev pub or_refuses : JobState → JobState → Bool → Outcome
or_refuses from to true = becomes to
or_refuses from to false = throws (illegal_transition from to)

-- RUNNING and SUCCEEDED are reached from STARTING and RUNNING only, FAILED along its edges, and what is
-- seen of a job that has ended, or that is being cancelled, is ignored.
abbrev pub seen : JobState → Phase → Outcome
seen cancelling p = stays
seen succeeded p = stays
seen failed p = stays
seen cancelled p = stays
seen s Phase.pending = stays
seen running Phase.running = stays
seen s Phase.running = or_refuses s running (allows s running)
seen starting Phase.succeeded = becomes succeeded
seen s Phase.succeeded = or_refuses s succeeded (allows s succeeded)
seen s Phase.failed = or_refuses s failed (allows s failed)
seen s Phase.other = throws unknown_k8s_phase

-- The result of a call on a job in a state, against what is expected of it.
abbrev pub Sees : ℕ → JobState → Outcome → Result (Option JobState × Db) → Type 0
Sees id s stays r = (after : Db) × (r ≡ ok (none, after)) × (state (get_job id after.jobs) ≡ some s)
Sees id s (becomes t) r =
    (after : Db) × (r ≡ ok (some t, after)) × (state (get_job id after.jobs) ≡ some t)
Sees id s (throws e) r = r ≡ err e

-- A move, or its refusal.
moves-Sees :
    (now id : ℕ) (to : JobState) (reason : Option Text) (db : Db) (j : Job)
    → get_job id db.jobs ≡ some j
    → Sees id j.state
        (or_refuses j.state to (allows j.state to))
        ((apply_transition now id to reason >> pure (some to)) db)
moves-Sees now id to reason db j found = elim (Bool-cases (allows j.state to)) [
  | inl e ↦
      let moved = apply_transition-allowed now id to reason db j found e in
      rw (e, ◌>>=◌, moved)
        (
          moved_db now id to reason j.state db,
          refl,
          ap state (
                get_job-update (with_state now to reason) (with_state-id now to reason) id db.jobs
                  found)
              ∙ ap some (with_state-state now to reason j),
        )
  | inr e ↦ rw (e, ◌>>=◌, apply_transition-refused now id to reason db j found e) refl
]

abbrev noted : Text → Job → Job
noted reason j = record j { pending_reason = reason }

-- The same behind the clearing of the pending reason.
clears-Sees :
    (now id : ℕ) (to : JobState) (db : Db) (j : Job)
    → get_job id db.jobs ≡ some j
    → Sees id j.state
        (or_refuses j.state to (allows j.state to))
        ((set_pending_reason id [] >> (apply_transition now id to none >> pure (some to))) db)
unfolding set_pending_reason update_job
clears-Sees now id to db j found =
    moves-Sees now id to none (record db { jobs = update_jobs id (noted []) db.jobs }) (noted [] j)
      (get_job-update (noted []) (λ k. refl) id db.jobs found)

pending-Sees :
    (id : ℕ) (reason : Text) (db : Db) (j : Job)
    → get_job id db.jobs ≡ some j
    → Sees id j.state stays (observe_pending id j reason db)
unfolding observe_pending set_pending_reason update_job insert_job_event
pending-Sees id reason db j found =
    elim (Bool-cases (not (is_empty reason) && not (same_text reason j.pending_reason))) [
      | inl e ↦
          rw e (_, refl, ap state (get_job-update (noted reason) (λ k. refl) id db.jobs found))
      | inr e ↦ rw e (db, refl, ap state found)
    ]

module _ (now id : ℕ) (reason : Option Text) (db : Db) (j : Job)
    (found : get_job id db.jobs ≡ some j) where
  runs :
      (s : JobState)
      → j.state ≡ s
      → same s running ≡ false
      → Sees id s (or_refuses s running (allows s running)) (observe_running now id j db)
  unfolding observe_running
  runs s e f =
      subst (λ x. Sees id x (or_refuses x running (allows x running)) (observe_running now id j db))
        e (rw (ap (λ x. same x running) e ∙ f) (clears-Sees now id running db j found))

  succeeds :
      (s : JobState)
      → j.state ≡ s
      → same s starting ≡ false
      → Sees id s (or_refuses s succeeded (allows s succeeded)) (observe_succeeded now id j db)
  unfolding observe_succeeded
  succeeds s e f =
      subst
        (λ x.
          Sees id x (or_refuses x succeeded (allows x succeeded)) (observe_succeeded now id j db))
        e (rw (ap (λ x. same x starting) e ∙ f) (clears-Sees now id succeeded db j found))

  -- A job that was last seen starting passes through RUNNING.
  passes : j.state ≡ starting → Sees id starting (becomes succeeded) (observe_succeeded now id j db)
  unfolding observe_succeeded same allows
  passes e =
      let moved = apply_transition-allowed now id running none db j found (rw e refl) in
      let j1 = with_state now running none j in
      let row =
        get_job-update (with_state now running none) (with_state-id now running none) id db.jobs
          found in
      let at = with_state-state now running none j in
      let last = clears-Sees now id succeeded (moved_db now id running none j.state db) j1 row in
      rw (ap (λ x. same x starting) e, ◌>>=◌, moved)
        (subst
          (λ x. Sees id x (or_refuses x succeeded (allows x succeeded)) (
            (set_pending_reason id []
                >> (apply_transition now id succeeded none >> pure (some succeeded)))
              (moved_db now id running none j.state db)))
          at last)

  fails :
      (s : JobState)
      → j.state ≡ s
      → Sees id s (or_refuses s failed (allows s failed)) (observe_failed now id reason db)
  unfolding observe_failed
  fails s e =
      subst
        (λ x. Sees id x (or_refuses x failed (allows x failed)) (observe_failed now id reason db)) e
        (moves-Sees now id failed (some (text_or reason pod_failed)) db j found)

  waits :
      (s : JobState) → j.state ≡ s → Sees id s stays (observe_pending id j (text_or reason []) db)
  waits s e =
      subst (λ x. Sees id x stays (observe_pending id j (text_or reason []) db)) e
        (pending-Sees id (text_or reason []) db j found)

  Behind : JobState → Phase → Type 0
  Behind s p =
      Sees id s (seen s p)
        ((if is_settled s then pure none else observe_phase now id j reason p) db)

  settled : (s : JobState) → j.state ≡ s → Sees id s stays (pure none db)
  settled s e = (db, refl, ap state found ∙ ap some e)

  by_state : (s : JobState) (p : Phase) → j.state ≡ s → Behind s p
  unfolding Behind is_settled is_job_finished observe_phase same allows observe_running
  by_state cancelling p e = settled cancelling e
  by_state succeeded p e = settled succeeded e
  by_state failed p e = settled failed e
  by_state cancelled p e = settled cancelled e
  by_state created Phase.pending e = waits created e
  by_state created Phase.running e = runs created e refl
  by_state created Phase.succeeded e = succeeds created e refl
  by_state created Phase.failed e = fails created e
  by_state created Phase.other e = refl
  by_state queued Phase.pending e = waits queued e
  by_state queued Phase.running e = runs queued e refl
  by_state queued Phase.succeeded e = succeeds queued e refl
  by_state queued Phase.failed e = fails queued e
  by_state queued Phase.other e = refl
  by_state scheduling Phase.pending e = waits scheduling e
  by_state scheduling Phase.running e = runs scheduling e refl
  by_state scheduling Phase.succeeded e = succeeds scheduling e refl
  by_state scheduling Phase.failed e = fails scheduling e
  by_state scheduling Phase.other e = refl
  by_state starting Phase.pending e = waits starting e
  by_state starting Phase.running e = runs starting e refl
  by_state starting Phase.succeeded e = passes e
  by_state starting Phase.failed e = fails starting e
  by_state starting Phase.other e = refl
  by_state running Phase.pending e = waits running e
  by_state running Phase.running e =
      rw (ap (λ x. same x running) e, observe_running) (settled running e)
  by_state running Phase.succeeded e = succeeds running e refl
  by_state running Phase.failed e = fails running e
  by_state running Phase.other e = refl
  by_state retrying Phase.pending e = waits retrying e
  by_state retrying Phase.running e = runs retrying e refl
  by_state retrying Phase.succeeded e = succeeds retrying e refl
  by_state retrying Phase.failed e = fails retrying e
  by_state retrying Phase.other e = refl

-- An observed phase is ignored where the job is CANCELLING or has ended. Else PENDING leaves
-- the state, and so does RUNNING seen of a RUNNING job; SUCCEEDED takes a STARTING job to
-- SUCCEEDED; otherwise RUNNING, SUCCEEDED and FAILED move the job along an edge of the diagram,
-- or throw where there is none, and an unknown phase throws.
pub record_observation-Sees :
    (now id : ℕ) (o : Observation) (db : Db) (j : Job)
    → get_job id db.jobs ≡ some j
    → Sees id j.state (seen j.state o.phase) (record_observation now id o db)
unfolding record_observation Behind
record_observation-Sees now id o db j found =
    rw (require_job-some id db found, ◌>>=◌)
      (by_state now id o.reason db j found j.state o.phase refl)
