-- ===== src/Services/Jobs/Claim.antt =====
-- What a claim takes, and what it leaves.
use ash_ml.Base.{
  ℕ, ◌≡◌, ◌≢◌, ◌⊎◌, refl, sym, inl, inr, none, some, List, [], ◌∷◌, In, All-In, ◌==◌, ==_iff,
  Bool-cases, Option-cases, In-cons, not-In-nil,
}
use ash_ml.Domain.JobState.{queued, scheduling, allows}
use ash_ml.Services.Store.{Job, Db, ok, ◌>>=◌, get_job, with_state}
use ash_ml.Services.Store.Rows.{get_job-update}
use ash_ml.Services.Store.Order.{lock_next_queued_job}
use ash_ml.Services.Store.Queue.{
  Waits, IsNoSooner, lock_next_queued_job-first, lock_next_queued_job-none,
}
use ash_ml.Services.Cluster.Sums.{Distinct}
use ash_ml.Services.Jobs.{claim_locked, claim_next_job, reread}
use ash_ml.Services.Jobs.Log.{apply_transition-allowed, moved_db, with_state-id}

Distinct-found : (js : List Job) (j : Job) → Distinct js → In j js → get_job j.id js ≡ some j
unfolding get_job
Distinct-found [] j d m = absurd (not-In-nil m)
Distinct-found (k ∷ js) j d m = elim (In-cons m) [
  | inl e ↦ rw (e, (==_iff k.id k.id).1 refl) refl
  | inr i ↦ elim (Bool-cases (k.id == j.id)) [
    | inl e ↦ absurd (All-In (λ l. l.id ≢ k.id) js d.0 i (sym ((==_iff k.id j.id).0 e)))
    | inr e ↦ rw e (Distinct-found js j d.1 i)
  ]
]

-- A job that may be claimed, with none before it.
pub record IsNext (exclude locked : List ℕ) (jobs : List Job) (j : Job) : Type 0 where
  pub found : In j jobs
  pub waits : Waits exclude locked j
  pub first : (k : Job) → In k jobs → Waits exclude locked k → IsNoSooner k j

-- Where ids are unique, a claim never fails: either no job is QUEUED that is neither excluded
-- nor locked, and nothing changes; or it takes such a job and moves it to SCHEDULING, and no
-- other such job has a higher priority (HIGH, MEDIUM, LOW), or the same one and an earlier time
-- in the queue.
pub claim_next_job-IsNext :
    (now : ℕ) (exclude locked : List ℕ) (db : Db)
    → Distinct db.jobs
    → (((j : Job) → In j db.jobs → ¬ Waits exclude locked j)
        × (claim_next_job now exclude locked db ≡ ok (none, db)))
      ⊎ ((j : Job) × IsNext exclude locked db.jobs j
          × (claim_next_job now exclude locked db
              ≡ ok (
                some (with_state now scheduling none j),
                moved_db now j.id scheduling none queued db,
              )))
unfolding claim_next_job claim_locked reread allows
claim_next_job-IsNext now exclude locked db d =
    elim (Option-cases (lock_next_queued_job exclude locked db.jobs)) [
      | inl e ↦ inl (lock_next_queued_job-none exclude locked db.jobs e, rw e refl)
      | inr (j, e) ↦
          let (found, waits, first) = lock_next_queued_job-first exclude locked db.jobs j e in
          let at_state = waits.0 in
          let row = Distinct-found db.jobs j d found in
          let moved =
            apply_transition-allowed now j.id scheduling none db j row (rw at_state refl) in
          let after =
            get_job-update (with_state now scheduling none) (with_state-id now scheduling none) j.id
              db.jobs row in
          inr (
            j,
            record { found = found; waits = waits; first = first },
            rw (e, ◌>>=◌, moved, after, at_state) refl,
          )
    ]
