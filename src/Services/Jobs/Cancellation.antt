-- ===== src/Services/Jobs/Cancellation.antt =====
-- What `cancelJob` does with a job in each state.
use ash_ml.Base.{ℕ, ◌≡◌, ◌⊎◌, refl, subst, inl, inr, true, Option, none, some}
use ash_ml.Domain.JobState.{
  JobState, created, queued, scheduling, starting, running, succeeded, failed, retrying, cancelling,
  cancelled, same, allows,
}
use ash_ml.Services.Store.{
  Job, Db, Result, Error, already_cancelled, job_already_finished, illegal_transition, ok, err,
  ◌>>=◌, ◌>>◌, get_job, with_state,
}
use ash_ml.Services.Store.Rows.{get_job-update}
use ash_ml.Services.Jobs.{apply_transition, reread, check_cancel, cancel_moves, cancel_job}
use ash_ml.Services.Jobs.Log.{
  apply_transition-allowed, apply_transition-refused, moved_db, with_state-id, with_state-state,
  require_job-some,
}

-- Without a workload a job is cancelled at once; with one, its teardown is awaited. A job that has
-- FAILED, or that is being retried, has no edge to CANCELLING.
abbrev pub cancellation : JobState → JobState ⊎ Error
cancellation created = inl cancelled
cancellation queued = inl cancelled
cancellation scheduling = inl cancelling
cancellation starting = inl cancelling
cancellation running = inl cancelling
cancellation succeeded = inr job_already_finished
cancellation failed = inr (illegal_transition failed cancelling)
cancellation retrying = inr (illegal_transition retrying cancelling)
cancellation cancelling = inr (already_cancelled cancelling)
cancellation cancelled = inr (already_cancelled cancelled)

-- The result of a call, against what is expected of it.
abbrev pub Matches : ℕ → JobState ⊎ Error → Result (Option Job × Db) → Type 0
Matches id (inl s) r =
    (k : Job) × (after : Db) × (r ≡ ok (some k, after))
    × (get_job id after.jobs ≡ some k)
    × (k.state ≡ s)
Matches id (inr e) r = r ≡ err e

row_after :
    (now id : ℕ) (to from : JobState) (db : Db) (j : Job)
    → get_job id db.jobs ≡ some j
    → get_job id (moved_db now id to none from db).jobs ≡ some (with_state now to none j)
row_after now id to from db j found =
    get_job-update (with_state now to none) (with_state-id now to none) id db.jobs found

-- One move, and the job as it is then.
moves-once :
    (now id : ℕ) (to : JobState) (db : Db) (j : Job)
    → get_job id db.jobs ≡ some j
    → allows j.state to ≡ true
    → Matches id (inl to) ((apply_transition now id to none >> reread id) db)
unfolding reread
moves-once now id to db j found legal =
    let moved = apply_transition-allowed now id to none db j found legal in
    let row = row_after now id to j.state db j found in
    (
      with_state now to none j,
      moved_db now id to none j.state db,
      rw (◌>>=◌, moved, row) refl,
      row,
      with_state-state now to none j,
    )

moves-twice :
    (now id : ℕ) (db : Db) (j : Job)
    → get_job id db.jobs ≡ some j
    → allows j.state cancelling ≡ true
    → Matches id (inl cancelled) (
        ((apply_transition now id cancelling none >> apply_transition now id cancelled none)
            >> reread id)
          db)
unfolding allows
moves-twice now id db j found legal =
    let moved = apply_transition-allowed now id cancelling none db j found legal in
    let j1 = with_state now cancelling none j in
    let row = row_after now id cancelling j.state db j found in
    let (k, after, ran, there, at) =
      moves-once now id cancelled (moved_db now id cancelling none j.state db) j1 row
        (rw (with_state-state now cancelling none j) refl) in
    (k, after, rw (◌>>=◌, moved) ran, there, at)

module _ (now id : ℕ) (db : Db) (j : Job) (found : get_job id db.jobs ≡ some j) where
  Behind : JobState → Type 0
  Behind s =
      Matches id (cancellation s) ((check_cancel s >> (cancel_moves now id s >> reread id)) db)

  by_state : (s : JobState) → j.state ≡ s → Behind s
  unfolding Behind check_cancel cancel_moves same allows
  by_state created e = moves-once now id cancelled db j found (rw e refl)
  by_state queued e = moves-twice now id db j found (rw e refl)
  by_state scheduling e = moves-once now id cancelling db j found (rw e refl)
  by_state starting e = moves-once now id cancelling db j found (rw e refl)
  by_state running e = moves-once now id cancelling db j found (rw e refl)
  by_state succeeded e = refl
  by_state failed e =
      rw
        (
          ◌>>=◌,
          subst
              (λ s.
                apply_transition now id cancelling none db ≡ err (illegal_transition s cancelling))
              e (apply_transition-refused now id cancelling none db j found (rw e refl)),
        )
        refl
  by_state retrying e =
      rw
        (
          ◌>>=◌,
          subst
              (λ s.
                apply_transition now id cancelling none db ≡ err (illegal_transition s cancelling))
              e (apply_transition-refused now id cancelling none db j found (rw e refl)),
        )
        refl
  by_state cancelling e = refl
  by_state cancelled e = refl

  -- Cancelling a job that is CREATED or QUEUED leaves it CANCELLED; one that is SCHEDULING, STARTING
  -- or RUNNING is left CANCELLING; any other is refused, with the error that its state calls for. The
  -- job that is returned is the row as it is then.
  pub cancel_job-Matches : Matches id (cancellation j.state) (cancel_job now id db)
  unfolding cancel_job Behind
  cancel_job-Matches = rw (require_job-some id db found, ◌>>=◌) (by_state j.state refl)
