-- ===== src/Tests/Rulings.antt =====
-- Claims and rulings at concrete tables.
use ash_ml.Base.{◌≡◌, ◌⊎◌, refl, true, false, none, some, List, [], ◌∷◌, In, arith}
use ash_ml.Domain.JobState.{queued, scheduling, starting, failed, same}
use ash_ml.Domain.JobState
use ash_ml.Domain.Retry
use ash_ml.Domain.Retry.{codes, Verdict, not_applicable}
use ash_ml.Services.Store.{Job, Db, Checkpoint, get_job, with_state, awaits_retry_decision}
use ash_ml.Services.Store
use ash_ml.Services.Store.Order.{latest_resumable_checkpoint, resumes_before, first_by, further}
use ash_ml.Services.Store.Queue.{Waits, IsNoFurther, latest_resumable_checkpoint-first}
use ash_ml.Services.Jobs.{claim_next_job}
use ash_ml.Services.Retries.{consider_retry, applied, declined, failure_of}
use ash_ml.Services.Observation.{Phase}
use ash_ml.Services.Jobs.{cancel_job, record_observation}
use ash_ml.Services.Jobs.Seen.{Sees, seen, record_observation-Sees}
use ash_ml.Services.Jobs.Cancellation.{cancellation, Matches, cancel_job-Matches}
use ash_ml.Services.Jobs.Log.{moved_db}
use ash_ml.Services.Jobs.Claim.{IsNext, claim_next_job-IsNext}
use ash_ml.Services.Jobs.Ruling.{
  verdict_of, ruled, again, consider_retry-not_failed, consider_retry-requeues,
}
use ash_ml.Tests.Rows.{job}

abbrev early : Checkpoint
early = record { id = 31; job = 2; ready = true; step = some 100; created_at = 9 }

abbrev late : Checkpoint
late = record { id = 32; job = 2; ready = true; step = some 200; created_at = 8 }

abbrev checkpoints : List Checkpoint
checkpoints = early ∷ late ∷ []

abbrev db : Db
db = record {
  jobs = job 1 queued none ∷ job 2 failed (some 1) ∷ [];
  events = [];
  checkpoints = checkpoints;
  passes = [];
}

claim_next_job-IsNext_example :
    (((j : Job) → In j db.jobs → ¬ Waits [] [] j)
      × (claim_next_job 9 [] [] db ≡ Store.ok (none, db)))
    ⊎ ((j : Job) × IsNext [] [] db.jobs j
        × (claim_next_job 9 [] [] db
            ≡ Store.ok
                (some (with_state 9 scheduling none j), moved_db 9 j.id scheduling none queued db)))
claim_next_job-IsNext_example =
    claim_next_job-IsNext 9 [] [] db (((λ (e : 2 ≡ 1). omega (arith, e)), tt), (tt, tt))

latest_resumable_checkpoint-first_example :
    In late checkpoints
    × (late.job ≡ 2)
    × (late.ready ≡ true)
    × ((d : Checkpoint) → In d checkpoints → d.job ≡ 2 → d.ready ≡ true → IsNoFurther d late)
unfolding latest_resumable_checkpoint first_by resumes_before further
latest_resumable_checkpoint-first_example =
    latest_resumable_checkpoint-first 2 checkpoints late refl

consider_retry-not_failed_example :
    (after : Db) × (v : Verdict) × (consider_retry 9 1 db ≡ Store.ok (declined v, after))
    × (get_job 1 after.jobs ≡ some (ruled 9 not_applicable (job 1 queued none)))
    × (awaits_retry_decision (
          with_state 20 failed
            (some (codes "NodeLost"))
            (ruled 9 not_applicable (job 1 queued none)))
        ≡ false)
unfolding get_job JobState.name
consider_retry-not_failed_example =
    consider_retry-not_failed 9 20 1 (codes "NodeLost") db (job 1 queued none) refl refl (λ e. cc e)

consider_retry-requeues_example :
    let checkpoint = latest_resumable_checkpoint 2 checkpoints in
    (after : Db) × (consider_retry 9 2 db
      ≡ Store.ok (applied (verdict_of 2 (job 2 failed (some 1)) db) (some 1) checkpoint, after))
    × (get_job 2 after.jobs ≡ some (again 9 checkpoint (job 2 failed (some 1))))
unfolding get_job failure_of Retry.decide_retry Retry.decide_failed Retry.classify_failure
consider_retry-requeues_example =
    consider_retry-requeues 9 2 db (job 2 failed (some 1)) refl refl refl refl

cancel_job-Matches_example : Matches 1 (cancellation queued) (cancel_job 9 1 db)
unfolding get_job
cancel_job-Matches_example = cancel_job-Matches 9 1 db (job 1 queued none) refl

abbrev starting_db : Db
starting_db = record {
  jobs = job 3 starting (some 1) ∷ [];
  events = [];
  checkpoints = [];
  passes = [];
}

record_observation-Sees_example :
    Sees 3 starting
      (seen starting Phase.succeeded)
      (record_observation 9 3 (record { phase = Phase.succeeded; reason = none }) starting_db)
unfolding get_job
record_observation-Sees_example =
    record_observation-Sees 9 3 (record { phase = Phase.succeeded; reason = none }) starting_db
      (job 3 starting (some 1)) refl
