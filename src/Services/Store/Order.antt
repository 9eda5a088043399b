-- ===== src/Services/Store/Order.antt =====
-- The queries of repos/jobs.js that order their rows and take the first: `lockNextQueuedJob` and
-- `latestResumableCheckpoint`. Where the order leaves two rows equal, the database may take either;
-- here it is the one that is listed first.
use ash_ml.Base.{
  ℕ, Bool, true, false, not, ◌&&◌, ◌||◌, Option, none, some, List, [], ◌∷◌, any, keep, ltb, ◌==◌,
  if◌then◌else◌,
}
use ash_ml.Domain.JobState.{queued, same}
use ash_ml.Services.Store.{Priority, high, medium, low, Job, Checkpoint}

module _ {ℓ} {A : Type ℓ} (before : A → A → Bool) where
  abbrev better : A → Option A → Option A
  better x none = some x
  better x (some y) = if before y x then some y else some x

  -- `ORDER BY … LIMIT 1`.
  unfoldable pub first_by : List A → Option A
  first_by [] = none
  first_by (x ∷ xs) = better x (first_by xs)

unfoldable pub priority_rank : Priority → ℕ
priority_rank high = 0
priority_rank medium = 1
priority_rank low = 2

-- `a < b` on times, a null after every time.
unfoldable pub sooner : Option ℕ → Option ℕ → Bool
sooner none b = false
sooner (some a) none = true
sooner (some a) (some b) = ltb a b

unfoldable pub queued_before : Job → Job → Bool
unfolding priority_rank sooner
queued_before a b =
    ltb (priority_rank a.priority) (priority_rank b.priority)
    || (priority_rank a.priority == priority_rank b.priority && sooner a.queued_at b.queued_at)

-- `locked` are the rows that other transactions hold, which SKIP LOCKED passes over.
unfoldable pub is_claimable : List ℕ → List ℕ → Job → Bool
unfolding same
is_claimable exclude locked j =
    same j.state queued
    && (not (any (λ id. id == j.id) exclude) && not (any (λ id. id == j.id) locked))

unfoldable pub lock_next_queued_job : List ℕ → List ℕ → List Job → Option Job
unfolding is_claimable first_by queued_before
lock_next_queued_job exclude locked jobs =
    first_by queued_before (keep (is_claimable exclude locked) jobs)

-- `ORDER BY step DESC NULLS LAST, created_at DESC`.
unfoldable pub further : Option ℕ → Option ℕ → Bool
further none b = false
further (some a) none = true
further (some a) (some b) = ltb b a

unfoldable pub resumes_before : Checkpoint → Checkpoint → Bool
unfolding further
resumes_before a b =
    further a.step b.step || (not (further b.step a.step) && ltb b.created_at a.created_at)

unfoldable pub latest_resumable_checkpoint : ℕ → List Checkpoint → Option Checkpoint
unfolding first_by resumes_before
latest_resumable_checkpoint job checkpoints =
    first_by resumes_before (keep (λ c. c.job == job && c.ready) checkpoints)
