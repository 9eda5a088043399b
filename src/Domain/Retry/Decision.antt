-- ===== src/Domain/Retry/Decision.antt =====
-- When `decideRetry` of retry-policy.js retries a job, and when it never does.
use ash_ml.Base.{
  ℕ, ◌≤◌, ◌<◌, ◌≡◌, ◌↔◌, refl, Bool, true, false, some, List, ◌++◌, arith, In, ◌or_else◌,
}
use ash_ml.Domain.JobState.{JobState, created, failed, same}
use ash_ml.Domain.Retry.{
  retry, permanent, exhausted, Failure, categories, classify_failure, decide_retry,
}
use ash_ml.Domain.Retry.Matching.{hopeless, first_match-hopeless}

same-failed : (s : JobState) → (same s failed ≡ true) ↔ (s ≡ failed)
unfolding same
same-failed failed = ((λ h. refl), λ h. refl)
same-failed created = ((λ h. cc), λ h. cc)
same-failed _ = ((λ h. cc), λ h. cc)

-- A job is retried exactly when it failed, its failure is of a category that a retry can change, and
-- its attempts are below its budget; it is declared permanent exactly when it failed of another
-- category, and exhausted exactly when only the budget is missing. A checkpoint plays no part.
pub decide_retry_iff :
    (job : Failure) (can_resume : Bool)
    → let decision = (decide_retry job can_resume).decision in
      let can_change = (classify_failure job.failure_reason).retryable in
      let attempt = job.attempt or_else 0 in
      let budget = job.max_retries or_else 0 in
      ((decision ≡ retry) ↔ ((job.state ≡ failed) × (can_change ≡ true) × (attempt < budget)))
      × ((decision ≡ permanent) ↔ ((job.state ≡ failed) × (can_change ≡ false)))
      × ((decision ≡ exhausted) ↔ ((job.state ≡ failed) × (can_change ≡ true) × (budget ≤ attempt)))
unfolding decide_retry
decide_retry_iff job can_resume =
    let is_failed = same-failed job.state in
    (
      ((λ h. ground (arith, is_failed, h)), λ h. ground (arith, is_failed, h)),
      ((λ h. ground (arith, is_failed, h)), λ h. ground (arith, is_failed, h)),
      ((λ h. ground (arith, is_failed, h)), λ h. ground (arith, is_failed, h)),
    )

classify-hopeless :
    (before text after : List ℕ)
    → In text (hopeless categories)
    → (classify_failure (some (before ++ (text ++ after)))).retryable ≡ false
unfolding classify_failure
classify-hopeless before text after m = first_match-hopeless categories before text after m

-- A failed job whose reason holds, anywhere, one of the texts of the image, container-configuration
-- and memory categories is never retried, at any budget and with any checkpoint.
hopeless-permanent :
    (job : Failure) (can_resume : Bool) (before text after : List ℕ)
    → job.state ≡ failed
    → job.failure_reason ≡ some (before ++ (text ++ after))
    → In text (hopeless categories)
    → (decide_retry job can_resume).decision ≡ permanent
hopeless-permanent job can_resume before text after f r m =
    ((decide_retry_iff job can_resume).1).1 (f, rw r (classify-hopeless before text after m))
