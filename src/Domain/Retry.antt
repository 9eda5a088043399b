-- ===== src/Domain/Retry.antt =====
-- packages/server/src/domain/retry-policy.js: is a failed job worth running again? A reason is a list
-- of UTF-16 code units, and a pattern the list of its alternatives. The flag `i` joins the ASCII
-- letters only, since no other character is upper-cased into ASCII by it.
pub mod Matching
pub mod Decision
use Prim.Native.Char.{code}
use Prim.Native.String.{String}
use ash_ml.Base.{
  ℕ, ◌+◌, ◌-◌, Bool, true, false, ◌&&◌, Option, none, some, List, [], ◌∷◌, map, any, leb, ◌==◌,
  if◌then◌else◌, ◌or_else◌,
}
use ash_ml.Domain.JobState.{JobState, failed, same}

pub data RetryDecision : Type 0 where
  retry permanent exhausted not_applicable : RetryDecision

pub data Category : Type 0 where
  image container_config out_of_memory evicted workload_missing unschedulable : Category
  unknown not_failed : Category

abbrev pub codes : String → List ℕ
codes String.[] = []
codes (String.◌∷◌ c s) = code c ∷ codes s

-- What the flag `i` compares.
unfoldable pub fold_case : ℕ → ℕ
fold_case c = if leb b'a' c && leb c b'z' then c - 32 else c

-- A literal alternative stands at the start of the text.
unfoldable pub starts : List ℕ → List ℕ → Bool
unfolding fold_case
starts [] text = true
starts (p ∷ ps) [] = false
starts (p ∷ ps) (c ∷ text) = fold_case p == fold_case c && starts ps text

-- It stands somewhere in it.
unfoldable pub contains : List ℕ → List ℕ → Bool
unfolding starts
contains p [] = starts p []
contains p (c ∷ text) = let rest = contains p text in if starts p (c ∷ text) then true else rest

pub record Pattern : Type 0 where
  pub name : Category
  pub retryable : Bool
  pub alternatives : List (List ℕ)

-- The array `CATEGORIES`, in its order. An explanation is fixed by the name of its category.
unfoldable pub categories : List Pattern
categories =
    record {
      name = image;
      retryable = false;
      alternatives =
          codes "ImagePullBackOff"
          ∷ codes "ErrImagePull"
          ∷ codes "InvalidImageName"
          ∷ codes "ImageInspectError"
          ∷ codes "RegistryUnavailable"
          ∷ [];
    }
    ∷ record {
      name = container_config;
      retryable = false;
      alternatives =
          codes "CreateContainerConfigError"
          ∷ codes "CreateContainerError"
          ∷ codes "RunContainerError"
          ∷ [];
    }
    ∷ record {
      name = out_of_memory;
      retryable = false;
      alternatives = codes "OOMKilled" ∷ codes "exited 137" ∷ [];
    }
    ∷ record {
      name = evicted;
      retryable = true;
      alternatives =
          codes "Evicted"
          ∷ codes "NodeShutdown"
          ∷ codes "Preempt"
          ∷ codes "DisruptionTarget"
          ∷ codes "TaintManagerEviction"
          ∷ [];
    }
    ∷ record {
      name = workload_missing;
      retryable = true;
      alternatives = codes "disappeared before reporting a result" ∷ codes "NodeLost" ∷ [];
    }
    ∷ record {
      name = unschedulable;
      retryable = true;
      alternatives = codes "Unschedulable" ∷ codes "FailedScheduling" ∷ [];
    }
    ∷ []

-- `category.pattern.test(text)`.
unfoldable pub matches : Pattern → List ℕ → Bool
unfolding contains
matches p text = any (λ a. contains a text) p.alternatives

pub record Classified : Type 0 where
  pub category : Category
  pub retryable : Bool

unfoldable pub first_match : List Pattern → List ℕ → Classified
first_match [] text = record { category = unknown; retryable = true }
first_match (p ∷ ps) text =
    let rest = first_match ps text in
    if matches p text then record { category = p.name; retryable = p.retryable } else rest

unfoldable pub classify_failure : Option (List ℕ) → Classified
unfolding categories matches first_match
classify_failure reason = first_match categories (reason or_else [])

-- What `decideRetry` reads of a job.
pub record Failure : Type 0 where
  pub state : JobState
  pub attempt : Option ℕ
  pub max_retries : Option ℕ
  pub failure_reason : Option (List ℕ)

-- The messages, with what they show.
pub data Message : Type 0 where
  job_is : JobState → Message
  cannot_help : Category → Message
  no_retries : Message
  all_used : ℕ → Message
  retrying_as : ℕ → ℕ → Category → Bool → Message

pub record Verdict : Type 0 where
  pub decision : RetryDecision
  pub retryable : Bool
  pub category : Category
  pub message : Message
  pub attempt : ℕ
  pub remaining : ℕ

-- The body of `decideRetry` behind the test of the state. `remaining` is `Math.max(0, …)`, which is
-- what `-` on ℕ gives.
unfoldable pub decide_failed : ℕ → ℕ → Classified → Bool → Verdict
decide_failed attempt max_retries c can_resume =
    let remaining = max_retries - attempt in
    if c.retryable
    then if leb remaining 0
      then record {
        decision = exhausted;
        retryable = false;
        category = c.category;
        message = if max_retries == 0 then no_retries else all_used max_retries;
        attempt = attempt;
        remaining = 0;
      }
      else record {
        decision = retry;
        retryable = true;
        category = c.category;
        message = retrying_as (attempt + 1) max_retries c.category can_resume;
        attempt = attempt;
        remaining = remaining;
      }
    else record {
      decision = permanent;
      retryable = false;
      category = c.category;
      message = cannot_help c.category;
      attempt = attempt;
      remaining = remaining;
    }

unfoldable pub decide_retry : Failure → Bool → Verdict
unfolding decide_failed same
decide_retry job can_resume =
    let attempt = job.attempt or_else 0 in
    let max_retries = job.max_retries or_else 0 in
    if same job.state failed
    then decide_failed attempt max_retries (classify_failure job.failure_reason) can_resume
    else record {
      decision = not_applicable;
      retryable = false;
      category = not_failed;
      message = job_is job.state;
      attempt = attempt;
      remaining = max_retries - attempt;
    }
