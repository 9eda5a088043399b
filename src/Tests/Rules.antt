-- ===== src/Tests/Rules.antt =====
-- Jobs, quotas, retries and roles at concrete inputs.
use ash_ml.Base.{◌≤◌, ◌<◌, ◌≡◌, ◌≢◌, ◌⊎◌, ◌↔◌, true, false, none, some, List, [], ◌∷◌, map, pos}
use Prim.Native.String.{String}
use ash_ml.Domain.JobState.{JobState, failed, succeeded, name, transition, moved}
use ash_ml.Domain.JobState.Graph.{◌⟶◌, transition_iff}
use ash_ml.Domain.Quota.{Request, Quota, Usage, check_quota}
use ash_ml.Domain.Quota.Order.{Affords, check_quota-allowed_iff}
use ash_ml.Domain.Retry.{
  codes, retry, permanent, exhausted, Failure, fold_case, classify_failure, decide_retry,
}
use ash_ml.Domain.Retry.Matching.{classify_failure-fold_case}
use ash_ml.Domain.Retry.Decision.{decide_retry_iff}
use ash_ml.Domain.Roles.{
  project_write, run_report, artifact_fetch, routing_read, user, run, serving, Scope, can,
}
use ash_ml.Domain.Roles.Users.{Holds, user_can_iff}
use ash_ml.Domain.Roles.Workloads.{OwnReport, run-can_iff, serving-can_iff}

transition_iff_example :
    (transition "RUNNING" "SUCCEEDED" ≡ moved succeeded)
    ↔ ((s : JobState) × (name s ≡ "RUNNING") × (name succeeded ≡ "SUCCEEDED") × (s ⟶ succeeded))
transition_iff_example = transition_iff "RUNNING" "SUCCEEDED" succeeded

-- Four GPUs of eight are in use.
abbrev half_used : Usage
half_used = record { gpu = pos 4; cpu = pos 8; memory_bytes = pos 64; jobs = pos 2 }

abbrev eight_gpus : Quota
eight_gpus = record { gpu_limit = 8; cpu_limit = 0; memory_bytes = 0; job_limit = 5 }

abbrev six_gpus : Request
six_gpus = record { cpu = 4; memory_bytes = 16; gpu = 6; gpu_memory_min_bytes = 0 }

check_quota-allowed_iff_example :
    (check_quota six_gpus eight_gpus half_used ≡ none)
    ↔ (Affords 5 (pos 2) 1 × Affords 8 (pos 4) 6 × Affords 0 (pos 8) 4 × Affords 0 (pos 64) 16)
check_quota-allowed_iff_example = check_quota-allowed_iff six_gpus eight_gpus half_used

abbrev killed : Failure
killed = record {
  state = failed;
  attempt = some 1;
  max_retries = some 3;
  failure_reason = some (codes "x: OOMKilled!");
}

decide_retry_iff_example :
    let decision = (decide_retry killed true).decision in
    let can_change = (classify_failure killed.failure_reason).retryable in
    ((decision ≡ retry) ↔ ((killed.state ≡ failed) × (can_change ≡ true) × (1 < 3)))
    × ((decision ≡ permanent) ↔ ((killed.state ≡ failed) × (can_change ≡ false)))
    × ((decision ≡ exhausted) ↔ ((killed.state ≡ failed) × (can_change ≡ true) × (3 ≤ 1)))
decide_retry_iff_example = decide_retry_iff killed true

classify_failure-fold_case_example :
    classify_failure (some (map fold_case (codes "Evicted")))
    ≡ classify_failure (some (codes "Evicted"))
classify_failure-fold_case_example = classify_failure-fold_case (codes "Evicted")

abbrev in_vision : Scope
in_vision = record {
  project_id = some "vision";
  job_id = some "j1";
  experiment_id = none;
  deployment_id = some "d1";
}

abbrev editor_of_vision : List (String × String)
editor_of_vision = ("vision", "EDITOR") ∷ []

user_can_iff_example : (can (some (user false editor_of_vision)) project_write in_vision ≡ true) ↔ (
    (project_write ≢ run_report)
    × ((false ≡ true) ⊎ Holds editor_of_vision project_write in_vision))
user_can_iff_example = user_can_iff false editor_of_vision project_write in_vision

run-can_iff_example : (can (some (run "j1" "vision" none)) run_report in_vision ≡ true) ↔ (
    ((run_report ≡ run_report) × OwnReport "j1" none in_vision)
    ⊎ ((run_report ≡ artifact_fetch) × (in_vision.project_id ≡ some "vision")))
run-can_iff_example = run-can_iff "j1" "vision" none run_report in_vision

serving-can_iff_example : (can (some (serving "d1" "vision")) routing_read in_vision ≡ true) ↔ (
    ((routing_read ≡ artifact_fetch) × (in_vision.project_id ≡ some "vision"))
    ⊎ ((routing_read ≡ routing_read) × (in_vision.deployment_id ≡ some "d1")))
serving-can_iff_example = serving-can_iff "d1" "vision" routing_read in_vision
