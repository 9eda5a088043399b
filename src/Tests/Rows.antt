-- ===== src/Tests/Rows.antt =====
-- A row of training_jobs.
use ash_ml.Base.{ℕ, Option, none, some, []}
use ash_ml.Domain.JobState.{JobState}
use ash_ml.Services.Store.{Job, high}

abbrev pub job : ℕ → JobState → Option ℕ → Job
job id state node = record {
  id = id;
  project = 5;
  state = state;
  priority = high;
  resources = record { cpu = 4; memory_bytes = 16; gpu = 1; gpu_memory_min_bytes = 0 };
  attempt = 0;
  max_retries = 3;
  failure_reason = [];
  pending_reason = [];
  retry_decision = none;
  retry_decided_at = none;
  resume_artifact = none;
  node = node;
  placement_reason = [];
  k8s_job_name = [];
  queued_at = some 1;
  started_at = none;
  finished_at = none;
}
