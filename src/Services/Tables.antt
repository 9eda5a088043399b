-- ===== src/Services/Tables.antt =====
-- The tables that packages/server/src/repos/jobs.js and scheduling.js keep, the columns that the
-- services read, and the errors that they throw. Names, specs, messages and the details of events
-- and of decisions are left out, and so is updated_at; a reason is a text, since the code compares
-- and classifies it.
use ash_ml.Base.{ℕ, Bool, Option, List}
use ash_ml.Domain.JobState.{JobState}
use ash_ml.Domain.Quota.{Request}
use ash_ml.Domain.Retry.{RetryDecision}

abbrev pub Text : Type 0
Text = List ℕ

pub data Priority : Type 0 where
  high medium low : Priority

pub record Job : Type 0 where
  pub id : ℕ
  pub project : ℕ
  pub state : JobState
  pub priority : Priority
  pub resources : Request
  pub attempt : ℕ
  pub max_retries : ℕ
  pub failure_reason : Text
  pub pending_reason : Text
  pub retry_decision : Option RetryDecision
  pub retry_decided_at : Option ℕ
  pub resume_artifact : Option ℕ
  pub node : Option ℕ
  pub placement_reason : Text
  pub k8s_job_name : Text
  pub queued_at : Option ℕ
  pub started_at : Option ℕ
  pub finished_at : Option ℕ

pub data EventType : Type 0 where
  job_created job_queued job_scheduling job_starting job_started job_completed : EventType
  job_failed job_retrying job_cancelling job_cancelled job_state_changed : EventType
  job_waiting job_retry_declined : EventType

pub record Event : Type 0 where
  pub job : ℕ
  pub event_type : EventType
  pub from_state : Option JobState
  pub to_state : Option JobState

-- A checkpoint: an artifact of kind `checkpoint`.
pub record Checkpoint : Type 0 where
  pub id : ℕ
  pub job : ℕ
  pub ready : Bool
  pub step : Option ℕ
  pub created_at : ℕ

-- A row of scheduling_decisions, and the rows of one pass with the same pass_id.
pub record Considered : Type 0 where
  pub node_id : Option ℕ
  pub node_name : Text
  pub outcome : Text
  pub reason : Text

pub record Pass : Type 0 where
  pub job : ℕ
  pub attempt : ℕ
  pub decisions : List Considered
  pub repeat_count : ℕ
  pub last_seen_at : ℕ

-- The events and the passes are listed newest first.
pub record Db : Type 0 where
  pub jobs : List Job
  pub events : List Event
  pub checkpoints : List Checkpoint
  pub passes : List Pass

pub data Error : Type 0 where
  job_not_found job_vanished no_node project_not_found experiment_not_found : Error
  experiment_project_mismatch unknown_k8s_phase : Error
  already_cancelled : JobState → Error
  job_already_finished : Error
  illegal_transition : JobState → JobState → Error
