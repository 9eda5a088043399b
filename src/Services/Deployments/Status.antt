-- ===== src/Services/Deployments/Status.antt =====
-- `statusFromObservation` and `rollUpStatus` of packages/server/src/services/deployments.js. The texts
-- of errors are rendered by an argument, from the data that they show.
use ash_ml.Base.{
  ℕ, Bool, false, not, ◌&&◌, ◌||◌, Option, none, some, List, keep, any, sum_by, length, ltb, leb,
  ◌==◌, if◌then◌else◌,
}
use ash_ml.Services.Tables.{Text}
use ash_ml.Services.Jobs.{is_empty}
use ash_ml.Services.Deployments.Rows.{
  DeploymentStatus, progressing, ready, degraded, failed, stopped, same_status, ServedVersion,
  Judgement,
}

-- What `observeDeployment` reports of a Deployment that exists.
pub record Pods : Type 0 where
  pub desired : ℕ
  pub ready_pods : ℕ
  pub reason : Option Text
  pub pending_reason : Option Text

-- The messages that are made here; `described` are the versions that one names.
pub data Message : Type 0 where
  gone nothing_takes_traffic : Message
  all_failed not_answering partly_answering : (described : List ServedVersion) → Message
  not_created : ℕ → Message

unfoldable pub was_serving : Option DeploymentStatus → Bool
was_serving none = false
was_serving (some s) = same_status s ready || same_status s degraded

-- `if (reason)`: an empty text is falsy.
unfoldable pub has_text : Option Text → Bool
has_text none = false
has_text (some t) = not (is_empty t)

unfoldable pub takes_traffic : ServedVersion → Bool
takes_traffic t = ltb 0 t.traffic_weight

unfoldable pub is_failed : ServedVersion → Bool
is_failed t = same_status t.status failed

unfoldable pub is_broken : ServedVersion → Bool
is_broken t = same_status t.status failed || same_status t.status degraded

unfoldable pub is_unready : ServedVersion → Bool
is_unready t = not (same_status t.status ready)

module _ (render : Message → Text) where
  unfoldable pub status_from_pods : Pods → Option DeploymentStatus → Judgement
  status_from_pods pods previous =
      if leb pods.desired pods.ready_pods && ltb 0 pods.desired
      then record { status = ready; ready_replicas = pods.ready_pods; last_error = none }
      else if pods.desired == 0
      then record { status = stopped; ready_replicas = pods.ready_pods; last_error = none }
      else if has_text pods.reason
      then record { status = failed; ready_replicas = pods.ready_pods; last_error = pods.reason }
      else record {
        status = if was_serving previous then degraded else progressing;
        ready_replicas = pods.ready_pods;
        last_error = if was_serving previous then pods.pending_reason else none;
      }

  unfoldable pub status_from_observation : Option Pods → Option DeploymentStatus → Judgement
  status_from_observation none previous = record {
    status = failed;
    ready_replicas = 0;
    last_error = some (render gone);
  }
  status_from_observation (some pods) previous = status_from_pods pods previous

  -- The last two branches, with the versions that are broken and those that are not ready.
  unfoldable pub roll_up_answering : List ServedVersion → Bool → Judgement
  roll_up_answering serving front_door_in_place =
      let broken = keep is_broken serving in
      let total = sum_by (λ t. t.ready_replicas) serving in
      if ltb 0 (length broken)
      then record {
        status = degraded;
        ready_replicas = total;
        last_error = some (render (partly_answering broken));
      }
      else if (length (keep is_unready serving) == 0) && front_door_in_place
      then record { status = ready; ready_replicas = total; last_error = none }
      else record { status = progressing; ready_replicas = total; last_error = none }

  unfoldable pub roll_up_serving :
      List ServedVersion → (front_ready front_door_in_place : Bool) → DeploymentStatus → Judgement
  roll_up_serving serving front_ready front_door_in_place previous =
      let total = sum_by (λ t. t.ready_replicas) serving in
      if not (any (λ t. not (is_failed t)) serving)
      then record {
        status = failed;
        ready_replicas = total;
        last_error = some (render (all_failed serving));
      }
      else if not front_ready
      then record {
        status = if was_serving (some previous) then degraded else progressing;
        ready_replicas = total;
        last_error =
            if was_serving (some previous)
            then some (render (not_answering (keep is_unready serving)))
            else none;
      }
      else roll_up_answering serving front_door_in_place

  unfoldable pub roll_up_status :
      List ServedVersion → (front_ready front_door_in_place : Bool) → DeploymentStatus → Judgement
  roll_up_status targets front_ready front_door_in_place previous =
      let serving = keep takes_traffic targets in
      if length serving == 0
      then record {
        status = stopped;
        ready_replicas = 0;
        last_error = some (render nothing_takes_traffic);
      }
      else roll_up_serving serving front_ready front_door_in_place previous
