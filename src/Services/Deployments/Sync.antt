-- ===== src/Services/Deployments/Sync.antt =====
-- `moveFrontDoor`, `scaleDownRetired` and `syncDeployments` of
-- packages/server/src/services/deployments.js: one turn of the loop over the deployments.
pub mod Seen
pub mod Moved
use ash_ml.Base.{
  ℕ, Bool, true, false, not, ◌&&◌, ◌||◌, Option, none, some, List, [], ◌∷◌, map, keep, any, find,
  ltb, ◌==◌, is_some, if◌then◌else◌,
}
use ash_ml.Services.Tables.{Text}
use ash_ml.Services.Jobs.{same_text}
use ash_ml.Services.Deployments.Rows.{
  DeploymentStatus, ready, stopped, same_status, ObjectName, front_name, ServedVersion, Deployment,
  Judgement, observed_target, record_target_observation, record_router_observation,
  record_serving_version, record_observation,
}
use ash_ml.Services.Deployments.Status.{Pods, Message, status_from_observation}
use ash_ml.Services.Deployments.Front.{
  Front, on_nothing, on_router, on_version, desired_front, current_front, same_front, front_ready,
  judge,
}
use ash_ml.Services.Deployments.Cluster.{
  Faults, World, did, Act, ◌>>=◌, ◌>>◌, pure, catch, update_row, read_row, apply_deployment,
  patch_selector, observe_deployment,
}
use ash_ml.Services.Deployments.Apply.{
  target_object, selector_of, version_of, remove_router_if_unused, reap,
}

-- `(a ?? null) !== (b ?? null)` on two errors.
unfoldable pub same_error : Option Text → Option Text → Bool
same_error none none = true
same_error (some a) (some b) = same_text a b
same_error none (some b) = false
same_error (some a) none = false

unfoldable pub target_changed : Judgement → ServedVersion → Bool
target_changed next t =
    not (same_status next.status t.status)
    || not (next.ready_replicas == t.ready_replicas)
    || not (same_error next.last_error t.last_error)

unfoldable pub deployment_changed : Judgement → Deployment → Bool
deployment_changed next d =
    not (same_status next.status d.status)
    || not (next.ready_replicas == d.ready_replicas)
    || not (same_error next.last_error d.last_error)

unfoldable pub router_changed : Judgement → Deployment → Bool
router_changed next d =
    not (elim d.router_status [ none ↦ false | some s ↦ same_status next.status s ])
    || not (next.ready_replicas == d.router_ready_replicas)

abbrev pub when : Bool → Act (Unit {0}) → Act (Unit {0})
when b m = if b then m else pure tt

-- The versions out of rotation that the address does not resolve to.
unfoldable pub is_retired : Option ℕ → ServedVersion → Bool
is_retired serving t =
    (t.traffic_weight == 0)
    && not (elim serving [ none ↦ false | some s ↦ t.version == s ])
    && is_some t.k8s_name

module _ (render : Message → Text) (faults : Faults) (pods : ℕ → Pods) where
  -- The body of the loop over the targets: the target as it was just observed.
  unfoldable pub observe_named : ServedVersion → ObjectName → Act ServedVersion
  observe_named t name = observe_deployment faults pods name >>= λ seen.
      let next = status_from_observation render seen (some t.status) in
      when (target_changed next t) (update_row (record_target_observation t.version next))
      >> pure (observed_target next t)

  unfoldable pub observe_launched : ServedVersion → Option ObjectName → Act ServedVersion
  observe_launched t none = pure t
  observe_launched t (some name) = observe_named t name

  unfoldable pub observe_target : ServedVersion → Act ServedVersion
  observe_target t = observe_launched t t.k8s_name

  unfoldable pub observe_targets : List ServedVersion → Act (List ServedVersion)
  observe_targets [] = pure []
  observe_targets (t ∷ ts) =
      observe_target t >>= λ seen. observe_targets ts >>= λ rest. pure (seen ∷ rest)

  unfoldable pub observe_router_named : Deployment → Option ObjectName → Act Deployment
  observe_router_named d none = pure d
  observe_router_named d (some name) = observe_deployment faults pods name >>= λ seen.
      let next = status_from_observation render seen d.router_status in
      when (router_changed next d) (update_row (record_router_observation next))
      >> pure (record_router_observation next d)

  unfoldable pub observe_router : Deployment → Act Deployment
  observe_router d = observe_router_named d d.router_k8s_name

  -- Whether it moved.
  unfoldable pub move_front_door : Deployment → Act Bool
  move_front_door d =
      let wanted = desired_front d.targets in
      if same_front wanted on_nothing || same_front (current_front d) wanted
      then pure false
      else if not (front_ready wanted d d.targets)
      then pure false
      else (patch_selector faults pods front_name (selector_of (version_of wanted))
          >> update_row (record_serving_version (version_of wanted))
          >> pure true)

  -- Where a call throws, the loop goes on.
  unfoldable pub scale_down : Deployment → List ServedVersion → Act (Unit {0})
  scale_down d [] = pure tt
  scale_down d (t ∷ ts) =
      when (is_retired d.serving_version t)
        (catch (apply_deployment faults pods (target_object d t)) (λ e. pure tt))
      >> scale_down d ts

  unfoldable pub tidy_up : Deployment → Act (Unit {0})
  tidy_up d =
      scale_down d d.targets
      >> (remove_router_if_unused render faults pods d >>= λ _. reap render faults pods)

  -- With the front door where it stands after the move.
  unfoldable pub after_move : Deployment → Bool → Act Deployment
  after_move d false = pure d
  after_move d true =
      let moved = record_serving_version (version_of (desired_front d.targets)) d in
      tidy_up moved >> pure moved

  unfoldable pub sync_observed : Deployment → Deployment → Act (Unit {0})
  sync_observed before d = move_front_door d >>= λ moved. after_move d moved >>= λ settled.
      let next = judge render settled settled.targets before.status in
      when (deployment_changed next before) (update_row (record_observation next))

  unfoldable pub sync_deployment : Deployment → Act (Unit {0})
  sync_deployment d = observe_targets d.targets >>= λ observed.
      observe_router (record d { targets = observed }) >>= sync_observed d

  -- `listActiveDeployments`.
  unfoldable pub is_active : Deployment → Bool
  is_active d = not (same_status d.status stopped) && is_some d.k8s_name

  -- Where anything throws, the pass ends for this deployment.
  unfoldable pub sync : Act (Unit {0})
  sync = read_row >>= λ row. elim row [
    | none ↦ pure tt
    | some d ↦ when (is_active d) (catch (sync_deployment d) (λ e. pure tt))
  ]
