-- ===== src/Services/Deployments/Apply.antt =====
-- `applyDesiredState`, `applyRouter`, `removeRouterIfUnused` and `reap` of
-- packages/server/src/services/deployments.js. A manifest that cannot be built throws where the call
-- with it does.
pub mod Kept
pub mod Tidied
pub mod Prepared
pub mod Launched
use ash_ml.Base.{
  ℕ, suc, Bool, true, false, not, ◌&&◌, ◌||◌, Option, none, some, List, [], ◌∷◌, map, keep, any,
  ltb, ◌==◌, if◌then◌else◌,
}
use ash_ml.Services.Tables.{Text}
use ash_ml.Services.Deployments.Rows.{
  DeploymentStatus, failed, ObjectName, front_name, router_name, target_name, ServedVersion,
  Deployment, Judgement, record_target_launch, record_launch, record_serving_version, record_router,
  record_observation,
}
use ash_ml.Services.Deployments.Status.{Pods, Message, not_created}
use ash_ml.Services.Deployments.Front.{
  Front, on_nothing, on_router, on_version, desired_front, current_front, same_front, judge,
}
use ash_ml.Services.Deployments.Cluster.{
  Faults, Object, Service, Selector, selects_router, selects_version, World, did, Failure,
  deployment_not_found, Act, ◌>>=◌, ◌>>◌, pure, fail, catch, update_row, read_row, apply_deployment,
  apply_service, apply_secret, delete_deployment, list_names,
}

-- `spec.replicas` of `buildTargetManifest`. (A target's own number is never missing.)
unfoldable pub wanted_replicas : Option ℕ → ServedVersion → ℕ
wanted_replicas none t = if ltb 0 t.traffic_weight then t.replicas else 0
wanted_replicas (some v) t = if ltb 0 t.traffic_weight || (t.version == v) then t.replicas else 0

unfoldable pub target_object : Deployment → ServedVersion → Object
target_object d t = record {
  name = target_name t.version;
  replicas = wanted_replicas d.serving_version t;
}

-- `ROUTER_REPLICAS`.
abbrev pub router_replicas : ℕ
router_replicas = 2

unfoldable pub selector_of : Option ℕ → Selector
selector_of none = selects_router
selector_of (some v) = selects_version v

-- `front.kind === 'version' ? front.version : null`.
unfoldable pub version_of : Front → Option ℕ
version_of on_nothing = none
version_of on_router = none
version_of (on_version v) = some v

-- What `reap` spares.
unfoldable pub is_spared : Deployment → ObjectName → Bool
is_spared d front_name = false
is_spared d router_name = false
is_spared d (target_name v) =
    any (λ t. t.version == v) d.targets || elim d.serving_version [ none ↦ false | some s ↦ s == v ]

module _ (render : Message → Text) (faults : Faults) (pods : ℕ → Pods) where
  -- `ensureServingToken`, and the Secret where the token is new.
  unfoldable pub ensure_secret : Act (Unit {0})
  ensure_secret w =
      if w.token then did tt w else apply_secret faults pods (record w { token = true })

  -- The body of the loop over the targets.
  unfoldable pub apply_target : Deployment → ServedVersion → Act (Unit {0})
  apply_target d t =
      catch
        (apply_deployment faults pods (target_object d t)
          >> apply_service faults pods
              record { name = target_name t.version; selector = selects_version t.version })
        (λ e.
          update_row (
            record_observation record {
              status = failed;
              ready_replicas = d.ready_replicas;
              last_error = some (render (not_created t.version));
            })
          >> fail e)
      >> update_row (record_target_launch t.version (target_name t.version))

  unfoldable pub apply_targets : Deployment → List ServedVersion → Act (Unit {0})
  apply_targets d [] = pure tt
  apply_targets d (t ∷ ts) = apply_target d t >> apply_targets d ts

  unfoldable pub is_named_router : Option ObjectName → Bool
  is_named_router none = false
  is_named_router (some router_name) = true
  is_named_router (some front_name) = false
  is_named_router (some (target_name v)) = false

  unfoldable pub apply_router : Deployment → Act Deployment
  apply_router d =
      if same_front (desired_front d.targets) on_router
      then (apply_deployment faults pods record { name = router_name; replicas = router_replicas }
          >> (if is_named_router d.router_k8s_name
              then pure d
              else (update_row (record_router (some router_name))
                  >> pure (record d { router_k8s_name = some router_name }))))
      else pure d

  unfoldable pub remove_router : Deployment → Option ObjectName → Act Deployment
  remove_router d none = pure d
  remove_router d (some name) =
      if same_front (desired_front d.targets) on_router || same_front (current_front d) on_router
      then pure d
      else (delete_deployment faults pods name
          >> update_row (record_router none)
          >> pure (record d { router_k8s_name = none }))

  unfoldable pub remove_router_if_unused : Deployment → Act Deployment
  remove_router_if_unused d = remove_router d d.router_k8s_name

  -- The loop of `reap` over the objects that exist.
  unfoldable pub reap_all : Deployment → List ObjectName → Act (Unit {0})
  reap_all d [] = pure tt
  reap_all d (name ∷ names) =
      (if is_spared d name then pure tt else delete_deployment faults pods name) >> reap_all d names

  -- Where the listing throws, `reap` ends without an error.
  unfoldable pub reap : Act (Unit {0})
  reap = read_row >>= λ row. elim row [
    | none ↦ pure tt
    | some d ↦ catch (list_names faults pods) (λ e. pure []) >>= reap_all d
  ]

  -- The front Service of a deployment that has none.
  unfoldable pub launch : Deployment → Option ObjectName → Act Deployment
  launch d (some name) = pure d
  launch d none =
      let version = version_of (desired_front d.targets) in
      apply_service faults pods record { name = front_name; selector = selector_of version }
      >> (update_row (record_launch front_name) >> update_row (record_serving_version version))
      >> pure (record d { k8s_name = some front_name; serving_version = version })

  unfoldable pub launch_front : Deployment → Act Deployment
  launch_front d = launch d d.k8s_name

  unfoldable pub judge_again : DeploymentStatus → Act (Unit {0})
  judge_again previous = read_row >>= λ row. elim row [
    | none ↦ pure tt
    | some fresh ↦ update_row (record_observation (judge render fresh fresh.targets previous))
  ]

  unfoldable pub apply_to : Deployment → Act (Unit {0})
  apply_to d =
      ensure_secret
      >> apply_targets d d.targets
      >> (apply_router d >>= λ routed. launch_front routed >>= λ launched.
          judge_again launched.status >> (remove_router_if_unused launched >>= λ _. reap))

  unfoldable pub apply_desired_state : Act (Unit {0})
  apply_desired_state =
      read_row >>= λ row. elim row [ none ↦ fail deployment_not_found | some d ↦ apply_to d ]
