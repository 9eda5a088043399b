-- ===== src/Tests/Deploying.antt =====
-- The deployment service at a short history: version 1 is deployed and observed, a tenth of the
-- traffic goes to version 2, the router becomes ready, and the address moves onto it.
use ash_ml.Base.{◌==◌, ℕ, ◌≡◌, refl, Bool, true, false, Option, none, some, List, [], ◌∷◌}
use ash_ml.Services.Tables.{Text}
use ash_ml.Domain.Retry.{codes}
use ash_ml.Domain.ArtifactStatus
use ash_ml.Domain.ModelStatus
use ash_ml.Domain.Routing.Weights.{whole}
use ash_ml.Services.Deployments.Rows.{front_name}
use ash_ml.Services.Deployments.Status.{Pods, Message}
use ash_ml.Services.Deployments.Cluster.{
  Write, writes_front, writes_selector, Honest, Faults, Service, selects_router, service_of,
}
use ash_ml.Services.Deployments.Traffic.{Version, Registry}
use ash_ml.Services.Deployments.History.{
  Turn, Request, deploys, rolls, syncs, run, fresh, Answers, run-Answers,
}

abbrev rendered : Message → Text
rendered m = []

abbrev version : ℕ → Version
version n = record {
  version = n;
  status = ModelStatus.production;
  artifact =
      some record { status = ArtifactStatus.ready; architecture = some (codes "resnet18-cifar") };
}

abbrev registry : Registry
registry = record {
  project = true;
  model =
      some record { id = 7; production_version = some 1; versions = version 1 ∷ version 2 ∷ [] };
}

-- The sixth call fails, and has taken effect where it does not write the front Service.
abbrev lands_at : Write → Bool
lands_at writes_front = false
lands_at writes_selector = false
lands_at _ = true

abbrev honest : Honest (record { throws = λ n. n == 5; lands = λ kind n. lands_at kind })
honest = record { front = λ n. refl; selector = λ n. refl }

abbrev turn : Request → Turn
turn request = record {
  request = request;
  faults = record { throws = λ n. n == 5; lands = λ kind n. lands_at kind };
  pods = λ n. record { desired = 0; ready_pods = 5; reason = none; pending_reason = none };
}

abbrev history : List Turn
history =
    turn (deploys registry none 1)
    ∷ turn syncs
    ∷ turn (rolls registry 2 (whole 10))
    ∷ turn syncs
    ∷ []

abbrev front : Service
front = record { name = front_name; selector = selects_router }

moved : service_of front_name (run rendered history fresh).cluster ≡ some front
unfolding ash_ml.Services.Deployments.Rows.same_status
    ash_ml.Services.Deployments.Rows.create_deployment ash_ml.Services.Deployments.Rows.new_target
    ash_ml.Services.Deployments.Rows.insert_target ash_ml.Services.Deployments.Rows.update_target
    ash_ml.Services.Deployments.Rows.upsert_target ash_ml.Services.Deployments.Rows.set_weight
    ash_ml.Services.Deployments.Rows.set_weights ash_ml.Services.Deployments.Rows.remove_target
    ash_ml.Services.Deployments.Rows.record_target_launch
    ash_ml.Services.Deployments.Rows.observed_target
    ash_ml.Services.Deployments.Rows.record_target_observation
    ash_ml.Services.Deployments.Rows.record_launch
    ash_ml.Services.Deployments.Rows.record_serving_version
    ash_ml.Services.Deployments.Rows.record_router
    ash_ml.Services.Deployments.Rows.record_router_observation
    ash_ml.Services.Deployments.Rows.record_observation ash_ml.Services.Deployments.Rows.update_spec
    ash_ml.Services.Deployments.Status.was_serving ash_ml.Services.Deployments.Status.has_text
    ash_ml.Services.Deployments.Status.takes_traffic ash_ml.Services.Deployments.Status.is_failed
    ash_ml.Services.Deployments.Status.is_broken ash_ml.Services.Deployments.Status.is_unready
    ash_ml.Services.Deployments.Status.status_from_pods
    ash_ml.Services.Deployments.Status.status_from_observation
    ash_ml.Services.Deployments.Status.roll_up_answering
    ash_ml.Services.Deployments.Status.roll_up_serving
    ash_ml.Services.Deployments.Status.roll_up_status ash_ml.Services.Deployments.Front.weight_of
    ash_ml.Services.Deployments.Front.serving_targets
    ash_ml.Services.Deployments.Front.desired_among ash_ml.Services.Deployments.Front.desired_front
    ash_ml.Services.Deployments.Front.current_front ash_ml.Services.Deployments.Front.same_front
    ash_ml.Services.Deployments.Front.target_ready ash_ml.Services.Deployments.Front.version_ready
    ash_ml.Services.Deployments.Front.front_ready ash_ml.Services.Deployments.Front.judge
    ash_ml.Services.Deployments.Cluster.same_name ash_ml.Services.Deployments.Cluster.update_row
    ash_ml.Services.Deployments.Cluster.without_object
    ash_ml.Services.Deployments.Cluster.with_object ash_ml.Services.Deployments.Cluster.service_of
    ash_ml.Services.Deployments.Cluster.object_of ash_ml.Services.Deployments.Cluster.with_service
    ash_ml.Services.Deployments.Cluster.without_service
    ash_ml.Services.Deployments.Cluster.with_selector
    ash_ml.Services.Deployments.Cluster.service_write ash_ml.Services.Deployments.Cluster.written_by
    ash_ml.Services.Deployments.Cluster.call ash_ml.Services.Deployments.Cluster.apply_deployment
    ash_ml.Services.Deployments.Cluster.apply_service
    ash_ml.Services.Deployments.Cluster.apply_secret
    ash_ml.Services.Deployments.Cluster.delete_secret
    ash_ml.Services.Deployments.Cluster.delete_deployment
    ash_ml.Services.Deployments.Cluster.patch_found
    ash_ml.Services.Deployments.Cluster.patch_selector
    ash_ml.Services.Deployments.Cluster.observe_deployment
    ash_ml.Services.Deployments.Cluster.is_model_server
    ash_ml.Services.Deployments.Cluster.list_names ash_ml.Services.Deployments.Apply.wanted_replicas
    ash_ml.Services.Deployments.Apply.target_object ash_ml.Services.Deployments.Apply.selector_of
    ash_ml.Services.Deployments.Apply.version_of ash_ml.Services.Deployments.Apply.is_spared
    ash_ml.Services.Deployments.Apply.ensure_secret ash_ml.Services.Deployments.Apply.apply_target
    ash_ml.Services.Deployments.Apply.apply_targets
    ash_ml.Services.Deployments.Apply.is_named_router ash_ml.Services.Deployments.Apply.apply_router
    ash_ml.Services.Deployments.Apply.remove_router
    ash_ml.Services.Deployments.Apply.remove_router_if_unused
    ash_ml.Services.Deployments.Apply.reap_all ash_ml.Services.Deployments.Apply.reap
    ash_ml.Services.Deployments.Apply.launch ash_ml.Services.Deployments.Apply.launch_front
    ash_ml.Services.Deployments.Apply.judge_again ash_ml.Services.Deployments.Apply.apply_to
    ash_ml.Services.Deployments.Apply.apply_desired_state
    ash_ml.Services.Deployments.Traffic.require_model
    ash_ml.Services.Deployments.Traffic.get_version
    ash_ml.Services.Deployments.Traffic.resolve_version
    ash_ml.Services.Deployments.Traffic.check_architecture
    ash_ml.Services.Deployments.Traffic.check_artifact
    ash_ml.Services.Deployments.Traffic.assert_deployable
    ash_ml.Services.Deployments.Traffic.take_out_others
    ash_ml.Services.Deployments.Traffic.deploy_version
    ash_ml.Services.Deployments.Traffic.prepare_deploy
    ash_ml.Services.Deployments.Traffic.check_traffic
    ash_ml.Services.Deployments.Traffic.join_version ash_ml.Services.Deployments.Traffic.shares_with
    ash_ml.Services.Deployments.Traffic.prepare_rollout
    ash_ml.Services.Deployments.Traffic.resolves_to ash_ml.Services.Deployments.Traffic.check_found
    ash_ml.Services.Deployments.Traffic.check_retire ash_ml.Services.Deployments.Traffic.commit
    ash_ml.Services.Deployments.Traffic.deploy_model ash_ml.Services.Deployments.Traffic.roll_to
    ash_ml.Services.Deployments.Traffic.rollout ash_ml.Services.Deployments.Traffic.promote
    ash_ml.Services.Deployments.Traffic.delete_named
    ash_ml.Services.Deployments.Traffic.retire_checked ash_ml.Services.Deployments.Traffic.retire
    ash_ml.Services.Deployments.Traffic.delete_targets
    ash_ml.Services.Deployments.Traffic.delete_row ash_ml.Services.Deployments.Traffic.undeploy
    ash_ml.Services.Deployments.Sync.same_error ash_ml.Services.Deployments.Sync.target_changed
    ash_ml.Services.Deployments.Sync.deployment_changed
    ash_ml.Services.Deployments.Sync.router_changed ash_ml.Services.Deployments.Sync.is_retired
    ash_ml.Services.Deployments.Sync.observe_named ash_ml.Services.Deployments.Sync.observe_launched
    ash_ml.Services.Deployments.Sync.observe_target ash_ml.Services.Deployments.Sync.observe_targets
    ash_ml.Services.Deployments.Sync.observe_router_named
    ash_ml.Services.Deployments.Sync.observe_router ash_ml.Services.Deployments.Sync.move_front_door
    ash_ml.Services.Deployments.Sync.scale_down ash_ml.Services.Deployments.Sync.tidy_up
    ash_ml.Services.Deployments.Sync.after_move ash_ml.Services.Deployments.Sync.sync_observed
    ash_ml.Services.Deployments.Sync.sync_deployment ash_ml.Services.Deployments.Sync.is_active
    ash_ml.Services.Deployments.Sync.sync ash_ml.Services.Deployments.History.left_by
    ash_ml.Services.Deployments.History.act ash_ml.Services.Deployments.History.run
    ash_ml.Services.Deployments.History.selected ash_ml.Domain.Routing.Rollout.others
    ash_ml.Domain.Routing.Rollout.shares ash_ml.Domain.Routing.Rollout.even_shares
    ash_ml.Domain.Routing.Rollout.floors ash_ml.Domain.Routing.Rollout.rests
    ash_ml.Domain.Routing.Rollout.by_fraction ash_ml.Domain.Routing.Rollout.bump
    ash_ml.Domain.Routing.Rollout.hand_out ash_ml.Domain.Routing.Rollout.round_shares
    ash_ml.Domain.Routing.Rollout.reweigh ash_ml.Domain.Routing.Rollout.other_weights
    ash_ml.Domain.Routing.Rollout.by_version ash_ml.Domain.Routing.Rollout.split_with
    ash_ml.Domain.Routing.Rollout.apply_rollout ash_ml.Domain.Routing.Weights.bad_weight
    ash_ml.Domain.Routing.Weights.weight_value ash_ml.Domain.Routing.Weights.first_duplicate
    ash_ml.Domain.Routing.Weights.check_total ash_ml.Domain.Routing.Weights.check_versions
    ash_ml.Domain.Routing.Weights.check_weights ash_ml.Domain.Routing.Weights.validate_weights
    ash_ml.Domain.Routing.Choice.needs_router ash_ml.Domain.ArtifactStatus.same
    ash_ml.Domain.ModelStatus.same ash_ml.Base.Double.one ash_ml.Base.Double.nearest_whole
    ash_ml.Base.Double.spacing_from ash_ml.Base.Double.spacing ash_ml.Base.Double.nearest
    ash_ml.Base.Double.quotient ash_ml.Base.Double.times ash_ml.Base.Sort.insert
    ash_ml.Base.Sort.sort_by ash_ml.Base.Int.sub_ℕ ash_ml.Base.Int.◌-ℤ◌ ash_ml.Base.Int.◌+ℤ◌
moved = refl

run-Answers_example : Answers (run rendered history fresh).cluster front
run-Answers_example =
    run-Answers rendered history front (honest, (honest, (honest, (honest, tt)))) moved
