-- ===== src/Services/Deployments/Traffic.antt =====
-- `deployModel`, `rollout`, `promote`, `retire` and `undeploy` of
-- packages/server/src/services/deployments.js, with `resolveVersion` and `assertDeployable`. What
-- the registry answers is an argument. The transaction of a call is a function on the row, which
-- refuses and leaves the row as it was, or gives the row that is committed.
pub mod Split
pub mod Shares
pub mod Committed
pub mod Held
pub mod Retired
use ash_ml.Base.{
  ℕ, suc, ◌≤◌, Bool, true, false, not, ◌&&◌, ◌||◌, Option, none, some, List, [], ◌∷◌, ◌++◌, map,
  keep, any, find, ltb, leb, ◌==◌, is_some, if◌then◌else◌,
}
use ash_ml.Services.Tables.{Text}
use ash_ml.Services.Jobs.{same_text}
use ash_ml.Domain.Retry.{codes}
use ash_ml.Domain.ArtifactStatus
use ash_ml.Domain.ArtifactStatus.{ArtifactStatus}
use ash_ml.Domain.ModelStatus
use ash_ml.Domain.ModelStatus.{ModelStatus}
use ash_ml.Domain.Routing.Weights.{
  Target, Weight, whole, negative, fractional, proposed, validate_weights, total_weight,
}
use ash_ml.Domain.Routing.Rollout.{apply_rollout}
use ash_ml.Services.Deployments.Rows.{
  ObjectName, front_name, ServedVersion, Deployment, create_deployment, upsert_target, set_weight,
  set_weights, remove_target, update_spec,
}
use ash_ml.Services.Deployments.Status.{Pods, Message, has_text}
use ash_ml.Services.Deployments.Cluster.{
  Faults, World, did, Failure, deployment_not_found, invalid_replicas, project_not_found,
  model_not_found, version_not_found, no_production_version, version_archived, artifact_not_ready,
  architecture_unknown, architecture_unsupported, deployment_name_taken, invalid_traffic, bad_split,
  not_served, version_takes_traffic, version_still_serving, Act, ◌>>=◌, ◌>>◌, pure, fail,
  update_row, read_row, delete_deployment, delete_secret,
}
use ash_ml.Services.Deployments.Apply.{apply_desired_state}

pub record Artifact : Type 0 where
  pub status : ArtifactStatus
  pub architecture : Option Text

pub record Version : Type 0 where
  pub version : ℕ
  pub status : ModelStatus
  pub artifact : Option Artifact

pub record Model : Type 0 where
  pub id : ℕ
  pub production_version : Option ℕ
  pub versions : List Version

-- What the queries of the project and of the model find.
pub record Registry : Type 0 where
  pub project : Bool
  pub model : Option Model

pub data Checked {κ} (B : Type κ) : Type κ where
  refused : Failure → Checked B
  passed : B → Checked B

infixl 5 ◌>?>◌
abbrev pub ◌>?>◌ {κ ν} : {B : Type κ} {C : Type ν} → Checked B → (B → Checked C) → Checked C
refused e >?> next = refused e
passed b >?> next = next b

unfoldable pub require_model : Registry → Checked Model
require_model r = elim r.model [
  | some m ↦ passed m
  | none ↦ if r.project then refused model_not_found else refused project_not_found
]

unfoldable pub get_version : Model → ℕ → Checked Version
get_version m version = elim (find (λ v. v.version == version) m.versions) [
  | none ↦ refused version_not_found
  | some v ↦ passed v
]

-- A production version is a version of the model, so that its lookup finds it.
unfoldable pub resolve_version : Model → Option ℕ → Checked Version
resolve_version m (some version) = get_version m version
resolve_version m none = elim m.production_version [
  | none ↦ refused no_production_version
  | some version ↦ get_version m version
]

-- `SERVABLE_ARCHITECTURES`.
abbrev pub servable_architectures : List Text
servable_architectures = codes "resnet18-cifar" ∷ []

unfoldable pub check_architecture : Option Text → Checked Text
check_architecture none = refused architecture_unknown
check_architecture (some arch) =
    if not (has_text (some arch))
    then refused architecture_unknown
    else if not (any (same_text arch) servable_architectures)
    then refused architecture_unsupported
    else passed arch

unfoldable pub check_artifact : Option Artifact → Checked Text
check_artifact none = refused artifact_not_ready
check_artifact (some a) =
    if not (ArtifactStatus.same a.status ArtifactStatus.ready)
    then refused artifact_not_ready
    else check_architecture a.architecture

unfoldable pub assert_deployable : Version → Checked Text
assert_deployable v =
    if ModelStatus.same v.status ModelStatus.archived
    then refused version_archived
    else check_artifact v.artifact

-- The loop that takes the other versions out of rotation.
unfoldable pub take_out_others : ℕ → (others targets : List ServedVersion) → List ServedVersion
take_out_others version [] targets = targets
take_out_others version (t ∷ ts) targets =
    take_out_others version ts
      (if t.version == version then targets else set_weight t.version 0 targets)

unfoldable pub deploy_version : (version replicas : ℕ) → Deployment → Deployment
deploy_version version replicas d =
    upsert_target version total_weight replicas
      (record d { targets = take_out_others version d.targets d.targets })

-- The row that the transaction of `deployModel` leaves.
unfoldable pub prepare_deploy :
    Registry → (version : Option ℕ) → (replicas : ℕ) → Option Deployment → Checked Deployment
prepare_deploy r version replicas row =
    if not r.project
    then refused project_not_found
    else (require_model r >?> λ m. resolve_version m version >?> λ v.
        assert_deployable v >?> λ arch. elim row [
          | none ↦ passed (deploy_version v.version replicas (create_deployment m.id replicas))
          | some d ↦
              if d.model == m.id
              then passed (deploy_version v.version replicas (update_spec replicas d))
              else refused deployment_name_taken
        ])

-- `Number.isInteger(traffic)`, and between 0 and 100.
unfoldable pub check_traffic : Weight → Checked ℕ
check_traffic (whole n) = if ltb total_weight n then refused invalid_traffic else passed n
check_traffic negative = refused invalid_traffic
check_traffic fractional = refused invalid_traffic

abbrev pub share_of : ServedVersion → Target
share_of t = record { version = t.version; weight = t.traffic_weight }

-- A version that is not served yet joins at weight 0, where it can be served.
unfoldable pub join_version : Registry → ℕ → Deployment → Checked Deployment
join_version r version d =
    if any (λ t. t.version == version) d.targets
    then passed d
    else (require_model r >?> λ m. resolve_version m (some version) >?> λ v.
        assert_deployable v >?> λ arch. passed (upsert_target version 0 d.replicas d))

-- `current` of `rollout`: the shares before, and the newcomer behind them.
unfoldable pub shares_with : ℕ → List ServedVersion → List Target
shares_with version targets =
    if any (λ t. t.version == version) targets
    then map share_of targets
    else map share_of targets ++ (record { version = version; weight = 0 } ∷ [])

-- The row that the transaction of `rollout` leaves.
unfoldable pub prepare_rollout :
    Registry → (version traffic : ℕ) → Option Deployment → Checked Deployment
prepare_rollout r version traffic none = refused deployment_not_found
prepare_rollout r version traffic (some d) = join_version r version d >?> λ joined.
    let next = apply_rollout (shares_with version d.targets) version traffic in
    elim (validate_weights (some (map proposed next))) [
      | some e ↦ refused bad_split
      | none ↦ passed (record joined { targets = set_weights next joined.targets })
    ]

-- The three refusals of `retire`.
unfoldable pub resolves_to : Option ℕ → ℕ → Bool
resolves_to none version = false
resolves_to (some s) version = s == version

unfoldable pub check_found : ℕ → Deployment → Option ServedVersion → Checked ServedVersion
check_found version d none = refused not_served
check_found version d (some t) =
    if ltb 0 t.traffic_weight
    then refused version_takes_traffic
    else if resolves_to d.serving_version version
    then refused version_still_serving
    else passed t

unfoldable pub check_retire : ℕ → Deployment → Checked ServedVersion
check_retire version d = check_found version d (find (λ t. t.version == version) d.targets)

-- A transaction: what it refuses leaves the row.
unfoldable pub commit : (Option Deployment → Checked Deployment) → Act (Unit {0})
commit prepare w = elim (prepare w.row) [
  | refused e ↦ fail e w
  | passed d ↦ did tt (record w { row = some d })
]

module _ (render : Message → Text) (faults : Faults) (pods : ℕ → Pods) where
  unfoldable pub deploy_model : Registry → Option ℕ → ℕ → Act (Unit {0})
  deploy_model r version replicas =
      if ltb replicas 1
      then fail invalid_replicas
      else (commit (prepare_deploy r version replicas) >> apply_desired_state render faults pods)

  unfoldable pub roll_to : Registry → ℕ → Checked ℕ → Act (Unit {0})
  roll_to r version (refused e) = fail e
  roll_to r version (passed traffic) =
      commit (prepare_rollout r version traffic) >> apply_desired_state render faults pods

  unfoldable pub rollout : Registry → ℕ → Weight → Act (Unit {0})
  rollout r version traffic = roll_to r version (check_traffic traffic)

  unfoldable pub promote : Registry → ℕ → Act (Unit {0})
  promote r version = rollout r version (whole total_weight)

  unfoldable pub delete_named : Option ObjectName → Act (Unit {0})
  delete_named none = pure tt
  delete_named (some name) = delete_deployment faults pods name

  unfoldable pub retire_checked : ℕ → Checked ServedVersion → Act (Unit {0})
  retire_checked version (refused e) = fail e
  retire_checked version (passed t) = delete_named t.k8s_name >> update_row (remove_target version)

  unfoldable pub retire : ℕ → Act (Unit {0})
  retire version = read_row >>= λ row. elim row [
    | none ↦ fail deployment_not_found
    | some d ↦ retire_checked version (check_retire version d)
  ]

  unfoldable pub delete_targets : List ServedVersion → Act (Unit {0})
  delete_targets [] = pure tt
  delete_targets (t ∷ ts) = delete_named t.k8s_name >> delete_targets ts

  -- The token goes with the row.
  unfoldable pub delete_row : Act (Unit {0})
  delete_row w = did tt (record w { row = none; token = false })

  unfoldable pub undeploy : Act (Unit {0})
  undeploy = read_row >>= λ row. elim row [
    | none ↦ fail deployment_not_found
    | some d ↦
        delete_targets d.targets
        >> delete_named d.router_k8s_name
        >> delete_named d.k8s_name
        >> delete_secret faults pods
        >> delete_row
  ]
