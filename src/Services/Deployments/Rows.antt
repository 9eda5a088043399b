-- ===== src/Services/Deployments/Rows.antt =====
-- packages/server/src/repos/deployments.js: the row of a deployment with its targets, and the
-- updates on it. A version of the deployment's model is known by its number, which is unique in the
-- model, and stands for its model_version_id. The manifest's other fields (image, cpu, memory) are
-- only copied, and are left out.
use ash_ml.Base.{
  ℕ, Bool, true, false, not, Option, none, some, List, [], ◌∷◌, map, keep, any, ltb, ◌==◌,
  if◌then◌else◌,
}
use ash_ml.Services.Tables.{Text}
use ash_ml.Domain.Routing.Weights.{Target}

pub data DeploymentStatus : Type 0 where
  pending progressing ready degraded failed stopped : DeploymentStatus

unfoldable pub same_status : DeploymentStatus → DeploymentStatus → Bool
same_status pending pending = true
same_status progressing progressing = true
same_status ready ready = true
same_status degraded degraded = true
same_status failed failed = true
same_status stopped stopped = true
same_status _ _ = false

-- The names of a deployment's objects: `kubeDeploymentName`, `kubeTargetName` and `kubeRouterName`.
pub data ObjectName : Type 0 where
  front_name router_name : ObjectName
  target_name : ℕ → ObjectName

-- A row of deployment_targets, as `toTarget` gives it.
pub record ServedVersion : Type 0 where
  pub version : ℕ
  pub traffic_weight : ℕ
  pub replicas : ℕ
  pub status : DeploymentStatus
  pub ready_replicas : ℕ
  pub last_error : Option Text
  pub k8s_name : Option ObjectName

pub record Deployment : Type 0 where
  pub model : ℕ
  pub status : DeploymentStatus
  pub replicas : ℕ
  pub ready_replicas : ℕ
  pub k8s_name : Option ObjectName
  pub last_error : Option Text
  pub serving_version : Option ℕ
  pub router_k8s_name : Option ObjectName
  pub router_status : Option DeploymentStatus
  pub router_ready_replicas : ℕ
  pub targets : List ServedVersion

-- What an observation concludes.
pub record Judgement : Type 0 where
  pub status : DeploymentStatus
  pub ready_replicas : ℕ
  pub last_error : Option Text

-- `INSERT INTO deployments`, with the columns' defaults.
unfoldable pub create_deployment : ℕ → ℕ → Deployment
create_deployment model replicas = record {
  model = model;
  status = pending;
  replicas = replicas;
  ready_replicas = 0;
  k8s_name = none;
  last_error = none;
  serving_version = none;
  router_k8s_name = none;
  router_status = none;
  router_ready_replicas = 0;
  targets = [];
}

-- A new row of deployment_targets, at its place in the order by version.
unfoldable pub new_target : (version weight replicas : ℕ) → ServedVersion
new_target version weight replicas = record {
  version = version;
  traffic_weight = weight;
  replicas = replicas;
  status = pending;
  ready_replicas = 0;
  last_error = none;
  k8s_name = none;
}

unfoldable pub insert_target : ServedVersion → List ServedVersion → List ServedVersion
insert_target t [] = t ∷ []
insert_target t (u ∷ us) =
    let rest = insert_target t us in if ltb t.version u.version then t ∷ u ∷ us else u ∷ rest

-- `UPDATE deployment_targets SET … WHERE … model_version_id = …`.
unfoldable pub update_target :
    ℕ → (ServedVersion → ServedVersion) → List ServedVersion → List ServedVersion
update_target version f = map (λ t. if t.version == version then f t else t)

-- `upsertTarget`.
unfoldable pub upsert_target : (version weight replicas : ℕ) → Deployment → Deployment
upsert_target version weight replicas d =
    if any (λ t. t.version == version) d.targets
    then record d {
      targets =
          update_target version (λ t. record t { traffic_weight = weight; replicas = replicas })
            d.targets;
    }
    else record d { targets = insert_target (new_target version weight replicas) d.targets }

-- `setWeights`.
unfoldable pub set_weight : (version weight : ℕ) → List ServedVersion → List ServedVersion
set_weight version weight = update_target version (λ t. record t { traffic_weight = weight })

unfoldable pub set_weights : List Target → List ServedVersion → List ServedVersion
set_weights [] ts = ts
set_weights (w ∷ ws) ts = set_weights ws (set_weight w.version w.weight ts)

-- `removeTarget`.
unfoldable pub remove_target : ℕ → Deployment → Deployment
remove_target version d = record d { targets = keep (λ t. not (t.version == version)) d.targets }

unfoldable pub record_target_launch : ℕ → ObjectName → Deployment → Deployment
record_target_launch version name d = record d {
  targets = update_target version (λ t. record t { k8s_name = some name }) d.targets;
}

unfoldable pub observed_target : Judgement → ServedVersion → ServedVersion
observed_target next t = record t {
  status = next.status;
  ready_replicas = next.ready_replicas;
  last_error = next.last_error;
}

unfoldable pub record_target_observation : ℕ → Judgement → Deployment → Deployment
record_target_observation version next d = record d {
  targets = update_target version (observed_target next) d.targets;
}

unfoldable pub record_launch : ObjectName → Deployment → Deployment
record_launch name d = record d { k8s_name = some name }

unfoldable pub record_serving_version : Option ℕ → Deployment → Deployment
record_serving_version version d = record d { serving_version = version }

-- `recordRouter`: without a router, what was observed of it goes too.
unfoldable pub record_router : Option ObjectName → Deployment → Deployment
record_router none d = record d {
  router_k8s_name = none;
  router_status = none;
  router_ready_replicas = 0;
}
record_router (some name) d = record d { router_k8s_name = some name }

unfoldable pub record_router_observation : Judgement → Deployment → Deployment
record_router_observation next d = record d {
  router_status = some next.status;
  router_ready_replicas = next.ready_replicas;
}

unfoldable pub record_observation : Judgement → Deployment → Deployment
record_observation next d = record d {
  status = next.status;
  ready_replicas = next.ready_replicas;
  last_error = next.last_error;
}

unfoldable pub update_spec : ℕ → Deployment → Deployment
update_spec replicas d = record d { replicas = replicas }
