-- ===== src/Services/Deployments/Front.antt =====
-- Where the front Service of a deployment points and should point: `desiredFront`, `currentFront`,
-- `sameFront` and `judge` of packages/server/src/services/deployments.js.
use ash_ml.Base.{
  ℕ, Bool, true, false, Option, none, some, List, [], ◌∷◌, map, keep, find, ltb, ◌==◌,
  if◌then◌else◌,
}
use ash_ml.Services.Tables.{Text}
use ash_ml.Domain.Routing.Choice.{Target, needs_router}
use ash_ml.Services.Deployments.Rows.{
  DeploymentStatus, ready, same_status, ServedVersion, Deployment, Judgement,
}
use ash_ml.Services.Deployments.Status.{Message, roll_up_status}

pub data Front : Type 0 where
  on_nothing on_router : Front
  on_version : ℕ → Front

unfoldable pub weight_of : ServedVersion → Target
weight_of t = record { version = t.version; weight = t.traffic_weight; ready = none }

unfoldable pub serving_targets : List ServedVersion → List ServedVersion
serving_targets = keep (λ t. ltb 0 t.traffic_weight)

unfoldable pub desired_among : (serving targets : List ServedVersion) → Front
desired_among [] targets = on_nothing
desired_among (t ∷ rest) targets =
    if needs_router (map weight_of targets) then on_router else on_version t.version

unfoldable pub desired_front : List ServedVersion → Front
desired_front targets = desired_among (serving_targets targets) targets

unfoldable pub current_front : Deployment → Front
current_front d = elim d.k8s_name [
  | none ↦ on_nothing
  | some _ ↦ elim d.serving_version [ some v ↦ on_version v | none ↦ on_router ]
]

unfoldable pub same_front : Front → Front → Bool
same_front on_nothing on_nothing = true
same_front on_router on_router = true
same_front (on_version v) (on_version w) = v == w
same_front _ _ = false

-- `targets.find((t) => t.version === version)?.status === READY`.
unfoldable pub target_ready : Option ServedVersion → Bool
target_ready none = false
target_ready (some t) = same_status t.status ready

unfoldable pub version_ready : ℕ → List ServedVersion → Bool
version_ready version targets = target_ready (find (λ t. t.version == version) targets)

-- Whether what a front Service resolves to can answer. (No version is `undefined`.)
unfoldable pub front_ready : Front → Deployment → List ServedVersion → Bool
front_ready on_nothing d targets = false
front_ready on_router d targets = ltb 0 d.router_ready_replicas
front_ready (on_version v) d targets = version_ready v targets

unfoldable pub judge :
    (Message → Text) → Deployment → List ServedVersion → DeploymentStatus → Judgement
judge render d targets previous =
    let current = current_front d in
    roll_up_status render targets (front_ready current d targets)
      (same_front current (desired_front targets)) previous
