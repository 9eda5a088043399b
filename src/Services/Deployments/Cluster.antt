-- ===== src/Services/Deployments/Cluster.antt =====
-- What the deployment service does to a cluster: the calls of packages/server/src/k8s/kubernetes.js
-- (and k8s/sim.js) on the objects of one deployment, the row beside them, and actions on both. A
-- call may throw, whichever an argument says, and one that writes may then have taken effect or not,
-- since the answer can be lost on its way; what was done before stays done, as the calls are outside
-- any transaction. What the cluster's pods report is an argument too.
pub mod Runs
use ash_ml.Base.{
  ℕ, suc, ◌+◌, ◌≡◌, Bool, true, false, not, ◌&&◌, ◌||◌, Option, none, some, List, [], ◌∷◌, map,
  keep, any, find, ltb, ◌==◌, if◌then◌else◌,
}
use ash_ml.Services.Tables.{Text}
use ash_ml.Services.Deployments.Rows.{
  DeploymentStatus, ObjectName, front_name, router_name, target_name, ServedVersion, Deployment,
}
use ash_ml.Services.Deployments.Status.{Pods}

unfoldable pub same_name : ObjectName → ObjectName → Bool
same_name front_name front_name = true
same_name router_name router_name = true
same_name (target_name v) (target_name w) = v == w
same_name _ _ = false

-- A Kubernetes Deployment. Its labels are those that its name stands for.
pub record Object : Type 0 where
  pub name : ObjectName
  pub replicas : ℕ

-- `frontSelector`: a version's pods, or the router's.
pub data Selector : Type 0 where
  selects_router : Selector
  selects_version : ℕ → Selector

pub record Service : Type 0 where
  pub name : ObjectName
  pub selector : Selector

pub record Cluster : Type 0 where
  pub objects : List Object
  pub services : List Service
  pub secret : Bool

-- The row of the deployment, whether its serving token is live, the cluster, and the number of calls
-- made to it.
pub record World : Type 0 where
  pub row : Option Deployment
  pub token : Bool
  pub cluster : Cluster
  pub calls : ℕ

pub data Failure : Type 0 where
  backend_failed no_such_service deployment_not_found invalid_replicas project_not_found
        model_not_found version_not_found no_production_version version_archived artifact_not_ready
        architecture_unknown architecture_unsupported deployment_name_taken invalid_traffic
        bad_split not_served version_takes_traffic version_still_serving :
      Failure

pub data Outcome {κ} (B : Type κ) : Type κ where
  threw : Failure → World → Outcome B
  did : B → World → Outcome B

abbrev pub Act : Type 0 → Type 0
Act B = World → Outcome B

infixl 5 ◌>>=◌
abbrev pub ◌>>=◌ : {B C : Type 0} → Act B → (B → Act C) → Act C
◌>>=◌ first next w = elim (first w) [ threw e w' ↦ threw e w' | did b w' ↦ next b w' ]

infixl 5 ◌>>◌
abbrev pub ◌>>◌ : {C : Type 0} → Act (Unit {0}) → Act C → Act C
first >> next = first >>= λ _. next

abbrev pub pure : {B : Type 0} → B → Act B
pure b w = did b w

abbrev pub fail : {B : Type 0} → Failure → Act B
fail e w = threw e w

-- `try { … } catch (err) { … }`.
abbrev pub catch : {B : Type 0} → Act B → (Failure → Act B) → Act B
catch first handler w = elim (first w) [ threw e w' ↦ handler e w' | did b w' ↦ did b w' ]

-- An update of the row. A row that is not there matches no WHERE clause.
unfoldable pub update_row : (Deployment → Deployment) → Act (Unit {0})
update_row f w = did tt (record w { row = elim w.row [ none ↦ none | some d ↦ some (f d) ] })

abbrev pub read_row : Act (Option Deployment)
read_row w = did w.row w

-- The writes of the cluster.
unfoldable pub without_object : ObjectName → Cluster → Cluster
without_object name c = record c { objects = keep (λ o. not (same_name o.name name)) c.objects }

unfoldable pub with_object : Object → Cluster → Cluster
with_object o c = record c { objects = o ∷ keep (λ p. not (same_name p.name o.name)) c.objects }

unfoldable pub service_of : ObjectName → Cluster → Option Service
service_of name c = find (λ s. same_name s.name name) c.services

unfoldable pub object_of : ObjectName → Cluster → Option Object
object_of name c = find (λ o. same_name o.name name) c.objects

-- A Service that exists is left alone.
unfoldable pub with_service : Service → Cluster → Cluster
with_service s c = elim (service_of s.name c) [
  | none ↦ record c { services = s ∷ c.services }
  | some _ ↦ c
]

unfoldable pub without_service : ObjectName → Cluster → Cluster
without_service name c = record c { services = keep (λ s. not (same_name s.name name)) c.services }

unfoldable pub with_selector : ObjectName → Selector → Cluster → Cluster
with_selector name selector c = record c {
  services =
      map (λ s. if same_name s.name name then record s { selector = selector } else s) c.services;
}

-- What a call writes: a Deployment, the front Service for the first time, the Service of a version, the
-- front Service's selector, a Secret; or what `deleteDeployment` removes.
pub data Write : Type 0 where
  writes_deployment writes_front writes_service writes_selector writes_secret deletes : Write

-- Which calls throw, by their number, and which of those that write take effect all the same.
pub record Faults : Type 0 where
  pub throws : ℕ → Bool
  pub lands : Write → ℕ → Bool

-- No call on the front Service that throws has taken effect.
pub record Honest (faults : Faults) : Type 0 where
  pub front : (n : ℕ) → faults.lands writes_front n ≡ false
  pub selector : (n : ℕ) → faults.lands writes_selector n ≡ false

-- The Service that is applied is the front or a version's.
unfoldable pub service_write : ObjectName → Write
service_write front_name = writes_front
service_write router_name = writes_service
service_write (target_name v) = writes_service

unfoldable pub written_by : Bool → (Cluster → Cluster) → Cluster → Cluster
written_by landed write c = if landed then write c else c

module _ (faults : Faults) (pods : ℕ → Pods) where
  -- A call that writes.
  unfoldable pub call : Write → (Cluster → Cluster) → Act (Unit {0})
  call kind write w =
      let after = suc w.calls in
      if faults.throws w.calls
      then threw backend_failed (record w {
        calls = after;
        cluster = written_by (faults.lands kind w.calls) write w.cluster;
      })
      else did tt (record w { calls = after; cluster = write w.cluster })

  unfoldable pub apply_deployment : Object → Act (Unit {0})
  apply_deployment o = call writes_deployment (with_object o)

  unfoldable pub apply_service : Service → Act (Unit {0})
  apply_service s = call (service_write s.name) (with_service s)

  unfoldable pub apply_secret : Act (Unit {0})
  apply_secret = call writes_secret (λ c. record c { secret = true })

  unfoldable pub delete_secret : Act (Unit {0})
  delete_secret = call deletes (λ c. record c { secret = false })

  -- `deleteDeployment`: the Deployment, then the Service; what is gone already is no error.
  unfoldable pub delete_deployment : ObjectName → Act (Unit {0})
  delete_deployment name = call deletes (without_object name) >> call deletes (without_service name)

  -- `patchServiceSelector`: the server knows no such Service where there is none.
  unfoldable pub patch_found : Option Service → ObjectName → Selector → Act (Unit {0})
  patch_found none name selector w = threw no_such_service (record w { calls = suc w.calls })
  patch_found (some s) name selector w = call writes_selector (with_selector name selector) w

  unfoldable pub patch_selector : ObjectName → Selector → Act (Unit {0})
  patch_selector name selector w = patch_found (service_of name w.cluster) name selector w

  -- `observeDeployment`: `desired` is the size that the object asks for.
  unfoldable pub observe_deployment : ObjectName → Act (Option Pods)
  observe_deployment name w =
      let after = record w { calls = suc w.calls } in
      if faults.throws w.calls
      then threw backend_failed after
      else elim (object_of name w.cluster) [
        | none ↦ did none after
        | some o ↦ did (some (record (pods w.calls) { desired = o.replicas })) after
      ]

  -- `listDeploymentNames` with the labels of this deployment's model servers.
  unfoldable pub is_model_server : ObjectName → Bool
  is_model_server front_name = false
  is_model_server router_name = false
  is_model_server (target_name v) = true

  unfoldable pub list_names : Act (List ObjectName)
  list_names w =
      let after = record w { calls = suc w.calls } in
      if faults.throws w.calls
      then threw backend_failed after
      else did (keep is_model_server (map (λ o. o.name) w.cluster.objects)) after
