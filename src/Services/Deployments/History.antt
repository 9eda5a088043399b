-- ===== src/Services/Deployments/History.antt =====
-- Histories of the calls of packages/server/src/services/deployments.js on one deployment, each against a
-- cluster that fails as it likes.
use ash_ml.Base.{
  ℕ, ◌<◌, ◌≡◌, refl, sym, subst, ◌∙◌, false, Option, none, some, List, All, [], ◌∷◌, some-eq,
}
use ash_ml.Services.Tables.{Text}
use ash_ml.Domain.Routing.Weights.{Weight, whole, total_weight}
use ash_ml.Services.Deployments.Rows.{ObjectName, front_name, router_name, target_name}
use ash_ml.Services.Deployments.Status.{Pods, Message}
use ash_ml.Services.Deployments.Cluster.{
  Faults, Honest, Object, Service, Selector, selects_router, selects_version, Cluster, World,
  Outcome, threw, did, Act, service_of, object_of,
}
use ash_ml.Services.Deployments.Cluster.Runs.{Ends, Runs}
use ash_ml.Services.Deployments.Backed.{Backed, destination, front_to}
use ash_ml.Services.Deployments.Held.{Safe, absent, held}
use ash_ml.Services.Deployments.Traffic.{Registry, deploy_model, rollout, promote, retire}
use ash_ml.Services.Deployments.Traffic.Held.{deploy_model-Safe, rollout-Safe}
use ash_ml.Services.Deployments.Traffic.Retired.{retire-Safe}
use ash_ml.Services.Deployments.Sync.{sync}
use ash_ml.Services.Deployments.Sync.Moved.{sync-Safe}

pub data Request : Type 0 where
  deploys : Registry → Option ℕ → ℕ → Request
  rolls : Registry → ℕ → Weight → Request
  promotes : Registry → ℕ → Request
  retires : ℕ → Request
  syncs : Request

-- A request, the calls of it that throw, and what the pods report meanwhile.
pub record Turn : Type 0 where
  pub request : Request
  pub faults : Faults
  pub pods : ℕ → Pods

-- What an action leaves, whether it throws or not.
unfoldable pub left_by : Outcome (Unit {0}) → World
left_by (threw e w) = w
left_by (did a w) = w

module _ (render : Message → Text) where
  unfoldable pub act : Turn → Act (Unit {0})
  act t = elim t.request [
    | deploys r version replicas ↦ deploy_model render t.faults t.pods r version replicas
    | rolls r version traffic ↦ rollout render t.faults t.pods r version traffic
    | promotes r version ↦ promote render t.faults t.pods r version
    | retires version ↦ retire render t.faults t.pods version
    | syncs ↦ sync render t.faults t.pods
  ]

  -- The turns one after the other, from a cluster and a row.
  unfoldable pub run : List Turn → World → World
  run [] w = w
  run (t ∷ ts) w = run ts (left_by (act t w))

  act-Safe : (t : Turn) → Honest t.faults → Runs Safe Safe (act t) (λ _. Safe)
  unfolding act promote
  act-Safe t honest = of t.request
    where
      of :
          (q : Request)
          → Runs Safe Safe
              (elim q as (λ x. Act (Unit {0})) [
                | deploys r version replicas ↦
                    deploy_model render t.faults t.pods r version replicas
                | rolls r version traffic ↦ rollout render t.faults t.pods r version traffic
                | promotes r version ↦ promote render t.faults t.pods r version
                | retires version ↦ retire render t.faults t.pods version
                | syncs ↦ sync render t.faults t.pods
              ])
              (λ _. Safe)
      of (deploys r version replicas) =
          deploy_model-Safe render t.faults honest t.pods r version replicas
      of (rolls r version traffic) = rollout-Safe render t.faults honest t.pods r version traffic
      of (promotes r version) =
          unfold promote in
          rollout-Safe render t.faults honest t.pods r version (whole total_weight)
      of (retires version) = retire-Safe render t.faults t.pods version
      of syncs = sync-Safe render t.faults honest t.pods

  run-Safe : (ts : List Turn) (w : World) → All (λ t. Honest t.faults) ts → Safe w → Safe (run ts w)
  unfolding run left_by
  run-Safe [] w honest h = h
  run-Safe (t ∷ ts) w honest h =
      run-Safe ts _ honest.1 (left (act t w) ((act-Safe t honest.0).runs w h))
    where
      left : (o : Outcome (Unit {0})) → Ends Safe (λ _. Safe) o → Safe (left_by o)
      left (threw e x) s = unfold left_by in s
      left (did a x) s = unfold left_by in s

-- The Deployment whose pods a selector finds.
unfoldable pub selected : Selector → ObjectName
selected selects_router = router_name
selected (selects_version v) = target_name v

-- The Deployment that the front Service selects exists and asks for pods.
pub record Answers (c : Cluster) (front : Service) : Type 0 where
  pub object : Object
  pub exists : object_of (selected front.selector) c ≡ some object
  pub has_pods : 0 < object.replicas

Backed-Answers :
    (k : Option (Option ℕ)) (c : Cluster)
    → Backed k c
    → (s : Service) → service_of front_name c ≡ some s
    → Answers c s
unfolding selected destination
Backed-Answers none c b s e = absurd (none_some (sym b.front ∙ e))
  where
    none_some : none ≡ some s → ⊥
    none_some q = cc
Backed-Answers (some none) c b s e =
    let same : front_to none ≡ s = some-eq (sym b.front.0 ∙ e) in
    subst (Answers c) same
      record { object = b.front.1.object; exists = b.front.1.exists; has_pods = b.front.1.sized }
Backed-Answers (some (some v)) c b s e =
    let same : front_to (some v) ≡ s = some-eq (sym b.front.0 ∙ e) in
    subst (Answers c) same
      record { object = b.front.1.object; exists = b.front.1.exists; has_pods = b.front.1.sized }

Safe-Answers :
    (w : World)
    → Safe w
    → (s : Service) → service_of front_name w.cluster ≡ some s
    → Answers w.cluster s
Safe-Answers w (absent e b) s q = Backed-Answers none w.cluster b s q
Safe-Answers w (held k h) s q = Backed-Answers k w.cluster h.backed s q

abbrev pub fresh : World
fresh = record {
  row = none;
  token = false;
  cluster = record { objects = []; services = []; secret = false };
  calls = 0;
}

fresh-Safe : Safe fresh
unfolding service_of object_of
fresh-Safe = absent refl record { front = refl; router = λ o e. absurd (none_some o e) }
  where
    none_some : (o : Object) → none ≡ some o → ⊥
    none_some o q = cc

-- After any history, on one deployment and one call after another, of deploys, rollouts,
-- promotions, retirements and passes of the reconciler from nothing deployed, whatever the pods
-- report, the Deployment that the front Service selects exists and asks for at least one pod.
-- Any call of the cluster may throw, with or without effect, except that one that creates or
-- patches the front Service has no effect where it throws.
pub run-Answers :
    (render : Message → Text) (ts : List Turn) (front : Service)
    → All (λ t. Honest t.faults) ts
    → service_of front_name (run render ts fresh).cluster ≡ some front
    → Answers (run render ts fresh).cluster front
run-Answers render ts front honest h =
    Safe-Answers _ (run-Safe render ts fresh honest fresh-Safe) front h
