-- ===== src/Services/Deployments/Apply/Kept.antt =====
-- `applyDesiredState` of packages/server/src/services/deployments.js never takes away what the front
-- Service selects.
use ash_ml.Base.{
  ℕ, ◌<◌, ◌≡◌, ◌≢◌, ◌∙◌, inl, inr, true, Option, none, some, List, [], ◌∷◌, keep, All, Bool-cases,
  Option-cases, ◌==◌, ==_iff, arith, some-eq,
}
use ash_ml.Services.Tables.{Text}
use ash_ml.Services.Deployments.Rows.{
  front_name, router_name, target_name, ServedVersion, Deployment,
}
use ash_ml.Services.Deployments.Status.{Pods, Message}
use ash_ml.Services.Deployments.Cluster.{
  Faults, Write, written_by, Service, Cluster, World, Outcome, threw, Act, did, update_row, call,
  apply_deployment, apply_service, with_object, with_service,
}
use ash_ml.Services.Deployments.Cluster.Runs.{Ends, Runs, pure-Runs, bind-Runs}
use ash_ml.Services.Deployments.Backed.{Backed, destination}
use ash_ml.Services.Deployments.Backed.Writes.{with_object-Backed, with_service-Backed}
use ash_ml.Services.Deployments.Held.{
  placed, Sound, Good, Held, catch-Runs, fail-Runs, update_row-Kept,
}
use ash_ml.Services.Deployments.Held.Updates.{record_target_launch-Good, record_observation-Good}
use ash_ml.Services.Deployments.Apply.{wanted_replicas, target_object, apply_target, apply_targets}

pub front-not_target : (v : ℕ) → front_name ≢ target_name v
front-not_target v e = cc

pub target-not_router : (v : ℕ) → target_name v ≢ router_name
target-not_router v e = cc

pub target-eq : (v w : ℕ) → target_name v ≡ target_name w → v ≡ w
target-eq v w e = cc

pub serving-placed : (d : Deployment) (s : Option ℕ) → placed d ≡ some s → d.serving_version ≡ s
unfolding placed
serving-placed d s h = elim (Option-cases d.k8s_name) [
  | inl e ↦ absurd (cc (rw e at h))
  | inr (n, e) ↦ some-eq (rw e at h)
]

-- The version that the address resolves to is never scaled away.
pub target_object-sized :
    (k : Option (Option ℕ)) (d : Deployment) (t : ServedVersion)
    → placed d ≡ k
    → Sound t
    → (s : Option ℕ) → k ≡ some s
    → (target_object d t).name ≡ destination s
    → 0 < (target_object d t).replicas
unfolding target_object destination wanted_replicas
target_object-sized k d t p sound none e n = absurd (target-not_router t.version n)
target_object-sized k d t p sound (some v) e n =
    let serving : d.serving_version ≡ some v = serving-placed d (some v) (p ∙ e) in
    let same : (t.version == v) ≡ true = (==_iff t.version v).1 (target-eq t.version v n) in
    rw (serving, same) (ground (arith, sound.sized))

-- A row and its cluster, and a property of the cluster beside them.
pub record With (k : Option (Option ℕ)) (X : Cluster → Type 0) (w : World) : Type 0 where
  pub kept : Held k w
  pub also : X w.cluster

module _ (render : Message → Text) (faults : Faults) (pods : ℕ → Pods) (k : Option (Option ℕ)) where
  -- A write that keeps the front backed, from one property of the cluster to another.
  pub call-With :
      (kind : Write) (X Y : Cluster → Type 0) (f : Cluster → Cluster)
      → ((c : Cluster) → Backed k c → Backed k (f c))
      → ((c : Cluster) → X c → Y (f c))
      → Runs (Held k) (With k X) (call faults pods kind f) (λ _. With k Y)
  unfolding call written_by
  call-With kind X Y f backed also = record {
    runs = λ w h. elim (Bool-cases (faults.throws w.calls)) [
      | inl e ↦ rw e record {
        deployment = h.kept.deployment;
        row = h.kept.row;
        good = h.kept.good;
        backed = elim (Bool-cases (faults.lands kind w.calls)) [
          | inl g ↦ rw g (backed w.cluster h.kept.backed)
          | inr g ↦ rw g (h.kept.backed)
        ];
      }
      | inr e ↦ rw e record {
        kept = record {
          deployment = h.kept.deployment;
          row = h.kept.row;
          good = h.kept.good;
          backed = backed w.cluster h.kept.backed;
        };
        also = also w.cluster h.also;
      }
    ];
  }

  -- A property that is forgotten again.
  pub forget-Runs :
      {A : Type 0} {P : World → Type 0} (X : Cluster → Type 0) {m : Act A}
      → Runs (Held k) P m (λ _. With k X)
      → Runs (Held k) P m (λ _. Held k)
  forget-Runs {A} X {m} r = record { runs = λ w p. after (m w) (r.runs w p) }
    where
      after : (o : Outcome A) → Ends (Held k) (λ _. With k X) o → Ends (Held k) (λ _. Held k) o
      after (did a w) h = h.kept
      after (threw e w) h = h

  pub update_row-With :
      (X : Cluster → Type 0) (f : Deployment → Deployment)
      → ((d : Deployment) → Good k d → Good k (f d))
      → Runs (Held k) (With k X) (update_row f) (λ _. With k X)
  unfolding update_row
  update_row-With X f good = record {
    runs = λ w h. record { kept = (update_row-Kept k f good).runs w h.kept; also = h.also };
  }

  -- What a target's turn brings about.
  pub apply_target-With :
      (X Y : Cluster → Type 0) (d : Deployment) (t : ServedVersion)
      → placed d ≡ k
      → Sound t
      → ((c : Cluster) → X c → Y (with_object (target_object d t) c))
      → ((s : Service) (c : Cluster) → Y c → Y (with_service s c))
      → Runs (Held k) (With k X) (apply_target render faults pods d t) (λ _. With k Y)
  unfolding apply_target apply_deployment apply_service target_object
  apply_target-With X Y d t p sound gain keep =
      bind-Runs (Held k)
        (catch-Runs
          (bind-Runs (Held k)
            (call-With _ X Y (with_object (target_object d t))
              (λ c.
                with_object-Backed k (target_object d t) c (target_object-sized k d t p sound)
                  (λ e. absurd (target-not_router t.version e)))
              gain)
            (λ _.
              call-With _ Y Y _ (λ c. with_service-Backed k _ c (front-not_target t.version))
                (keep _)))
          (λ e.
            bind-Runs (Held k) (update_row-Kept k _ (record_observation-Good k _))
              (λ _. fail-Runs e (λ w h. h))))
        (λ _. update_row-With Y _ (record_target_launch-Good k t.version))

  -- Several turns keep what none of them changes.
  pub apply_targets-With :
      (X : Cluster → Type 0) (d : Deployment) (ts : List ServedVersion)
      → placed d ≡ k
      → All Sound ts
      → All (λ t. (c : Cluster) → X c → X (with_object (target_object d t) c)) ts
      → ((s : Service) (c : Cluster) → X c → X (with_service s c))
      → Runs (Held k) (With k X) (apply_targets render faults pods d ts) (λ _. With k X)
  unfolding apply_targets
  apply_targets-With X d [] p sound keep same = pure-Runs (Held k) tt (λ w h. h)
  apply_targets-With X d (t ∷ ts) p sound keep same =
      bind-Runs (Held k) (apply_target-With X X d t p sound.0 keep.0 same)
        (λ _. apply_targets-With X d ts p sound.1 keep.1 same)
