-- ===== src/Services/Deployments/Sync/Seen.antt =====
-- What a pass of `syncDeployments` of packages/server/src/services/deployments.js knows of the cluster
-- once it has observed the versions and the router.
use ash_ml.Base.{
  ℕ, suc, ◌<◌, ◌≡◌, ◌≢◌, refl, sym, ap, subst, ◌∙◌, inl, inr, Bool, true, false, ◌&&◌, Option, none,
  some, List, [], ◌∷◌, All, Bool-cases, Option-cases, ltb, leb, ◌==◌, arith, some-eq,
}
use ash_ml.Services.Tables.{Text}
use ash_ml.Services.Deployments.Rows.{
  DeploymentStatus, ready, ObjectName, router_name, target_name, ServedVersion, Deployment,
  Judgement, observed_target, record_target_observation, record_router_observation,
}
use ash_ml.Services.Deployments.Status.{Pods, Message, status_from_pods, status_from_observation}
use ash_ml.Services.Deployments.Cluster.{
  Faults, Cluster, World, Act, ◌>>◌, pure, update_row, object_of, observe_deployment,
}
use ash_ml.Services.Deployments.Cluster.Runs.{Runs, pure-Runs, bind-Runs}
use ash_ml.Services.Deployments.Backed.{Backed, IsSized}
use ash_ml.Services.Deployments.Held.{placed, Sound, Fresh, Distinct, Local, Good, Held}
use ash_ml.Services.Deployments.Held.Updates.{
  update_target-All, any_target, record_target_observation-Good, record_router_observation-Good,
}
use ash_ml.Services.Deployments.Sync.{
  target_changed, router_changed, when, observe_named, observe_launched, observe_target,
  observe_router_named, observe_targets, observe_router,
}

-- That the rows of a version say that it is launched.
abbrev pub Launched : ℕ → List ServedVersion → Type 0
Launched v = All (λ t. t.version ≡ v → t.k8s_name ≢ none)

-- What was launched when the row was read is launched in the row now.
pub record Linked (before now : Deployment) : Type 0 where
  pub launched : (v : ℕ) → Launched v before.targets → Launched v now.targets
  pub routed : before.router_k8s_name ≢ none → now.router_k8s_name ≢ none

pub record Seen (k : Option (Option ℕ)) (c : Cluster) (before : Deployment) (w : World)
    : Type 0 where
  pub kept : Held k w
  pub same_cluster : w.cluster ≡ c
  pub linked : Linked before kept.deployment

-- A target as it was observed: where it is READY, its object asks for pods.
pub record Observed (c : Cluster) (t : ServedVersion) : Type 0 where
  pub sound : Sound t
  pub evidence : t.status ≡ ready → IsSized (target_name t.version) c

-- What a Deployment that was seen asks for.
abbrev pub Witnessed : Cluster → ObjectName → Option Pods → Type 0
Witnessed c name none = Unit
Witnessed c name (some p) = (o : _) × (object_of name c ≡ some o) × (p.desired ≡ o.replicas)

module _ (render : Message → Text) (faults : Faults) (pods : ℕ → Pods) (k : Option (Option ℕ))
    (c : Cluster) (before : Deployment) where
  counted : (w : World) → Seen k c before w → Seen k c before (record w { calls = suc w.calls })
  counted w h = record {
    kept = record {
      deployment = h.kept.deployment;
      row = h.kept.row;
      good = h.kept.good;
      backed = h.kept.backed;
    };
    same_cluster = h.same_cluster;
    linked = record { launched = h.linked.launched; routed = h.linked.routed };
  }

  observe-Seen :
      (name : ObjectName)
      → Runs
          (Held k)
          (Seen k c before)
          (observe_deployment faults pods name)
          (λ seen w. Seen k c before w × Witnessed c name seen)
  unfolding observe_deployment
  observe-Seen name = record {
    runs = λ w h. elim (Bool-cases (faults.throws w.calls)) [
      | inl e ↦ simp e ((counted w h).kept)
      | inr e ↦ elim (Option-cases (object_of name w.cluster)) [
        | inl f ↦ simp (e, f) (counted w h, tt)
        | inr (o, f) ↦
            simp (e, f)
              (counted w h, (o, subst (λ x. object_of name x ≡ some o) h.same_cluster f, refl))
      ]
    ];
  }

  update-Seen :
      (f : Deployment → Deployment)
      → ((d : Deployment) → Good k d → Linked before d → Good k (f d))
      → ((d : Deployment) → Linked before d → Linked before (f d))
      → Runs (Held k) (Seen k c before) (update_row f) (λ _. Seen k c before)
  unfolding update_row
  update-Seen f good linked = record {
    runs = λ w h. record {
      kept = record {
        deployment = f h.kept.deployment;
        row = rw (h.kept.row) refl;
        good = good h.kept.deployment h.kept.good h.linked;
        backed = h.kept.backed;
      };
      same_cluster = h.same_cluster;
      linked = linked h.kept.deployment h.linked;
    };
  }

  when-Seen :
      (b : Bool) (m : Act (Unit {0}))
      → Runs (Held k) (Seen k c before) m (λ _. Seen k c before)
      → Runs (Held k) (Seen k c before) (when b m) (λ _. Seen k c before)
  when-Seen true m r = r
  when-Seen false m r = pure-Runs (Held k) tt (λ w h. h)

  -- A conclusion of READY has seen as many pods as were asked for, and some.
  ready-IsSized :
      (name : ObjectName) (seen : Option Pods) (previous : Option DeploymentStatus)
      → Witnessed c name seen
      → (status_from_observation render seen previous).status ≡ ready
      → IsSized name c
  unfolding status_from_observation status_from_pods
  ready-IsSized name none previous x h = cc
  ready-IsSized name (some p) previous (o, e, q) h = elim (Bool-cases (p.desired == 0)) [
    | inr f ↦ record { object = o; exists = e; sized = ground (arith, f, q) }
    | inl f ↦
        let short : (leb p.desired p.ready_pods && ltb 0 p.desired) ≡ false = ground (arith, f) in
        absurd (cc (rw (short, f) at h))
  ]

  -- A pod that is ready belongs to a Deployment that exists.
  pods-exist :
      (name : ObjectName) (seen : Option Pods) (previous : Option DeploymentStatus)
      → Witnessed c name seen
      → 0 < (status_from_observation render seen previous).ready_replicas
      → (o : _) × (object_of name c ≡ some o)
  unfolding status_from_observation
  pods-exist name none previous x h = absurd (omega (arith, h))
  pods-exist name (some p) previous (o, e, q) h = (o, e)

  launched-update :
      (v : ℕ) (next : Judgement) (d : Deployment)
      → Linked before d
      → Linked before (record_target_observation v next d)
  unfolding record_target_observation observed_target
  launched-update v next d l = record {
    launched = λ u h.
        update_target-All v (observed_target next) (λ t. t.version ≡ u → t.k8s_name ≢ none)
          (λ t. Unit {0}) (λ t e x y. x) d.targets (l.launched u h) (any_target k d.targets);
    routed = l.routed;
  }

  observe_named-Seen :
      (t : ServedVersion) (name : ObjectName)
      → t.k8s_name ≡ some name
      → name ≡ target_name t.version
      → Launched t.version before.targets
      → Sound t
      → Runs
          (Held k)
          (Seen k c before)
          (observe_named render faults pods t name)
          (λ s w. Seen k c before w × Observed c s)
  unfolding observe_named
  observe_named-Seen t name named own l sound = bind-Runs (Held k) (observe-Seen name) (λ seen.
      let next = status_from_observation render seen (some t.status) in
      record {
        runs = λ w h.
            (bind-Runs (Held k)
                (when-Seen (target_changed next t) _ (
                  update-Seen (record_target_observation t.version next)
                    (λ d g x.
                      record_target_observation-Good k t.version next d g (x.launched t.version l))
                    (launched-update t.version next)))
                (λ _. pure-Runs (Held k) _ (λ w x. (x, observed seen h.1)))).runs
              w h.0;
      })
    where
      observed :
          (seen : Option Pods)
          → Witnessed c name seen
          → Observed c (observed_target (status_from_observation render seen (some t.status)) t)
      observed seen x =
          unfold observed_target in
          record {
            sound = record { sized = sound.sized; named = inr (named ∙ ap some own) };
            evidence =
                λ e. subst (λ n. IsSized n c) own (ready-IsSized name seen (some t.status) x e);
          }

  observe_target-Seen :
      (t : ServedVersion)
      → Sound t
      → (t.k8s_name ≢ none → Launched t.version before.targets)
      → Runs
          (Held k)
          (Seen k c before)
          (observe_target render faults pods t)
          (λ s w. Seen k c before w × Observed c s)
  unfolding observe_target
  observe_target-Seen t sound l = launched t.k8s_name refl
    where
      launched :
          (name : Option ObjectName)
          → t.k8s_name ≡ name
          → Runs
              (Held k)
              (Seen k c before)
              (observe_launched render faults pods t name)
              (λ s w. Seen k c before w × Observed c s)
      launched none e =
          unfold observe_launched in
          elim sound.named [
            | inl h ↦
                pure-Runs (Held k) t
                  (λ w x. (x, record { sound = sound; evidence = λ q. absurd (h.1 q) }))
            | inr h ↦ absurd (cc (e, h))
          ]
      launched (some name) e =
          unfold observe_launched in
          elim sound.named [
            | inl h ↦ absurd (cc (e, h.0))
            | inr h ↦
                let own : name ≡ target_name t.version = some-eq (sym e ∙ h) in
                observe_named-Seen t name e own (l (λ q. cc (e, q))) sound
          ]

  pub observe_targets-Seen :
      (ts : List ServedVersion)
      → All Sound ts
      → All (λ t. t.k8s_name ≢ none → Launched t.version before.targets) ts
      → Runs
          (Held k)
          (Seen k c before)
          (observe_targets render faults pods ts)
          (λ seen w. Seen k c before w × All (Observed c) seen)
  unfolding observe_targets
  observe_targets-Seen [] s l = pure-Runs (Held k) [] (λ w x. (x, tt))
  observe_targets-Seen (t ∷ ts) s l = bind-Runs (Held k) (observe_target-Seen t s.0 l.0) (λ one.
      record {
        runs = λ w h.
            (bind-Runs (Held k) (observe_targets-Seen ts s.1 l.1)
                (λ rest. pure-Runs (Held k) _ (λ w x. (x.0, (h.1, x.1))))).runs
              w h.0;
      })

  -- The copy of the row that the rest of the pass works with.
  pub record Known (d : Deployment) : Type 0 where
    pub local : Local k d
    pub versions : All (Observed c) d.targets
    pub router_seen : 0 < d.router_ready_replicas → IsSized router_name c

  -- The copy with what was observed of its versions.
  pub observe_router-Seen :
      (d : Deployment)
      → Local k d
      → All (Observed c) d.targets
      → d.router_k8s_name ≡ before.router_k8s_name
      → Backed k c
      → Runs
          (Held k)
          (Seen k c before)
          (observe_router render faults pods d)
          (λ seen w. Seen k c before w × Known seen)
  unfolding observe_router
  observe_router-Seen d l versions same backed = routed d.router_k8s_name refl
    where
      observed :
          (seen : Option Pods)
          → d.router_k8s_name ≡ some router_name
          → Witnessed c router_name seen
          → Known
              (record_router_observation (status_from_observation render seen d.router_status) d)
      observed seen e x =
          unfold record_router_observation placed in
          record {
            local = record { place = l.place; sound = l.sound; router = inr e };
            versions = versions;
            router_seen = λ r.
                let (o, f) = pods-exist router_name seen d.router_status x r in
                record { object = o; exists = f; sized = backed.router o f };
          }

      recorded :
          (seen : Option Pods)
          → d.router_k8s_name ≡ some router_name
          → Witnessed c router_name seen
          → Runs
              (Held k)
              (Seen k c before)
              (let next = status_from_observation render seen d.router_status in
                when (router_changed next d) (update_row (record_router_observation next))
                >> pure (record_router_observation next d))
              (λ seen w. Seen k c before w × Known seen)
      recorded seen e x =
          let next = status_from_observation render seen d.router_status in
          let there : before.router_k8s_name ≢ none = λ q. cc (same, e, q) in
          bind-Runs (Held k)
            (when-Seen (router_changed next d) _ (
              update-Seen (record_router_observation next)
                (λ u g z. record_router_observation-Good k next u (z.routed there) g)
                (λ u z.
                  unfold record_router_observation in
                  record { launched = z.launched; routed = z.routed })))
            (λ _. pure-Runs (Held k) _ (λ w z. (z, observed seen e x)))

      routed :
          (name : Option ObjectName)
          → d.router_k8s_name ≡ name
          → Runs
              (Held k)
              (Seen k c before)
              (observe_router_named render faults pods d name)
              (λ seen w. Seen k c before w × Known seen)
      routed none e =
          unfold observe_router_named in
          elim l.router [
            | inl h ↦ pure-Runs (Held k) d (λ w x. (
              x,
              record {
                local = l;
                versions = versions;
                router_seen = λ r. absurd (omega (arith, h.1, r));
              },
            ))
            | inr h ↦ absurd (cc (e, h))
          ]
      routed (some name) e =
          unfold observe_router_named in
          elim l.router [
            | inl h ↦ absurd (cc (e, h.0))
            | inr h ↦
                let own : router_name ≡ name = some-eq (sym h ∙ e) in
                bind-Runs (Held k) (observe-Seen name) (λ seen. record {
                  runs = λ w x.
                      (recorded seen h (subst (λ n. Witnessed c n seen) (sym own) x.1)).runs w x.0;
                })
          ]

-- What each version's own row says of its launch, where versions stand once.
pub Distinct-Launched :
    (ts : List ServedVersion)
    → Distinct ts
    → All (λ t. t.k8s_name ≢ none → Launched t.version ts) ts
Distinct-Launched [] d = tt
Distinct-Launched (t ∷ ts) d =
    ((λ h. ((λ _. h), others t.version ts d.0)), later ts d.0 (Distinct-Launched ts d.1))
  where
    others : (v : ℕ) (us : List ServedVersion) → Fresh v us → Launched v us
    others v [] f = tt
    others v (u ∷ us) f = ((λ e. absurd (f.0 e)), others v us f.1)

    later :
        (us : List ServedVersion)
        → Fresh t.version us
        → All (λ u. u.k8s_name ≢ none → Launched u.version ts) us
        → All (λ u. u.k8s_name ≢ none → Launched u.version (t ∷ ts)) us
    later [] f h = tt
    later (u ∷ us) f h = ((λ n. ((λ e. absurd (f.0 (sym e))), h.0 n)), later us f.1 h.1)
