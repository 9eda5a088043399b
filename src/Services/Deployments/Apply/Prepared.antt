-- ===== src/Services/Deployments/Apply/Prepared.antt =====
-- What applying the versions and the router leaves in the cluster, before the front Service, in
-- packages/server/src/services/deployments.js.
use ash_ml.Base.{
  ℕ, ◌<◌, ◌≡◌, ◌≢◌, refl, subst, ◌∙◌, inl, inr, true, false, ◌&&◌, Option, none, some, List, [],
  ◌∷◌, map, any, All, if◌then◌else◌, Bool-cases, Option-cases, ltb, ◌==◌, arith,
}
use ash_ml.Services.Tables.{Text}
use ash_ml.Domain.Routing.Choice.{needs_router}
use ash_ml.Services.Deployments.Rows.{
  ObjectName, front_name, router_name, target_name, ServedVersion, Deployment, record_launch,
  record_serving_version, record_router,
}
use ash_ml.Services.Deployments.Status.{Pods, Message, takes_traffic}
use ash_ml.Services.Deployments.Front.{
  Front, on_nothing, on_router, on_version, weight_of, desired_front, desired_among,
  serving_targets, same_front,
}
use ash_ml.Services.Deployments.Cluster.{
  Faults, Object, Service, Cluster, World, Act, ◌>>◌, pure, update_row, apply_deployment,
  with_object, with_service,
}
use ash_ml.Services.Deployments.Cluster.Runs.{Runs, pure-Runs, bind-Runs}
use ash_ml.Services.Deployments.Backed.{destination, IsSized, object_of-with_service, object_of-own}
use ash_ml.Services.Deployments.Backed.Writes.{with_object-Backed, with_object-IsSized}
use ash_ml.Services.Deployments.Held.{
  placed, Sound, Fresh, Distinct, Local, Good, Held, Kept, if-Runs, then-Kept,
}
use ash_ml.Services.Deployments.Held.Updates.{record_router-Good}
use ash_ml.Services.Deployments.Apply.{
  wanted_replicas, target_object, router_replicas, version_of, apply_target, apply_targets,
  is_named_router, apply_router,
}
use ash_ml.Services.Deployments.Apply.Kept.{
  With, call-With, forget-Runs, update_row-With, apply_target-With, apply_targets-With,
}

-- That a version is served and takes traffic.
pub Serves : ℕ → List ServedVersion → Type 0
Serves v ts = any (λ t. (t.version == v) && ltb 0 t.traffic_weight) ts ≡ true

-- The version that the front should be on takes traffic.
pub desired-Serves :
    (v : ℕ) (ts all : List ServedVersion)
    → desired_among (serving_targets ts) all ≡ on_version v
    → Serves v ts
unfolding desired_among serving_targets Serves
desired-Serves v [] all h = cc
desired-Serves v (t ∷ ts) all h = elim (Bool-cases (ltb 0 t.traffic_weight)) [
  | inr e ↦ rw e (ground (arith, desired-Serves v ts all (rw e at h)))
  | inl e ↦ elim (Bool-cases (needs_router (map weight_of all))) [
    | inl n ↦ absurd (cc (rw (e, n) at h))
    | inr n ↦
        let same : on_version t.version ≡ on_version v = rw (e, n) at h in
        let version : t.version ≡ v = cc same in ground (arith, e, version)
  ]
]

-- Something takes traffic, so the front should be somewhere.
desired-somewhere :
    (ts all : List ServedVersion)
    → any takes_traffic ts ≡ true
    → desired_among (serving_targets ts) all ≢ on_nothing
unfolding desired_among serving_targets takes_traffic
desired-somewhere [] all h e = cc
desired-somewhere (t ∷ ts) all h e = elim (Bool-cases (ltb 0 t.traffic_weight)) [
  | inr f ↦ desired-somewhere ts all (rw f at h) (rw f at e)
  | inl f ↦ elim (Bool-cases (needs_router (map weight_of all))) [
    | inl n ↦ cc (rw (f, n) at e)
    | inr n ↦ cc (rw (f, n) at e)
  ]
]

wanted-sized :
    (d : Deployment) (t : ServedVersion)
    → Sound t
    → ltb 0 t.traffic_weight ≡ true
    → 0 < (target_object d t).replicas
unfolding target_object wanted_replicas
wanted-sized d t s h = elim (Option-cases d.serving_version) [
  | inl e ↦ rw (e, h) (s.sized)
  | inr (v, e) ↦ rw (e, h) (s.sized)
]

module _ (render : Message → Text) (faults : Faults) (pods : ℕ → Pods) (k : Option (Option ℕ)) where
  service-IsSized :
      (n : ObjectName) (s : Service) (c : Cluster) → IsSized n c → IsSized n (with_service s c)
  service-IsSized n s c h = record {
    object = h.object;
    exists = object_of-with_service n s c ∙ h.exists;
    sized = h.sized;
  }

  others-keep :
      (v : ℕ) (d : Deployment) (ts : List ServedVersion)
      → Fresh v ts
      → All
          (λ t.
            (c : Cluster)
            → IsSized (target_name v) c
            → IsSized (target_name v) (with_object (target_object d t) c))
          ts
  unfolding target_object
  others-keep v d [] f = tt
  others-keep v d (t ∷ ts) f = (
    (λ c. with_object-IsSized (target_name v) (target_object d t) c (λ e. absurd (f.0 (cc e)))),
    others-keep v d ts f.1,
  )

  own-IsSized : (o : Object) (c : Cluster) → 0 < o.replicas → IsSized o.name (with_object o c)
  own-IsSized o c h = record { object = o; exists = object_of-own o c; sized = h }

  pub plain :
      {A : Type 0} {m : Act A} {Q : A → World → Type 0}
      → Runs (Held k) (With k (λ c. Unit {0})) m Q
      → Runs (Held k) (Held k) m Q
  plain r = record { runs = λ w x. r.runs w (record { kept = x; also = tt }) }

  apply_target-Kept :
      (d : Deployment) (t : ServedVersion)
      → placed d ≡ k
      → Sound t
      → Kept k (apply_target render faults pods d t)
  apply_target-Kept d t p s =
      forget-Runs render faults pods k (λ c. Unit {0})
        (plain (
          apply_target-With render faults pods k (λ c. Unit {0}) (λ c. Unit {0}) d t p s (λ c y. y)
            (λ _ c y. y)))

  pub apply_targets-Kept :
      (d : Deployment) (ts : List ServedVersion)
      → placed d ≡ k
      → All Sound ts
      → Kept k (apply_targets render faults pods d ts)
  unfolding apply_targets
  apply_targets-Kept d [] p s = pure-Runs (Held k) tt (λ w x. x)
  apply_targets-Kept d (t ∷ ts) p s =
      then-Kept k (apply_target-Kept d t p s.0) (apply_targets-Kept d ts p s.1)

  -- A version that takes traffic has pods when the targets are applied.
  pub apply_targets-gains :
      (v : ℕ) (d : Deployment) (ts : List ServedVersion)
      → placed d ≡ k
      → All Sound ts
      → Distinct ts
      → Serves v ts
      → Runs
          (Held k)
          (Held k)
          (apply_targets render faults pods d ts)
          (λ _. With k (IsSized (target_name v)))
  unfolding apply_targets Serves target_object
  apply_targets-gains v d [] p s u h = cc
  apply_targets-gains v d (t ∷ ts) p s u h =
      elim (Bool-cases ((t.version == v) && ltb 0 t.traffic_weight)) [
        | inl e ↦
            let version : t.version ≡ v = ground (arith, e) in
            let traffic : ltb 0 t.traffic_weight ≡ true = ground (arith, e) in
            let fresh : Fresh v ts = subst (λ n. Fresh n ts) version u.0 in
            bind-Runs (Held k)
              (record {
                runs = λ w x.
                    (apply_target-With render faults pods k (λ c. Unit {0})
                        (IsSized (target_name v)) d t p s.0
                        (λ c y.
                          subst (λ n. IsSized (target_name n) (with_object (target_object d t) c))
                            version
                            (own-IsSized (target_object d t) c (wanted-sized d t s.0 traffic)))
                        (service-IsSized (target_name v))).runs
                      w (record { kept = x; also = tt });
              })
              (λ _.
                apply_targets-With render faults pods k (IsSized (target_name v)) d ts p s.1
                  (others-keep v d ts fresh) (service-IsSized (target_name v)))
        | inr e ↦
            bind-Runs (Held k) (apply_target-Kept d t p s.0)
              (λ _. apply_targets-gains v d ts p s.1 u.1 (rw e at h))
      ]

  -- What `applyDesiredState` has when it looks at the front: a copy of the row, and, where the front is
  -- still to be created, pods for what it should select.
  same_front-router : (f : Front) → same_front f on_router ≡ true → f ≡ on_router
  unfolding same_front
  same_front-router on_router h = refl
  same_front-router on_nothing h = cc
  same_front-router (on_version v) h = cc

  pub record Ready (d : Deployment) (w : World) : Type 0 where
    pub kept : Held k w
    pub copy : Local k d
    pub prepared : k ≡ none → IsSized (destination (version_of (desired_front d.targets))) w.cluster

  pub apply_router-Ready :
      (d : Deployment)
      → Good k d
      → Runs
          (Held k)
          (λ w.
            Held k w
            × ((v : ℕ)
                → desired_front d.targets ≡ on_version v
                → IsSized (target_name v) w.cluster))
          (apply_router render faults pods d)
          Ready
  unfolding apply_router apply_deployment destination version_of same_front
  apply_router-Ready d g = elim (Bool-cases (same_front (desired_front d.targets) on_router)) [
    | inr e ↦ rw e (
        pure-Runs (Held k) d (λ w h. record {
          kept = h.0;
          copy = g.local;
          prepared = λ _. unrouted (desired_front d.targets) refl e w h.1;
        }))
    | inl e ↦ rw e (
        bind-Runs (Held k)
          (first (
            call-With render faults pods k _ (λ c. Unit {0}) (IsSized router_name)
              (with_object record { name = router_name; replicas = router_replicas })
              (λ c. with_object-Backed k _ c (λ _ _ _. omega arith) (λ _. omega arith))
              (λ c _.
                own-IsSized record { name = router_name; replicas = router_replicas } c
                  (omega arith))))
          (λ _. named (same_front-router (desired_front d.targets) e)))
  ]
    where
      first :
          {A : Type 0} {m : Act A} {Q : A → World → Type 0} {P : World → Type 0}
          → Runs (Held k) (With k (λ c. Unit {0})) m Q
          → Runs (Held k) (λ w. Held k w × P w) m Q
      first r = record { runs = λ w x. r.runs w (record { kept = x.0; also = tt }) }

      unrouted :
          (f : Front)
          → desired_front d.targets ≡ f
          → same_front f on_router ≡ false
          → (w : World)
          → ((v : ℕ) → desired_front d.targets ≡ on_version v → IsSized (target_name v) w.cluster)
          → IsSized (destination (version_of f)) w.cluster
      unrouted on_nothing e s w h = absurd (nowhere e)
        where
          nowhere : desired_front d.targets ≢ on_nothing
          nowhere = unfold desired_front in desired-somewhere d.targets d.targets g.serves
      unrouted on_router e s w h = cc
      unrouted (on_version v) e s w h = h v e

      renamed : Local k (record d { router_k8s_name = some router_name })
      renamed =
          unfold placed in
          record { place = g.local.place; sound = g.local.sound; router = inr refl }

      named :
          desired_front d.targets ≡ on_router
          → Runs
              (Held k)
              (With k (IsSized router_name))
              (if is_named_router render faults pods d.router_k8s_name
                then pure d
                else (update_row (record_router (some router_name))
                    >> pure (record d { router_k8s_name = some router_name })))
              Ready
      named e =
          if-Runs _
            (λ _.
              pure-Runs (Held k) d
                (λ w h. record { kept = h.kept; copy = g.local; prepared = λ _. rw e (h.also) }))
            (λ _.
              bind-Runs (Held k)
                (update_row-With render faults pods k (IsSized router_name)
                  (record_router (some router_name)) (record_router-Good k))
                (λ _.
                  pure-Runs (Held k) _ (λ w h. record {
                    kept = h.kept;
                    copy = renamed;
                    prepared = λ _. rw e (h.also);
                  })))

  pub launched-Good :
      (v : Option ℕ) (d : Deployment)
      → Good k d
      → Good (some v) (record_serving_version v (record_launch front_name d))
  unfolding record_serving_version record_launch placed
  launched-Good v d g = record {
    local = record { place = refl; sound = g.local.sound; router = g.local.router };
    size = g.size;
    serves = g.serves;
    distinct = g.distinct;
  }
