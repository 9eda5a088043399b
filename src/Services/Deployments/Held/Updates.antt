-- ===== src/Services/Deployments/Held/Updates.antt =====
-- Which updates of the row of a deployment (packages/server/src/repos/deployments.js) keep it good.
use ash_ml.Base.{
  ℕ, ◌≡◌, ◌≢◌, refl, sym, ap, subst, ◌∙◌, ◌⊎◌, inl, inr, Option, none, some, List, [], ◌∷◌, any,
  All, Bool-cases, ◌==◌, ==_iff,
}
use ash_ml.Services.Deployments.Rows.{
  DeploymentStatus, ObjectName, router_name, target_name, ServedVersion, Deployment, Judgement,
  update_target, record_target_launch, observed_target, record_target_observation, record_router,
  record_router_observation, record_observation,
}
use ash_ml.Services.Deployments.Status.{takes_traffic}
use ash_ml.Services.Deployments.Held.{placed, Sound, Fresh, Distinct, Good}

module _ (v : ℕ) (f : ServedVersion → ServedVersion) where
  pub update_target-All :
      (P R : ServedVersion → Type 0)
      → ((t : ServedVersion) → t.version ≡ v → P t → R t → P (f t))
      → (ts : List ServedVersion) → All P ts
      → All R ts
      → All P (update_target v f ts)
  unfolding update_target
  update_target-All P R h [] p r = tt
  update_target-All P R h (t ∷ ts) p r = elim (Bool-cases (t.version == v)) [
    | inl e ↦ rw e (h t ((==_iff t.version v).0 e) p.0 r.0, update_target-All P R h ts p.1 r.1)
    | inr e ↦ rw e (p.0, update_target-All P R h ts p.1 r.1)
  ]

  module _ (same : (t : ServedVersion) → (f t).version ≡ t.version) where
    update_target-Fresh :
        (u : ℕ) (ts : List ServedVersion) → Fresh u ts → Fresh u (update_target v f ts)
    unfolding update_target
    update_target-Fresh u [] h = tt
    update_target-Fresh u (t ∷ ts) h = elim (Bool-cases (t.version == v)) [
      | inl e ↦ rw e ((λ q. h.0 (sym (same t) ∙ q)), update_target-Fresh u ts h.1)
      | inr e ↦ rw e (h.0, update_target-Fresh u ts h.1)
    ]

    pub update_target-Distinct :
        (ts : List ServedVersion) → Distinct ts → Distinct (update_target v f ts)
    unfolding update_target
    update_target-Distinct [] d = tt
    update_target-Distinct (t ∷ ts) d = elim (Bool-cases (t.version == v)) [
      | inl e ↦ rw e (
        subst (λ n. Fresh n (update_target v f ts)) (sym (same t))
            (update_target-Fresh t.version ts d.0),
        update_target-Distinct ts d.1,
      )
      | inr e ↦ rw e (update_target-Fresh t.version ts d.0, update_target-Distinct ts d.1)
    ]

  pub update_target-serves :
      ((t : ServedVersion) → takes_traffic (f t) ≡ takes_traffic t)
      → (ts : List ServedVersion) → any takes_traffic (update_target v f ts) ≡ any takes_traffic ts
  unfolding update_target
  update_target-serves same [] = refl
  update_target-serves same (t ∷ ts) = elim (Bool-cases (t.version == v)) [
    | inl e ↦ rw (e, same t, update_target-serves same ts) refl
    | inr e ↦ rw (e, update_target-serves same ts) refl
  ]

-- An update of the targets that keeps weights and versions.
module _ (k : Option (Option ℕ)) where
  targets-Good :
      (v : ℕ) (f : ServedVersion → ServedVersion)
      → ((t : ServedVersion) → (f t).version ≡ t.version)
      → ((t : ServedVersion) → takes_traffic (f t) ≡ takes_traffic t)
      → (R : ServedVersion → Type 0)
      → ((t : ServedVersion) → t.version ≡ v → Sound t → R t → Sound (f t))
      → (d : Deployment) → Good k d
      → All R d.targets
      → Good k (record d { targets = update_target v f d.targets })
  unfolding placed
  targets-Good v f same weighs R sound d g r = record {
    local = record {
      place = g.local.place;
      sound = update_target-All v f Sound R sound d.targets g.local.sound r;
      router = g.local.router;
    };
    size = g.size;
    serves = update_target-serves v f weighs d.targets ∙ g.serves;
    distinct = update_target-Distinct v f same d.targets g.distinct;
  }

  pub any_target : (ts : List ServedVersion) → All (λ t. Unit {0}) ts
  any_target [] = tt
  any_target (t ∷ ts) = (tt, any_target ts)

  pub record_target_launch-Good :
      (v : ℕ) (d : Deployment) → Good k d → Good k (record_target_launch v (target_name v) d)
  unfolding record_target_launch takes_traffic
  record_target_launch-Good v d g =
      targets-Good v (λ t. record t { k8s_name = some (target_name v) }) (λ t. refl) (λ t. refl)
        (λ t. Unit {0})
        (λ t e s u. record {
          sized = s.sized;
          named = inr (ap (λ n. some (target_name n)) (sym e));
        })
        d g (any_target d.targets)

  pub record_target_observation-Good :
      (v : ℕ) (next : Judgement) (d : Deployment)
      → Good k d
      → All (λ t. t.version ≡ v → t.k8s_name ≢ none) d.targets
      → Good k (record_target_observation v next d)
  unfolding record_target_observation observed_target takes_traffic
  record_target_observation-Good v next d g r =
      targets-Good v (observed_target next) (λ t. refl) (λ t. refl)
        (λ t. t.version ≡ v → t.k8s_name ≢ none)
        (λ t e s l. record {
          sized = s.sized;
          named = elim s.named [ inl h ↦ absurd (l e h.0) | inr h ↦ inr h ];
        })
        d g r

  pub record_observation-Good :
      (next : Judgement) (d : Deployment) → Good k d → Good k (record_observation next d)
  unfolding record_observation placed
  record_observation-Good next d g = record {
    local = record { place = g.local.place; sound = g.local.sound; router = g.local.router };
    size = g.size;
    serves = g.serves;
    distinct = g.distinct;
  }

  router-Good :
      (name : Option ObjectName) (status : Option DeploymentStatus) (n : ℕ) (d : Deployment)
      → ((name ≡ none) × (n ≡ 0)) ⊎ (name ≡ some router_name)
      → Good k d
      → Good k
          (record d { router_k8s_name = name; router_status = status; router_ready_replicas = n })
  unfolding placed
  router-Good name status n d r g = record {
    local = record { place = g.local.place; sound = g.local.sound; router = r };
    size = g.size;
    serves = g.serves;
    distinct = g.distinct;
  }

  pub record_router-Good : (d : Deployment) → Good k d → Good k (record_router (some router_name) d)
  unfolding record_router
  record_router-Good d g =
      router-Good (some router_name) d.router_status d.router_ready_replicas d (inr refl) g

  pub no_router-Good : (d : Deployment) → Good k d → Good k (record_router none d)
  unfolding record_router
  no_router-Good d g = router-Good none none 0 d (inl (refl, refl)) g

  -- What is observed of a router is recorded where there is one.
  pub record_router_observation-Good :
      (next : Judgement) (d : Deployment)
      → d.router_k8s_name ≢ none
      → Good k d
      → Good k (record_router_observation next d)
  unfolding record_router_observation
  record_router_observation-Good next d named g =
      router-Good d.router_k8s_name (some next.status) next.ready_replicas d
        (elim g.local.router [ inl h ↦ absurd (named h.0) | inr h ↦ inr h ]) g
