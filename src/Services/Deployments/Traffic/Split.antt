-- ===== src/Services/Deployments/Traffic/Split.antt =====
-- What the transactions of packages/server/src/services/deployments.js leave in the row: versions once
-- each, replicas, and a version that takes traffic.
use ash_ml.Base.{
  ℕ, ◌<◌, ◌≡◌, ◌≢◌, refl, sym, ◌∙◌, inl, inr, Bool, true, false, ◌&&◌, Option, List, [], ◌∷◌, any,
  All, sum_by, Bool-cases, ltb, ◌==◌, arith,
}
use ash_ml.Domain.Routing.Weights
use ash_ml.Domain.Routing.Weights.{total_weight}
use ash_ml.Domain.Routing.Rollout.Valid
use ash_ml.Services.Deployments.Rows.{
  ServedVersion, Deployment, new_target, insert_target, update_target, upsert_target, set_weight,
  set_weights,
}
use ash_ml.Services.Deployments.Status.{takes_traffic}
use ash_ml.Services.Deployments.Held.{placed, Sound, Fresh, Distinct, Local, Good}
use ash_ml.Services.Deployments.Held.Updates.{update_target-All, update_target-Distinct, any_target}
use ash_ml.Services.Deployments.Traffic.{take_out_others, deploy_version}

-- A row but for the traffic.
pub record Base (k : Option (Option ℕ)) (d : Deployment) : Type 0 where
  pub local : Local k d
  pub size : 0 < d.replicas
  pub distinct : Distinct d.targets

abbrev pub served : ℕ → List ServedVersion → Bool
served v = any (λ t. t.version == v)

pub insert_target-All :
    (P : ServedVersion → Type 0) (t : ServedVersion) (ts : List ServedVersion)
    → P t
    → All P ts
    → All P (insert_target t ts)
unfolding insert_target
insert_target-All P t [] p h = (p, tt)
insert_target-All P t (u ∷ ts) p h = elim (Bool-cases (ltb t.version u.version)) [
  | inl e ↦ rw e (p, h)
  | inr e ↦ rw e (h.0, insert_target-All P t ts p h.1)
]

insert_target-Distinct :
    (t : ServedVersion) (ts : List ServedVersion)
    → Fresh t.version ts
    → Distinct ts
    → Distinct (insert_target t ts)
unfolding insert_target
insert_target-Distinct t [] f d = (tt, tt)
insert_target-Distinct t (u ∷ ts) f d = elim (Bool-cases (ltb t.version u.version)) [
  | inl e ↦ rw e (f, d)
  | inr e ↦ rw e (
    insert_target-All (λ x. x.version ≢ u.version) t ts (λ q. f.0 (sym q)) d.0,
    insert_target-Distinct t ts f.1 d.1,
  )
]

insert_target-serves :
    (t : ServedVersion) (ts : List ServedVersion)
    → takes_traffic t ≡ true
    → any takes_traffic (insert_target t ts) ≡ true
unfolding insert_target
insert_target-serves t [] h = rw h refl
insert_target-serves t (u ∷ ts) h = elim (Bool-cases (ltb t.version u.version)) [
  | inl e ↦ rw (e, h) refl
  | inr e ↦ rw (e, insert_target-serves t ts h) (ground arith)
]

unserved-Fresh : (v : ℕ) (ts : List ServedVersion) → served v ts ≡ false → Fresh v ts
unserved-Fresh v [] h = tt
unserved-Fresh v (t ∷ ts) h = ((λ e. ground (arith, h, e)), unserved-Fresh v ts (ground (arith, h)))

-- That a version is served and takes traffic.
pub serving : ℕ → List ServedVersion → Bool
serving v = any (λ t. (t.version == v) && takes_traffic t)

serving-any : (v : ℕ) (ts : List ServedVersion) → serving v ts ≡ true → any takes_traffic ts ≡ true
unfolding serving
serving-any v [] h = h
serving-any v (t ∷ ts) h = ground (arith, serving-any v ts)

update_target-serving :
    (v : ℕ) (f : ServedVersion → ServedVersion)
    → ((t : ServedVersion) → (f t).version ≡ t.version)
    → ((t : ServedVersion) → takes_traffic (f t) ≡ true)
    → (ts : List ServedVersion) → served v ts ≡ true
    → serving v (update_target v f ts) ≡ true
unfolding serving update_target takes_traffic
update_target-serving v f same traffic [] h = h
update_target-serving v f same traffic (t ∷ ts) h = elim (Bool-cases (t.version == v)) [
  | inl e ↦ rw (e, same t, e, traffic t) refl
  | inr e ↦ rw (e, e) (update_target-serving v f same traffic ts (rw e at h))
]

set_weight-serving :
    (v u weight : ℕ) (ts : List ServedVersion)
    → u ≢ v
    → serving v ts ≡ true
    → serving v (set_weight u weight ts) ≡ true
unfolding serving set_weight update_target takes_traffic
set_weight-serving v u weight [] n h = h
set_weight-serving v u weight (t ∷ ts) n h =
    ground (arith, n, h, set_weight-serving v u weight ts n)

set_weights-serving :
    (v : ℕ) (ws : List Weights.Target) (ts : List ServedVersion)
    → All (λ w. w.version ≢ v) ws
    → serving v ts ≡ true
    → serving v (set_weights ws ts) ≡ true
unfolding set_weights
set_weights-serving v [] ts n h = h
set_weights-serving v (w ∷ ws) ts n h =
    set_weights-serving v ws _ n.1 (set_weight-serving v w.version w.weight ts n.0 h)

set_weight-served :
    (v u weight : ℕ) (ts : List ServedVersion) → served v (set_weight u weight ts) ≡ served v ts
unfolding set_weight update_target
set_weight-served v u weight [] = refl
set_weight-served v u weight (t ∷ ts) = elim (Bool-cases (t.version == u)) [
  | inl e ↦ rw (e, set_weight-served v u weight ts) refl
  | inr e ↦ rw (e, set_weight-served v u weight ts) refl
]

abbrev pub AllServed : List Weights.Target → List ServedVersion → Type 0
AllServed ws ts = All (λ w. served w.version ts ≡ true) ws

still-served :
    (u weight : ℕ) (ws : List Weights.Target) (ts : List ServedVersion)
    → AllServed ws ts
    → AllServed ws (set_weight u weight ts)
still-served u weight [] ts h = tt
still-served u weight (w ∷ ws) ts h =
    (set_weight-served w.version u weight ts ∙ h.0, still-served u weight ws ts h.1)

-- A split over the versions that are served, once each, gives its traffic to some of them.
pub set_weights-serves :
    (ws : List Weights.Target) (ts : List ServedVersion)
    → Valid.Distinct ws
    → AllServed ws ts
    → 0 < sum_by (λ w. w.weight) ws
    → any takes_traffic (set_weights ws ts) ≡ true
unfolding set_weights takes_traffic
set_weights-serves [] ts d a h = absurd (omega (arith, h))
set_weights-serves (w ∷ ws) ts d a h = elim (Bool-cases (ltb 0 w.weight)) [
  | inr e ↦
      set_weights-serves ws _ d.1 (still-served w.version w.weight ws ts a.1) (ground (arith, h, e))
  | inl e ↦
      let now : serving w.version (set_weight w.version w.weight ts) ≡ true =
        unfold set_weight in
        update_target-serving w.version (λ t. record t { traffic_weight = w.weight }) (λ t. refl)
          (λ t. e) ts a.0 in
      serving-any w.version _ (set_weights-serving w.version ws _ d.0 now)
]

-- A write of weights and sizes.
module _ (k : Option (Option ℕ)) where
  targets-Base :
      (v : ℕ) (f : ServedVersion → ServedVersion) (d : Deployment)
      → ((t : ServedVersion) → (f t).version ≡ t.version)
      → ((t : ServedVersion) → Sound t → Sound (f t))
      → Base k d
      → Base k (record d { targets = update_target v f d.targets })
  unfolding placed
  targets-Base v f d same sound b = record {
    local = record {
      place = b.local.place;
      sound =
          update_target-All v f Sound (λ t. Unit {0}) (λ t e s u. sound t s) d.targets b.local.sound
            (any_target k d.targets);
      router = b.local.router;
    };
    size = b.size;
    distinct = update_target-Distinct v f same d.targets b.distinct;
  }

  pub upsert_target-Base :
      (v weight replicas : ℕ) (d : Deployment)
      → 0 < replicas
      → Base k d
      → Base k (upsert_target v weight replicas d)
  unfolding upsert_target placed new_target
  upsert_target-Base v weight replicas d h b = elim (Bool-cases (served v d.targets)) [
    | inl e ↦ rw e (
        targets-Base v (λ t. record t { traffic_weight = weight; replicas = replicas }) d
          (λ t. refl) (λ t s. record { sized = h; named = s.named }) b)
    | inr e ↦ rw e record {
      local = record {
        place = b.local.place;
        sound = insert_target-All Sound _ d.targets fresh b.local.sound;
        router = b.local.router;
      };
      size = b.size;
      distinct = insert_target-Distinct _ d.targets (unserved-Fresh v d.targets e) b.distinct;
    }
  ]
    where
      fresh : Sound (new_target v weight replicas)
      fresh = record { sized = h; named = inl (refl, (λ e. cc)) }

  pub set_weights-Base :
      (ws : List Weights.Target) (d : Deployment)
      → Base k d
      → Base k (record d { targets = set_weights ws d.targets })
  unfolding set_weights set_weight
  set_weights-Base [] d b = b
  set_weights-Base (w ∷ ws) d b = set_weights-Base ws _ (
      targets-Base w.version (λ t. record t { traffic_weight = w.weight }) d (λ t. refl)
        (λ t s. record { sized = s.sized; named = s.named }) b)

  take_out_others-Base :
      (v : ℕ) (others : List ServedVersion) (d : Deployment)
      → Base k d
      → Base k (record d { targets = take_out_others v others d.targets })
  unfolding take_out_others set_weight
  take_out_others-Base v [] d b = b
  take_out_others-Base v (t ∷ ts) d b = elim (Bool-cases (t.version == v)) [
    | inl e ↦ simp e (take_out_others-Base v ts d b)
    | inr e ↦ simp e (
        take_out_others-Base v ts (record d { targets = set_weight t.version 0 d.targets })
          (targets-Base t.version (λ u. record u { traffic_weight = 0 }) d (λ u. refl)
            (λ u s. record { sized = s.sized; named = s.named }) b))
  ]

  upsert-serves :
      (v weight replicas : ℕ) (d : Deployment)
      → 0 < weight
      → any takes_traffic (upsert_target v weight replicas d).targets ≡ true
  unfolding upsert_target takes_traffic new_target
  upsert-serves v weight replicas d h = elim (Bool-cases (served v d.targets)) [
    | inl e ↦ rw e (
        serving-any v _ (
          update_target-serving v (λ t. record t { traffic_weight = weight; replicas = replicas })
            (λ t. refl) (λ t. ground (arith, h)) d.targets e))
    | inr e ↦
        rw e (insert_target-serves (new_target v weight replicas) d.targets (ground (arith, h)))
  ]

  -- The row that a deployment leaves.
  pub deploy_version-Good :
      (v replicas : ℕ) (d : Deployment)
      → 0 < replicas
      → Base k d
      → Good k (deploy_version v replicas d)
  unfolding deploy_version
  deploy_version-Good v replicas d h b =
      let out = record d { targets = take_out_others v d.targets d.targets } in
      let base =
        upsert_target-Base v total_weight replicas out h (take_out_others-Base v d.targets d b) in
      record {
        local = base.local;
        size = base.size;
        serves = upsert-serves v total_weight replicas out (omega arith);
        distinct = base.distinct;
      }
