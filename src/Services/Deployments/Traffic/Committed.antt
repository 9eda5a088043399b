-- ===== src/Services/Deployments/Traffic/Committed.antt =====
-- The rows that the transactions of `deployModel` and `rollout` of
-- packages/server/src/services/deployments.js commit.
use ash_ml.Base.{
  ℕ, ◌≤◌, ◌<◌, ◌≡◌, refl, subst, ◌∙◌, ◌⊎◌, inl, inr, true, false, not, ◌||◌, Option, none, some,
  List, [], ◌∷◌, map, All, if◌then◌else◌, Bool-cases, ltb, ◌==◌, ==-self, arith,
}
use ash_ml.Domain.Routing.Weights
use ash_ml.Domain.Routing.Weights.{
  Weight, whole, negative, fractional, total_weight, proposed, validate_weights,
}
use ash_ml.Domain.Routing.Rollout.Valid.{validate_weights-total}
use ash_ml.Domain.Routing.Rollout.{others, apply_rollout}
use ash_ml.Services.Deployments.Rows.{
  ServedVersion, Deployment, create_deployment, new_target, insert_target, upsert_target,
  update_spec,
}
use ash_ml.Services.Deployments.Cluster.{bad_split, deployment_name_taken}
use ash_ml.Services.Deployments.Held.{placed, Good}
use ash_ml.Services.Deployments.Traffic.{
  Model, Registry, Checked, refused, passed, ◌>?>◌, require_model, resolve_version,
  assert_deployable, deploy_version, prepare_deploy, join_version, shares_with, prepare_rollout,
}
use ash_ml.Services.Deployments.Traffic.Shares.{
  apply_rollout-All, apply_rollout-Distinct, shares_with-Distinct, shares_with-All,
}
use ash_ml.Services.Deployments.Traffic.Split.{
  Base, served, AllServed, upsert_target-Base, set_weights-Base, set_weights-serves,
}

-- What is served stays served, and what a rollout names is.
served-all :
    (ts all : List ServedVersion)
    → ((t : ServedVersion) → served t.version ts ≡ true → served t.version all ≡ true)
    → All (λ t. served t.version all ≡ true) ts
served-all [] all h = tt
served-all (t ∷ ts) all h =
    (h t (ground (arith, ==-self t.version)), served-all ts all (λ u e. h u (ground (arith, e))))

served-insert :
    (v : ℕ) (t : ServedVersion) (ts : List ServedVersion)
    → served v (insert_target t ts) ≡ ((t.version == v) || served v ts)
unfolding insert_target
served-insert v t [] = refl
served-insert v t (u ∷ ts) = elim (Bool-cases (ltb t.version u.version)) [
  | inl e ↦ rw e refl
  | inr e ↦ rw (e, served-insert v t ts) (ground arith)
]

passed-through :
    {B C : Type 0} (m : Checked B) (f : B → Checked C) (c : C)
    → (m >?> f) ≡ passed c
    → (b : B) × (m ≡ passed b) × (f b ≡ passed c)
passed-through (refused e) f c h = cc
passed-through (passed b) f c h = (b, refl, h)

pub passed-eq : {B : Type 0} {a b : B} → passed a ≡ passed b → a ≡ b
passed-eq h = cc

join-cases :
    (r : Registry) (v : ℕ) (d joined : Deployment)
    → join_version r v d ≡ passed joined
    → ((served v d.targets ≡ true) × (d ≡ joined))
      ⊎ ((served v d.targets ≡ false) × (upsert_target v 0 d.replicas d ≡ joined))
unfolding join_version
join-cases r v d joined h = elim (Bool-cases (served v d.targets)) [
  | inl e ↦ inl (e, passed-eq (rw e at h))
  | inr e ↦
      let (m, _, h1) = passed-through (require_model r) _ joined (rw e at h) in
      let (x, _, h2) = passed-through (resolve_version m (some v)) _ joined h1 in
      let (arch, _, h3) = passed-through (assert_deployable x) _ joined h2 in inr (e, passed-eq h3)
]

join-Base :
    (k : Option (Option ℕ)) (r : Registry) (v : ℕ) (d joined : Deployment)
    → Good k d
    → join_version r v d ≡ passed joined
    → Base k joined
join-Base k r v d joined g h =
    let base : Base k d = record { local = g.local; size = g.size; distinct = g.distinct } in
    elim (join-cases r v d joined h) [
      | inl e ↦ subst (Base k) e.1 base
      | inr e ↦ subst (Base k) e.1 (upsert_target-Base k v 0 d.replicas d g.size base)
    ]

upsert-served :
    (u v weight replicas : ℕ) (d : Deployment)
    → served v d.targets ≡ false
    → served u (upsert_target v weight replicas d).targets ≡ ((v == u) || served u d.targets)
unfolding upsert_target new_target
upsert-served u v weight replicas d e =
    rw e (served-insert u (new_target v weight replicas) d.targets)

join-served :
    (r : Registry) (v : ℕ) (d joined : Deployment)
    → join_version r v d ≡ passed joined
    → (served v joined.targets ≡ true)
      × ((u : ℕ) → served u d.targets ≡ true → served u joined.targets ≡ true)
join-served r v d joined h = elim (join-cases r v d joined h) [
  | inl e ↦ (
    subst (λ x. served v x.targets ≡ true) e.1 e.0,
    (λ u q. subst (λ x. served u x.targets ≡ true) e.1 q),
  )
  | inr e ↦ (
    subst (λ x. served v x.targets ≡ true) e.1
        (upsert-served v v 0 d.replicas d e.0 ∙ ground (arith, ==-self v)),
    (λ u q.
        subst (λ x. served u x.targets ≡ true) e.1
          (upsert-served u v 0 d.replicas d e.0 ∙ ground (arith, q))),
  )
]

pub accepted :
    (o : Option Weights.WeightError) (d after : Deployment)
    → elim o as (λ x. Checked Deployment) [ some e ↦ refused bad_split | none ↦ passed d ]
      ≡ passed after
    → (d ≡ after) × (o ≡ none)
accepted none d after h = (passed-eq h, refl)
accepted (some e) d after h = cc

-- The row that a rollout commits.
pub prepare_rollout-Good :
    (k : Option (Option ℕ)) (r : Registry) (v n : ℕ) (d after : Deployment)
    → n ≤ 100
    → Good k d
    → prepare_rollout r v n (some d) ≡ passed after
    → Good k after
unfolding prepare_rollout
prepare_rollout-Good k r v n d after bound g h =
    let (joined, j, h1) = passed-through (join_version r v d) _ after h in
    let next = apply_rollout (shares_with v d.targets) v n in
    let base = join-Base k r v d joined g j in
    let (own, others) = join-served r v d joined j in
    let known : AllServed next joined.targets =
      apply_rollout-All (λ u. served u joined.targets ≡ true) (shares_with v d.targets) v n
        (shares_with-All (λ u. served u joined.targets ≡ true) v d.targets
          (served-all d.targets joined.targets (λ t e. others t.version e)) own)
        own in
    let once =
      apply_rollout-Distinct (shares_with v d.targets) v n
        (shares_with-Distinct v d.targets g.distinct) in
    let written = set_weights-Base k next joined base in
    let (same, valid) = accepted (validate_weights (some (map proposed next))) _ after h1 in
    let total = validate_weights-total next valid in
    subst (Good k) same record {
      local = written.local;
      size = written.size;
      serves = set_weights-serves next joined.targets once known (omega (arith, total));
      distinct = written.distinct;
    }

pub create-Base : (model replicas : ℕ) → 0 < replicas → Base none (create_deployment model replicas)
unfolding create_deployment placed
create-Base model replicas h = record {
  local = record { place = refl; sound = tt; router = inl (refl, refl) };
  size = h;
  distinct = tt;
}

-- The rows that a deployment commits, new or not.
pub deployed :
    (r : Registry) (version : Option ℕ) (replicas : ℕ) (row : Option Deployment)
    (after : Deployment)
    → prepare_deploy r version replicas row ≡ passed after
    → (m : Model) × (v : ℕ) × (((row ≡ none)
          × (deploy_version v replicas (create_deployment m.id replicas) ≡ after))
        ⊎ ((d : Deployment) × (row ≡ some d)
            × (deploy_version v replicas (update_spec replicas d) ≡ after)))
unfolding prepare_deploy
deployed r version replicas row after h = elim (Bool-cases (not r.project)) [
  | inl e ↦ absurd (cc (rw e at h))
  | inr e ↦
      let (m, _, h1) = passed-through (require_model r) _ after (rw e at h) in
      let (x, _, h2) = passed-through (resolve_version m version) _ after h1 in
      let (arch, _, h3) = passed-through (assert_deployable x) _ after h2 in
      (m, x.version, by_row m x.version row h3)
]
  where
    by_row :
        (m : Model) (v : ℕ) (row : Option Deployment)
        → elim row as (λ x. Checked Deployment) [
          | none ↦ passed (deploy_version v replicas (create_deployment m.id replicas))
          | some d ↦
              if d.model == m.id
              then passed (deploy_version v replicas (update_spec replicas d))
              else refused deployment_name_taken
        ]
          ≡ passed after
        → ((row ≡ none) × (deploy_version v replicas (create_deployment m.id replicas) ≡ after))
          ⊎ ((d : Deployment) × (row ≡ some d)
              × (deploy_version v replicas (update_spec replicas d) ≡ after))
    by_row m v none q = inl (refl, passed-eq q)
    by_row m v (some d) q = elim (Bool-cases (d.model == m.id)) [
      | inl e ↦ inr (d, refl, passed-eq (rw e at q))
      | inr e ↦ absurd (cc (rw e at q))
    ]

pub spec-Base :
    (k : Option (Option ℕ)) (replicas : ℕ) (d : Deployment)
    → 0 < replicas
    → Good k d
    → Base k (update_spec replicas d)
unfolding update_spec placed
spec-Base k replicas d h g = record {
  local = record { place = g.local.place; sound = g.local.sound; router = g.local.router };
  size = h;
  distinct = g.distinct;
}
