-- ===== src/Services/Deployments/Traffic/Held.antt =====
-- `deployModel`, `rollout` and `retire` of packages/server/src/services/deployments.js never take away
-- what the front Service selects.
use ash_ml.Base.{
  ℕ, ◌≤◌, ◌<◌, ◌≡◌, refl, sym, ap, subst, ◌∙◌, inl, inr, Option, none, some, Bool-cases, ltb, arith,
  some-eq,
}
use ash_ml.Services.Tables.{Text}
use ash_ml.Domain.Routing.Weights.{Weight, whole, negative, fractional, total_weight}
use ash_ml.Services.Deployments.Rows.{Deployment}
use ash_ml.Services.Deployments.Status.{Pods, Message}
use ash_ml.Services.Deployments.Cluster.{
  Faults, Honest, invalid_replicas, World, Outcome, did, fail,
}
use ash_ml.Services.Deployments.Cluster.Runs.{Ends, Runs, bind-Runs}
use ash_ml.Services.Deployments.Held.{Good, Safe, absent, held, fail-Runs}
use ash_ml.Services.Deployments.Apply.Launched.{apply_desired_state-Safe}
use ash_ml.Services.Deployments.Traffic.{
  Registry, Checked, refused, passed, prepare_deploy, check_traffic, prepare_rollout, commit,
  deploy_model, roll_to, rollout,
}
use ash_ml.Services.Deployments.Traffic.Split.{deploy_version-Good}
use ash_ml.Services.Deployments.Traffic.Committed.{
  passed-eq, prepare_rollout-Good, create-Base, deployed, spec-Base,
}

-- A transaction is safe where the rows that it commits are good.
commit-Safe :
    (prepare : Option Deployment → Checked Deployment)
    → ((after : Deployment) → prepare none ≡ passed after → Good none after)
    → ((k : Option (Option ℕ)) (d after : Deployment)
        → Good k d
        → prepare (some d) ≡ passed after
        → Good k after)
    → Runs Safe Safe (commit prepare) (λ _. Safe)
unfolding commit
commit-Safe prepare new old = record { runs = λ w s. committed w s (prepare w.row) refl }
  where
    good :
        (w : World)
        → Safe w
        → (after : Deployment) → prepare w.row ≡ passed after
        → Safe (record w { row = some after })
    good w (absent e b) after q = held none record {
      deployment = after;
      row = refl;
      good = new after (ap prepare (sym e) ∙ q);
      backed = b;
    }
    good w (held k h) after q = held k record {
      deployment = after;
      row = refl;
      good = old k h.deployment after h.good (ap prepare (sym h.row) ∙ q);
      backed = h.backed;
    }

    committed :
        (w : World)
        → Safe w
        → (c : Checked Deployment) → prepare w.row ≡ c
        → Ends Safe
            (λ _. Safe)
            (elim c as (λ x. Outcome (Unit {0})) [
              | refused e ↦ fail e w
              | passed d ↦ did tt (record w { row = some d })
            ])
    committed w s (refused e) q = s
    committed w s (passed d) q = good w s d q

traffic-bound : (t : Weight) (n : ℕ) → check_traffic t ≡ passed n → n ≤ 100
unfolding check_traffic
traffic-bound negative n h = cc
traffic-bound fractional n h = cc
traffic-bound (whole m) n h = elim (Bool-cases (ltb total_weight m)) [
  | inl e ↦ absurd (cc (rw e at h))
  | inr e ↦ let same : m ≡ n = passed-eq (rw e at h) in ground (arith, e, same)
]

module _ (render : Message → Text) (faults : Faults) (honest : Honest faults)
    (pods : ℕ → Pods) where
  pub deploy_model-Safe :
      (r : Registry) (version : Option ℕ) (replicas : ℕ)
      → Runs Safe Safe (deploy_model render faults pods r version replicas) (λ _. Safe)
  unfolding deploy_model
  deploy_model-Safe r version replicas = elim (Bool-cases (ltb replicas 1)) [
    | inl e ↦ rw e (fail-Runs invalid_replicas (λ w s. s))
    | inr e ↦
        let some_pods : 0 < replicas = ground (arith, e) in
        rw e (
          bind-Runs Safe
            (commit-Safe (prepare_deploy r version replicas) (new some_pods) (old some_pods))
            (λ _. apply_desired_state-Safe render faults honest pods))
  ]
    where
      new :
          0 < replicas
          → (after : Deployment) → prepare_deploy r version replicas none ≡ passed after
          → Good none after
      new h after q =
          let (m, v, c) = deployed r version replicas none after q in
          elim c [
            | inl e ↦
                subst (Good none) e.1
                  (deploy_version-Good none v replicas _ h (create-Base m.id replicas h))
            | inr (d, e, f) ↦ absurd (cc e)
          ]

      old :
          0 < replicas
          → (k : Option (Option ℕ)) (d after : Deployment) → Good k d
          → prepare_deploy r version replicas (some d) ≡ passed after
          → Good k after
      old h k d after g q =
          let (m, v, c) = deployed r version replicas (some d) after q in
          elim c [
            | inl e ↦ absurd (cc (e.0))
            | inr (u, e, f) ↦
                let same : d ≡ u = some-eq e in
                subst (Good k) f (
                  deploy_version-Good k v replicas _ h
                    (spec-Base k replicas u h (subst (Good k) same g)))
          ]

  pub rollout-Safe :
      (r : Registry) (version : ℕ) (traffic : Weight)
      → Runs Safe Safe (rollout render faults pods r version traffic) (λ _. Safe)
  unfolding rollout
  rollout-Safe r version traffic = rolled (check_traffic traffic) refl
    where
      rolled :
          (c : Checked ℕ)
          → check_traffic traffic ≡ c
          → Runs Safe Safe (roll_to render faults pods r version c) (λ _. Safe)
      rolled (refused e) q = unfold roll_to in fail-Runs e (λ w s. s)
      rolled (passed n) q =
          unfold roll_to in
          bind-Runs Safe
            (commit-Safe (prepare_rollout r version n) (λ after x. unfold prepare_rollout in cc)
              (λ k d after g x.
                prepare_rollout-Good k r version n d after (traffic-bound traffic n q) g x))
            (λ _. apply_desired_state-Safe render faults honest pods)
