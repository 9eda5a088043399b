-- ===== src/Services/Deployments/Apply/Tidied.antt =====
-- What `applyDesiredState` of packages/server/src/services/deployments.js removes: the router that
-- nothing needs, and the versions that are no targets.
use ash_ml.Base.{
  suc, ℕ, ◌≡◌, ◌≢◌, refl, sym, ap, subst, ◌∙◌, ◌⊎◌, inl, inr, true, false, ◌||◌, Option, none, some,
  List, [], ◌∷◌, keep, All, if◌then◌else◌, Bool-cases, Option-cases, ==-self, arith, some-eq,
}
use ash_ml.Services.Tables.{Text}
use ash_ml.Services.Deployments.Rows.{
  record_observation, DeploymentStatus, ObjectName, front_name, router_name, target_name,
  Deployment, record_router,
}
use ash_ml.Services.Deployments.Status.{Pods, Message}
use ash_ml.Services.Deployments.Front.{on_router, desired_front, current_front, same_front, judge}
use ash_ml.Services.Deployments.Cluster.{
  Faults, ◌>>=◌, pure, catch, update_row, delete_deployment, list_names, is_model_server,
  apply_secret,
}
use ash_ml.Services.Deployments.Cluster.Runs.{Runs, pure-Runs, bind-Runs}
use ash_ml.Services.Deployments.Backed.{destination}
use ash_ml.Services.Deployments.Backed.Writes.{secret-Backed}
use ash_ml.Services.Deployments.Held.{
  placed, Local, Held, Kept, catch-Runs, then-Kept, nothing-Kept, call-Kept, delete_deployment-Kept,
  update_row-Kept,
}
use ash_ml.Services.Deployments.Held.Updates.{record_observation-Good, no_router-Good}
use ash_ml.Services.Deployments.Apply.{
  is_spared, ensure_secret, remove_router, remove_router_if_unused, reap_all, reap, judge_again,
}
use ash_ml.Services.Deployments.Apply.Kept.{
  target-eq, target-not_router, front-not_target, serving-placed,
}

front-not_router : front_name ≢ router_name
front-not_router e = cc

module _ (render : Message → Text) (faults : Faults) (pods : ℕ → Pods) (k : Option (Option ℕ)) where
  pub ensure_secret-Kept : Kept k (ensure_secret render faults pods)
  unfolding ensure_secret apply_secret
  ensure_secret-Kept = record {
    runs = λ w h. elim (Bool-cases w.token) [
      | inl e ↦ simp e h
      | inr e ↦ simp e (
          (call-Kept faults pods _ k (λ c. record c { secret = true }) (secret-Backed k true)).runs
            (record w { token = true })
            (record { deployment = h.deployment; row = h.row; good = h.good; backed = h.backed }))
    ];
  }

  pub judge_again-Kept : (s : DeploymentStatus) → Kept k (judge_again render faults pods s)
  unfolding judge_again
  judge_again-Kept s = record { runs = λ w h. (judged w.row).runs w h }
    where
      judged :
          (row : Option Deployment)
          → Kept k (elim row [
            | none ↦ pure tt
            | some fresh ↦ update_row (record_observation (judge render fresh fresh.targets s))
          ])
      judged none = nothing-Kept k
      judged (some fresh) = update_row-Kept k _ (record_observation-Good k _)

  -- A router that the address does not resolve to is nothing that the front selects.
  router-unused :
      (d : Deployment)
      → placed d ≡ k
      → same_front (current_front d) on_router ≡ false
      → (s : Option ℕ) → k ≡ some s
      → destination s ≢ router_name
  unfolding placed current_front same_front destination
  router-unused d p f none e q = elim (Option-cases d.k8s_name) [
    | inl x ↦ absurd (cc (rw x at p, e))
    | inr (n, x) ↦
        let serving : d.serving_version ≡ none = some-eq (rw x at p ∙ e) in
        cc (rw (x, serving) at f)
  ]
  router-unused d p f (some v) e q = target-not_router v q

  remove_router-Kept :
      (d : Deployment) (name : Option ObjectName)
      → placed d ≡ k
      → (name ≡ none) ⊎ (name ≡ some router_name)
      → Runs (Held k) (Held k) (remove_router render faults pods d name) (λ _. Held k)
  unfolding remove_router
  remove_router-Kept d none p h = pure-Runs (Held k) d (λ w x. x)
  remove_router-Kept d (some name) p (inl h) = cc
  remove_router-Kept d (some name) p (inr h) =
      let b =
        same_front (desired_front d.targets) on_router || same_front (current_front d) on_router in
      let same : name ≡ router_name = some-eq h in
      elim (Bool-cases b) [
        | inl t ↦ rw t (pure-Runs (Held k) d (λ w x. x))
        | inr f ↦
            let gone : Kept k (delete_deployment faults pods name) = rw same (
              delete_deployment-Kept faults pods k router_name front-not_router
                (router-unused d p (ground (arith, f)))) in
            let cleared : Kept k (update_row (record_router none)) =
              update_row-Kept k _ (no_router-Good k) in
            rw f (
              bind-Runs (Held k) (bind-Runs (Held k) gone (λ _. cleared))
                (λ _. pure-Runs (Held k) _ (λ w x. x)))
      ]

  pub remove_router_if_unused-Kept :
      (d : Deployment)
      → Local k d
      → Runs (Held k) (Held k) (remove_router_if_unused render faults pods d) (λ _. Held k)
  unfolding remove_router_if_unused
  remove_router_if_unused-Kept d l =
      remove_router-Kept d d.router_k8s_name l.place
        (elim l.router [ inl h ↦ inl h.0 | inr h ↦ inr h ])

  -- What `reap` lists are versions' objects.
  IsTarget : ObjectName → Type 0
  IsTarget name = (v : ℕ) × (name ≡ target_name v)

  model_servers :
      (names : List ObjectName) → All IsTarget (keep (is_model_server faults pods) names)
  unfolding is_model_server IsTarget
  model_servers [] = tt
  model_servers (front_name ∷ names) = model_servers names
  model_servers (router_name ∷ names) = model_servers names
  model_servers (target_name v ∷ names) = ((v, refl), model_servers names)

  list_names-Kept :
      Runs (Held k) (Held k) (list_names faults pods) (λ names w. Held k w × All IsTarget names)
  unfolding list_names
  list_names-Kept = record {
    runs = λ w h.
        let counted : Held k (record w { calls = suc w.calls }) = record {
          deployment = h.deployment;
          row = h.row;
          good = h.good;
          backed = h.backed;
        } in
        elim (Bool-cases (faults.throws w.calls)) [
          | inl e ↦ simp e counted
          | inr e ↦ simp e (counted, model_servers _)
        ];
  }

  spared :
      (d : Deployment) (v : ℕ) → d.serving_version ≡ some v → is_spared d (target_name v) ≡ true
  unfolding is_spared
  spared d v e = rw (e, ==-self v) (ground arith)

  reap_all-Kept :
      (d : Deployment) (names : List ObjectName)
      → placed d ≡ k
      → All IsTarget names
      → Kept k (reap_all render faults pods d names)
  unfolding reap_all IsTarget destination
  reap_all-Kept d [] p h = nothing-Kept k
  reap_all-Kept d (name ∷ names) p h = then-Kept k one (reap_all-Kept d names p h.1)
    where
      unused :
          (v : ℕ)
          → is_spared d (target_name v) ≡ false
          → (s : Option ℕ) → k ≡ some s
          → destination s ≢ target_name v
      unused v f none e q = target-not_router v (sym q)
      unused v f (some u) e q =
          let serving : d.serving_version ≡ some v =
            serving-placed d (some u) (p ∙ e) ∙ ap some (target-eq u v q) in
          cc (f, spared d v serving)

      one : Kept k (if is_spared d name then pure tt else delete_deployment faults pods name)
      one = elim (Bool-cases (is_spared d name)) [
        | inl t ↦ rw t (nothing-Kept k)
        | inr f ↦
            let (v, same) = h.0 in
            let gone : Kept k (delete_deployment faults pods name) = rw same (
              delete_deployment-Kept faults pods k (target_name v) (front-not_target v)
                (unused v (rw same at f))) in
            rw f gone
      ]

  pub reap-Kept : Kept k (reap render faults pods)
  unfolding reap
  reap-Kept = record {
    runs = λ w h.
        (reaped w.row (λ d e.
            let same : h.deployment ≡ d = some-eq (sym h.row ∙ e) in
            subst (λ x. placed x ≡ k) same h.good.local.place)).runs
          w h;
  }
    where
      listed :
          Runs
            (Held k)
            (Held k)
            (catch (list_names faults pods) (λ e. pure []))
            (λ names w. Held k w × All IsTarget names)
      listed =
          catch-Runs list_names-Kept
            (λ e. pure-Runs (Held k) [] (λ w x. unfold IsTarget in (x, tt)))

      reaped :
          (row : Option Deployment)
          → ((d : Deployment) → row ≡ some d → placed d ≡ k)
          → Kept k (elim row [
            | none ↦ pure tt
            | some d ↦
                catch (list_names faults pods) (λ e. pure []) >>= reap_all render faults pods d
          ])
      reaped none p = nothing-Kept k
      reaped (some d) p =
          bind-Runs (Held k) listed
            (λ names. record { runs = λ w x. (reap_all-Kept d names (p d refl) x.1).runs w x.0 })
