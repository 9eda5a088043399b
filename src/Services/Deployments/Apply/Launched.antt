-- ===== src/Services/Deployments/Apply/Launched.antt =====
-- The first front Service of a deployment, and `applyDesiredState` of
-- packages/server/src/services/deployments.js as a whole.
use ash_ml.Base.{ℕ, ◌≡◌, ◌≢◌, refl, sym, subst, ◌∙◌, inl, inr, Option, none, some, Bool-cases}
use ash_ml.Services.Tables.{Text}
use ash_ml.Services.Deployments.Rows.{
  ObjectName, front_name, target_name, Deployment, record_launch, record_serving_version,
}
use ash_ml.Services.Deployments.Status.{Pods, Message}
use ash_ml.Services.Deployments.Front.{Front, on_nothing, on_router, on_version, desired_front}
use ash_ml.Services.Deployments.Cluster.{
  Faults, Honest, writes_front, service_write, written_by, World, Outcome, threw, ◌>>=◌, ◌>>◌, did,
  update_row, call, apply_service, with_service,
}
use ash_ml.Services.Deployments.Cluster.Runs.{Ends, Runs, pure-Runs, bind-Runs}
use ash_ml.Services.Deployments.Backed.{Backed, front_to, IsSized}
use ash_ml.Services.Deployments.Backed.Writes.{launched-Backed}
use ash_ml.Services.Deployments.Held.{
  placed, Local, Good, Held, Safe, absent, held, Kept, weaken-Runs, then-Kept,
}
use ash_ml.Services.Deployments.Apply.{
  selector_of, version_of, remove_router_if_unused, reap, judge_again, apply_targets, launch,
  launch_front, apply_to, apply_desired_state,
}
use ash_ml.Services.Deployments.Apply.Kept.{With}
use ash_ml.Services.Deployments.Apply.Tidied.{
  ensure_secret-Kept, judge_again-Kept, remove_router_if_unused-Kept, reap-Kept,
}
use ash_ml.Services.Deployments.Apply.Prepared.{
  Serves, desired-Serves, apply_targets-Kept, apply_targets-gains, Ready, apply_router-Ready,
  launched-Good,
}

-- The row, and a copy of it, wherever the front is.
pub record Copied (d : Deployment) (w : World) : Type 0 where
  pub at : Option (Option ℕ)
  pub kept : Held at w
  pub copy : Local at d

selector-front :
    (v : Option ℕ) → record { name = front_name; selector = selector_of v } ≡ front_to v
unfolding selector_of
selector-front none = refl
selector-front (some v) = refl

module _ (render : Message → Text) (faults : Faults) (honest : Honest faults)
    (pods : ℕ → Pods) where
  -- The front is created, and the row does not say so yet.
  record Created (k : Option (Option ℕ)) (d : Deployment) (w : World) : Type 0 where
    deployment : Deployment
    row : w.row ≡ some deployment
    good : Good k deployment
    stands : Backed (some (version_of (desired_front d.targets))) w.cluster
    copy : Local k d

  create-Created :
      (k : Option (Option ℕ)) (d : Deployment)
      → d.k8s_name ≡ none
      → Runs Safe
          (Ready render faults pods k d)
          (call faults pods writes_front (
            with_service record {
              name = front_name;
              selector = selector_of (version_of (desired_front d.targets));
            }))
          (λ _. Created k d)
  unfolding call written_by
  create-Created k d e = record {
    runs = λ w h. elim (Bool-cases (faults.throws w.calls)) [
      | inl f ↦
          rw (f, honest.front w.calls)
            (held k record {
              deployment = h.kept.deployment;
              row = h.kept.row;
              good = h.kept.good;
              backed = h.kept.backed;
            })
      | inr f ↦ rw f record {
        deployment = h.kept.deployment;
        row = h.kept.row;
        good = h.kept.good;
        stands = backed w h;
        copy = h.copy;
      }
    ];
  }
    where
      nowhere : Local k d → k ≡ none
      nowhere l = unfold placed in sym l.place ∙ rw e refl

      backed :
          (w : World)
          → Ready render faults pods k d w
          → Backed (some (version_of (desired_front d.targets))) (
              with_service
                record {
                  name = front_name;
                  selector = selector_of (version_of (desired_front d.targets));
                }
                w.cluster)
      backed w h =
          let v = version_of (desired_front d.targets) in
          let before : Backed none w.cluster =
            subst (λ x. Backed x w.cluster) (nowhere h.copy) h.kept.backed in
          subst (λ s. Backed (some v) (with_service s w.cluster)) (sym (selector-front v))
            (launched-Backed v w.cluster (h.prepared (nowhere h.copy)) before)

  record-Copied :
      (k : Option (Option ℕ)) (d : Deployment)
      → Runs Safe
          (Created k d)
          (update_row (record_launch front_name)
            >> update_row (record_serving_version (version_of (desired_front d.targets))))
          (λ _. Copied record d {
            k8s_name = some front_name;
            serving_version = version_of (desired_front d.targets);
          })
  unfolding update_row placed
  record-Copied k d = record {
    runs = λ w h. record {
      at = some (version_of (desired_front d.targets));
      kept = record {
        deployment =
            record_serving_version (version_of (desired_front d.targets))
              (record_launch front_name h.deployment);
        row = rw (h.row) refl;
        good = launched-Good render faults pods k _ h.deployment h.good;
        backed = h.stands;
      };
      copy = record { place = refl; sound = h.copy.sound; router = h.copy.router };
    };
  }

  launch-Copied :
      (k : Option (Option ℕ)) (d : Deployment) (name : Option ObjectName)
      → d.k8s_name ≡ name
      → Runs Safe (Ready render faults pods k d) (launch render faults pods d name) Copied
  unfolding launch apply_service service_write
  launch-Copied k d (some name) e =
      pure-Runs Safe d (λ w h. record { at = k; kept = h.kept; copy = h.copy })
  launch-Copied k d none e =
      bind-Runs Safe (bind-Runs Safe (create-Created k d e) (λ _. record-Copied k d))
        (λ _. pure-Runs Safe _ (λ w h. h))

  -- The targets are applied, and with them the version that the front should be on.
  targets-Runs :
      (k : Option (Option ℕ)) (d : Deployment)
      → Good k d
      → Runs (Held k) (Held k) (apply_targets render faults pods d d.targets) (λ _ w.
        Held k w
        × ((v : ℕ) → desired_front d.targets ≡ on_version v → IsSized (target_name v) w.cluster))
  targets-Runs k d g = by_front (desired_front d.targets) refl
    where
      unversioned :
          ((v : ℕ) → desired_front d.targets ≢ on_version v)
          → Runs (Held k) (Held k) (apply_targets render faults pods d d.targets) (λ _ w.
            Held k w
            × ((v : ℕ)
                → desired_front d.targets ≡ on_version v
                → IsSized (target_name v) w.cluster))
      unversioned n = record {
        runs = λ w h. after _ (
            (apply_targets-Kept render faults pods k d d.targets g.local.place g.local.sound).runs w
              h);
      }
        where
          after :
              (o : Outcome (Unit {0}))
              → Ends (Held k) (λ _. Held k) o
              → Ends
                  (Held k)
                  (λ _ w.
                    Held k w
                    × ((v : ℕ)
                        → desired_front d.targets ≡ on_version v
                        → IsSized (target_name v) w.cluster))
                  o
          after (did a w) h = (h, λ v e. absurd (n v e))
          after (threw e w) h = h

      by_front :
          (f : Front)
          → desired_front d.targets ≡ f
          → Runs (Held k) (Held k) (apply_targets render faults pods d d.targets) (λ _ w.
            Held k w
            × ((v : ℕ)
                → desired_front d.targets ≡ on_version v
                → IsSized (target_name v) w.cluster))
      by_front on_nothing e = unversioned (λ v q. cc (e, q))
      by_front on_router e = unversioned (λ v q. cc (e, q))
      by_front (on_version v) e = record {
        runs = λ w h. after _ (
            (apply_targets-gains render faults pods k v d d.targets g.local.place g.local.sound
                g.distinct serves).runs
              w h);
      }
        where
          serves : Serves v d.targets
          serves = unfold desired_front in desired-Serves v d.targets d.targets e

          after :
              (o : Outcome (Unit {0}))
              → Ends (Held k) (λ _. With k (IsSized (target_name v))) o
              → Ends
                  (Held k)
                  (λ _ w.
                    Held k w
                    × ((u : ℕ)
                        → desired_front d.targets ≡ on_version u
                        → IsSized (target_name u) w.cluster))
                  o
          after (did a w) h = (
            h.kept,
            λ u q.
                let same : v ≡ u = cc (e, q) in
                subst (λ n. IsSized (target_name n) w.cluster) same h.also,
          )
          after (threw e w) h = h

  settle-Safe :
      (d : Deployment)
      → Runs Safe
          (Copied d)
          (judge_again render faults pods d.status
            >> (remove_router_if_unused render faults pods d >>= λ _. reap render faults pods))
          (λ _. Safe)
  settle-Safe d = record { runs = λ w c. weak c.at _ ((kept c.at c.copy).runs w c.kept) }
    where
      kept :
          (k : Option (Option ℕ))
          → Local k d
          → Kept k (
              judge_again render faults pods d.status
              >> (remove_router_if_unused render faults pods d >>= λ _. reap render faults pods))
      kept k l = then-Kept k (judge_again-Kept render faults pods k d.status) (
          bind-Runs (Held k) (remove_router_if_unused-Kept render faults pods k d l)
            (λ _. reap-Kept render faults pods k))

      weak :
          (k : Option (Option ℕ)) (o : Outcome (Unit {0}))
          → Ends (Held k) (λ _. Held k) o
          → Ends Safe (λ _. Safe) o
      weak k (did a w) h = held k h
      weak k (threw e w) h = held k h

  pub apply_to-Safe :
      (k : Option (Option ℕ)) (d : Deployment)
      → Good k d
      → Runs Safe (Held k) (apply_to render faults pods d) (λ _. Safe)
  unfolding apply_to launch_front
  apply_to-Safe k d g =
      bind-Runs Safe
        (weaken-Runs (λ w h. held k h)
          (bind-Runs (Held k) (ensure_secret-Kept render faults pods k) (λ _. targets-Runs k d g)))
        (λ _.
          bind-Runs Safe
            (weaken-Runs (λ w h. held k h) (apply_router-Ready render faults pods k d g))
            (λ routed. bind-Runs Safe (launch-Copied k routed routed.k8s_name refl) settle-Safe))

  pub apply_desired_state-Safe : Runs Safe Safe (apply_desired_state render faults pods) (λ _. Safe)
  unfolding apply_desired_state
  apply_desired_state-Safe = record { runs = run }
    where
      run : (w : World) → Safe w → Ends Safe (λ _. Safe) (apply_desired_state render faults pods w)
      run w (absent e b) = simp e (absent e b)
      run w (held k h) = simp (h.row) ((apply_to-Safe k h.deployment h.good).runs w h)
