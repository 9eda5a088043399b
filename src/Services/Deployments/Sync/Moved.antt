-- ===== src/Services/Deployments/Sync/Moved.antt =====
-- `moveFrontDoor` and a whole pass of `syncDeployments` of
-- packages/server/src/services/deployments.js: the front moves onto pods that are there, and nothing
-- that it selects is taken away.
use ash_ml.Base.{
  ℕ, ◌≡◌, ◌≢◌, refl, sym, subst, inl, inr, Bool, true, false, not, ◌||◌, Option, none, some, List,
  [], ◌∷◌, All, find, find-some, All-In, Bool-cases, Option-cases, ◌==◌, ==_iff, arith,
}
use ash_ml.Services.Tables.{Text}
use ash_ml.Services.Deployments.Rows.{
  DeploymentStatus, ready, same_status, front_name, router_name, target_name, ServedVersion,
  Deployment, Judgement, record_serving_version, record_observation,
}
use ash_ml.Services.Deployments.Status.{Pods, Message}
use ash_ml.Services.Deployments.Front.{
  Front, on_nothing, on_router, on_version, desired_front, current_front, same_front, target_ready,
  version_ready, front_ready,
}
use ash_ml.Services.Deployments.Cluster.{
  Faults, Honest, writes_selector, written_by, Cluster, World, pure, catch, update_row, call,
  apply_deployment, patch_found, patch_selector, service_of, with_object, with_selector, Service,
}
use ash_ml.Services.Deployments.Cluster.Runs.{Ends, Runs, pure-Runs, bind-Runs}
use ash_ml.Services.Deployments.Backed.{Backed, IsSized, destination, front_to}
use ash_ml.Services.Deployments.Backed.Writes.{with_object-Backed, moved-Backed}
use ash_ml.Services.Deployments.Held.{
  placed, Sound, Local, Good, Held, Safe, absent, held, Kept, weaken-Runs, catch-Runs, then-Kept,
  nothing-Kept, call-Kept, update_row-Kept,
}
use ash_ml.Services.Deployments.Held.Updates.{record_observation-Good}
use ash_ml.Services.Deployments.Apply.{target_object, selector_of, version_of}
use ash_ml.Services.Deployments.Apply.Kept.{target_object-sized, target-not_router}
use ash_ml.Services.Deployments.Apply.Tidied.{remove_router_if_unused-Kept, reap-Kept}
use ash_ml.Services.Deployments.Sync.{
  when, is_retired, move_front_door, scale_down, tidy_up, after_move, sync_observed,
  sync_deployment, is_active, sync,
}
use ash_ml.Services.Deployments.Sync.Seen.{
  Seen, Observed, Known, observe_targets-Seen, observe_router-Seen, Distinct-Launched,
}

same_status-ready : (s : DeploymentStatus) → same_status s ready ≡ true → s ≡ ready
unfolding same_status
same_status-ready DeploymentStatus.ready h = refl
same_status-ready DeploymentStatus.pending h = cc
same_status-ready DeploymentStatus.progressing h = cc
same_status-ready DeploymentStatus.degraded h = cc
same_status-ready DeploymentStatus.failed h = cc
same_status-ready DeploymentStatus.stopped h = cc

-- A version that is found READY has an object that asks for pods.
version_ready-IsSized :
    (c : Cluster) (v : ℕ) (ts : List ServedVersion)
    → All (Observed c) ts
    → version_ready v ts ≡ true
    → IsSized (target_name v) c
unfolding version_ready target_ready
version_ready-IsSized c v ts seen h = elim (Option-cases (find (λ t. t.version == v) ts)) [
  | inl e ↦ absurd (cc (rw e at h))
  | inr (t, e) ↦
      let (own, member) = find-some (λ t. t.version == v) ts e in
      let version : t.version ≡ v = (==_iff t.version v).0 own in
      let o = All-In (Observed c) ts seen member in
      subst (λ n. IsSized (target_name n) c) version
        (o.evidence (same_status-ready t.status (rw e at h)))
]

selector-to : (v : Option ℕ) → (front_to v).selector ≡ selector_of v
unfolding selector_of
selector-to none = refl
selector-to (some v) = refl

placed_again :
    (d : Deployment) (from to : Option ℕ)
    → placed d ≡ some from
    → placed (record d { serving_version = to }) ≡ some to
unfolding placed
placed_again d from to h = elim (Option-cases d.k8s_name) [
  | inl e ↦ absurd (cc (rw e at h))
  | inr (n, e) ↦ rw e refl
]

module _ (render : Message → Text) (faults : Faults) (honest : Honest faults) (pods : ℕ → Pods)
    (c : Cluster) (before : Deployment) where
  -- What is asked of a destination before the front moves onto it.
  front_ready-IsSized :
      (k : Option (Option ℕ)) (d : Deployment) (wanted : Front)
      → Known render faults pods k c before d
      → front_ready wanted d d.targets ≡ true
      → IsSized (destination (version_of wanted)) c
  unfolding front_ready version_of destination
  front_ready-IsSized k d on_nothing n h = cc
  front_ready-IsSized k d on_router n h = n.router_seen (ground (arith, h))
  front_ready-IsSized k d (on_version v) n h = version_ready-IsSized c v d.targets n.versions h

  -- The front moved, and the row does not say so yet.
  record Moving (from to : Option ℕ) (w : World) : Type 0 where
    deployment : Deployment
    row : w.row ≡ some deployment
    good : Good (some from) deployment
    stands : Backed (some to) w.cluster

  patch-Moving :
      (from to : Option ℕ)
      → IsSized (destination to) c
      → Runs
          (Held (some from))
          (Seen (some from) c before)
          (patch_selector faults pods front_name (selector_of to))
          (λ _. Moving from to)
  unfolding patch_selector
  patch-Moving from to sized = record {
    runs = λ w h. patched w h (service_of front_name w.cluster) h.kept.backed.front.0;
  }
    where
      moved :
          (w : World)
          → Seen (some from) c before w
          → Backed (some to) (with_selector front_name (selector_of to) w.cluster)
      moved w h =
          let there : IsSized (destination to) w.cluster =
            subst (IsSized (destination to)) (sym h.same_cluster) sized in
          subst (λ s. Backed (some to) (with_selector front_name s w.cluster)) (selector-to to)
            (moved-Backed from to w.cluster there h.kept.backed)

      called :
          (w : World)
          → Seen (some from) c before w
          → Ends
              (Held (some from))
              (λ _. Moving from to)
              (call faults pods writes_selector (with_selector front_name (selector_of to)) w)
      called w h =
          unfold call in
          unfold written_by in
          elim (Bool-cases (faults.throws w.calls)) [
            | inl e ↦
                rw (e, honest.selector w.calls)
                  record {
                    deployment = h.kept.deployment;
                    row = h.kept.row;
                    good = h.kept.good;
                    backed = h.kept.backed;
                  }
            | inr e ↦ rw e record {
              deployment = h.kept.deployment;
              row = h.kept.row;
              good = h.kept.good;
              stands = moved w h;
            }
          ]

      patched :
          (w : World)
          → Seen (some from) c before w
          → (o : Option Service) → o ≡ some (front_to from)
          → Ends
              (Held (some from))
              (λ _. Moving from to)
              (patch_found faults pods o front_name (selector_of to) w)
      patched w h none e = cc
      patched w h (some s) e = unfold patch_found in called w h

  serving-Good :
      (from to : Option ℕ) (d : Deployment)
      → Good (some from) d
      → Good (some to) (record_serving_version to d)
  unfolding record_serving_version
  serving-Good from to d g = record {
    local = record {
      place = placed_again d from to g.local.place;
      sound = g.local.sound;
      router = g.local.router;
    };
    size = g.size;
    serves = g.serves;
    distinct = g.distinct;
  }

  -- What a move leaves, and what no move leaves.
  After : Option ℕ → Deployment → Bool → World → Type 0
  After from d true w = Held (some (version_of (desired_front d.targets))) w
  After from d false w = Held (some from) w

  move-After :
      (from : Option ℕ) (d : Deployment)
      → Known render faults pods (some from) c before d
      → Runs Safe (Seen (some from) c before) (move_front_door render faults pods d) (After from d)
  unfolding move_front_door After
  move-After from d n =
      let wanted = desired_front d.targets in
      elim (Bool-cases (same_front wanted on_nothing || same_front (current_front d) wanted)) [
        | inl e ↦ rw e (pure-Runs Safe false (λ w h. h.kept))
        | inr e ↦ elim (Bool-cases (not (front_ready wanted d d.targets))) [
          | inl f ↦ rw (e, f) (pure-Runs Safe false (λ w h. h.kept))
          | inr f ↦
              rw (e, f)
                (bind-Runs Safe
                  (bind-Runs Safe
                    (weaken-Runs (λ w h. held (some from) h)
                      (patch-Moving from (version_of wanted)
                        (front_ready-IsSized (some from) d wanted n (ground (arith, f)))))
                    (λ _. recorded from (version_of wanted)))
                  (λ _. pure-Runs Safe true (λ w h. h)))
        ]
      ]
    where
      recorded :
          (from to : Option ℕ)
          → Runs Safe
              (Moving from to)
              (update_row (record_serving_version to))
              (λ _. Held (some to))
      recorded from to =
          unfold update_row in
          record {
            runs = λ w h. record {
              deployment = record_serving_version to h.deployment;
              row = rw (h.row) refl;
              good = serving-Good from to h.deployment h.good;
              backed = h.stands;
            };
          }

  scale_down-Kept :
      (k : Option (Option ℕ)) (d : Deployment) (ts : List ServedVersion)
      → placed d ≡ k
      → All Sound ts
      → Kept k (scale_down render faults pods d ts)
  unfolding scale_down apply_deployment
  scale_down-Kept k d [] p s = nothing-Kept k
  scale_down-Kept k d (t ∷ ts) p s =
      then-Kept k (one (is_retired d.serving_version t)) (scale_down-Kept k d ts p s.1)
    where
      not_router : (target_object d t).name ≢ router_name
      not_router = unfold target_object in target-not_router t.version

      one :
          (b : Bool)
          → Kept k
              (when b (catch (apply_deployment faults pods (target_object d t)) (λ e. pure tt)))
      one false = nothing-Kept k
      one true =
          unfold apply_deployment in
          catch-Runs
            (call-Kept faults pods _ k (with_object (target_object d t)) (λ c.
              with_object-Backed k (target_object d t) c (target_object-sized k d t p s.0)
                (λ e. absurd (not_router e))))
            (λ e. pure-Runs (Held k) tt (λ w h. h))

  tidy_up-Kept :
      (k : Option (Option ℕ)) (d : Deployment) → Local k d → Kept k (tidy_up render faults pods d)
  unfolding tidy_up
  tidy_up-Kept k d l = then-Kept k (scale_down-Kept k d d.targets l.place l.sound) (
      bind-Runs (Held k) (remove_router_if_unused-Kept render faults pods k d l)
        (λ _. reap-Kept render faults pods k))

  settled-Safe :
      (from : Option ℕ) (d : Deployment)
      → Local (some from) d
      → (moved : Bool)
      → Runs Safe (After from d moved) (after_move render faults pods d moved) (λ _. Safe)
  unfolding after_move After
  settled-Safe from d l false = pure-Runs Safe d (λ w h. held (some from) h)
  settled-Safe from d l true =
      let to = version_of (desired_front d.targets) in
      let copy : Local (some to) (record_serving_version to d) =
        unfold record_serving_version in
        record { place = placed_again d from to l.place; sound = l.sound; router = l.router } in
      bind-Runs Safe
        (weaken-Runs (λ w h. held (some to) h)
          (tidy_up-Kept (some to) (record_serving_version to d) copy))
        (λ _. pure-Runs Safe _ (λ w h. held (some to) h))

  observed-Safe :
      (from : Option ℕ) (old d : Deployment)
      → Known render faults pods (some from) c before d
      → Runs Safe (Seen (some from) c before) (sync_observed render faults pods old d) (λ _. Safe)
  unfolding sync_observed
  observed-Safe from old d n =
      bind-Runs Safe (move-After from d n)
        (λ moved. bind-Runs Safe (settled-Safe from d n.local moved) (λ settled. judged _ _))
    where
      judged :
          (b : Bool) (next : Judgement)
          → Runs Safe Safe (when b (update_row (record_observation next))) (λ _. Safe)
      judged false next = pure-Runs Safe tt (λ w h. h)
      judged true next = record { runs = run }
        where
          run :
              (w : World) → Safe w → Ends Safe (λ _. Safe) (update_row (record_observation next) w)
          run w (absent e b) = unfold update_row in absent (rw e refl) b
          run w (held k h) =
              unfold update_row in
              held k (
                (update_row-Kept k (record_observation next) (record_observation-Good k next)).runs
                  w h)

module _ (render : Message → Text) (faults : Faults) (honest : Honest faults)
    (pods : ℕ → Pods) where
  -- A pass over a deployment that has a front Service.
  sync_deployment-Safe :
      (from : Option ℕ) (c : Cluster) (d : Deployment)
      → Good (some from) d
      → Backed (some from) c
      → Runs Safe (Seen (some from) c d) (sync_deployment render faults pods d) (λ _. Safe)
  unfolding sync_deployment
  sync_deployment-Safe from c d g b =
      bind-Runs Safe
        (weaken-Runs (λ w h. held (some from) h)
          (observe_targets-Seen render faults pods (some from) c d d.targets g.local.sound
            (Distinct-Launched d.targets g.distinct)))
        (λ observed. record {
          runs = λ w h.
              (bind-Runs Safe
                  (weaken-Runs (λ w h. held (some from) h)
                    (observe_router-Seen render faults pods (some from) c d
                      (record d { targets = observed }) (copied observed h.1) h.1 refl b))
                  (λ seen. record {
                    runs = λ w x.
                        (observed-Safe render faults honest pods c d from d seen x.1).runs w x.0;
                  })).runs
                w h.0;
        })
    where
      sounds : (ts : List ServedVersion) → All (Observed c) ts → All Sound ts
      sounds [] h = tt
      sounds (t ∷ ts) h = (h.0.sound, sounds ts h.1)

      copied :
          (ts : List ServedVersion)
          → All (Observed c) ts
          → Local (some from) (record d { targets = ts })
      copied ts h =
          unfold placed in
          record { place = g.local.place; sound = sounds ts h; router = g.local.router }

  placed-inactive : (d : Deployment) → placed d ≡ none → is_active render faults pods d ≡ false
  unfolding placed is_active
  placed-inactive d h = elim (Option-cases d.k8s_name) [
    | inl e ↦ rw e (ground arith)
    | inr (n, e) ↦ absurd (cc (rw e at h))
  ]

  pub sync-Safe : Runs Safe Safe (sync render faults pods) (λ _. Safe)
  unfolding sync
  sync-Safe = record { runs = run }
    where
      pass :
          (k : Option (Option ℕ)) (w : World) (h : Held k w) (b : Bool)
          → (b ≡ is_active render faults pods h.deployment)
          → Ends Safe
              (λ _. Safe)
              (when b (catch (sync_deployment render faults pods h.deployment) (λ e. pure tt)) w)
      pass k w h false e = held k h
      pass none w h true e = absurd (inactive e)
        where
          inactive : true ≢ is_active render faults pods h.deployment
          inactive q = cc (q, placed-inactive h.deployment h.good.local.place)
      pass (some from) w h true e =
          (catch-Runs (sync_deployment-Safe from w.cluster h.deployment h.good h.backed)
              (λ e. pure-Runs Safe tt (λ w h. h))).runs
            w
            record {
              kept = h;
              same_cluster = refl;
              linked = record { launched = λ v x. x; routed = λ x. x };
            }

      run : (w : World) → Safe w → Ends Safe (λ _. Safe) (sync render faults pods w)
      run w (absent e b) = simp e (absent e b)
      run w (held k h) = simp (h.row) (pass k w h _ refl)
