-- ===== src/Services/Deployments/Traffic/Retired.antt =====
-- `retire` of packages/server/src/services/deployments.js never takes away what the front Service
-- selects.
use ash_ml.Base.{
  ℕ, ◌≡◌, ◌≢◌, refl, sym, ap, subst, ◌∙◌, inl, inr, Bool, false, not, Option, none, some, List, [],
  ◌∷◌, keep, any, find, All, Bool-cases, ltb, ◌==◌, ==_iff, some-eq, find-some, All-In,
}
use ash_ml.Services.Tables.{Text}
use ash_ml.Services.Deployments.Rows.{
  ObjectName, target_name, ServedVersion, Deployment, remove_target,
}
use ash_ml.Services.Deployments.Status.{Pods, Message, takes_traffic}
use ash_ml.Services.Deployments.Cluster.{
  Faults, deletes, Cluster, World, call, update_row, delete_deployment,
}
use ash_ml.Services.Deployments.Cluster.Runs.{Ends, Runs, pure-Runs, bind-Runs}
use ash_ml.Services.Deployments.Backed.{Backed, destination}
use ash_ml.Services.Deployments.Backed.Writes.{without_object-Backed, without_service-Backed}
use ash_ml.Services.Deployments.Held.{
  placed, Sound, Fresh, Distinct, Good, Safe, absent, held, call-Runs, weaken-Runs, fail-Runs,
}
use ash_ml.Services.Deployments.Apply.Kept.{
  serving-placed, front-not_target, target-eq, target-not_router,
}
use ash_ml.Services.Deployments.Traffic.{
  Checked, refused, passed, check_retire, delete_named, retire_checked, retire, resolves_to,
  check_found,
}
use ash_ml.Services.Deployments.Traffic.Committed.{passed-eq}

keep-All :
    (P : ServedVersion → Type 0) (p : ServedVersion → Bool) (ts : List ServedVersion)
    → All P ts
    → All P (keep p ts)
keep-All P p [] h = tt
keep-All P p (t ∷ ts) h = elim (Bool-cases (p t)) [
  | inl e ↦ rw e (h.0, keep-All P p ts h.1)
  | inr e ↦ rw e (keep-All P p ts h.1)
]

keep-Distinct :
    (p : ServedVersion → Bool) (ts : List ServedVersion) → Distinct ts → Distinct (keep p ts)
keep-Distinct p [] d = tt
keep-Distinct p (t ∷ ts) d = elim (Bool-cases (p t)) [
  | inl e ↦ rw e (keep-All (λ u. u.version ≢ t.version) p ts d.0, keep-Distinct p ts d.1)
  | inr e ↦ rw e (keep-Distinct p ts d.1)
]

-- The target that is found is the only one of its version.
found-only :
    (v : ℕ) (ts : List ServedVersion) (t : ServedVersion)
    → Distinct ts
    → find (λ u. u.version == v) ts ≡ some t
    → All (λ u. u.version ≡ v → u ≡ t) ts
found-only v [] t d h = tt
found-only v (u ∷ ts) t d h = elim (Bool-cases (u.version == v)) [
  | inl e ↦
      let same : u ≡ t = some-eq (rw e at h) in
      let version : u.version ≡ v = (==_iff u.version v).0 e in
      ((λ _. same), others ts (subst (λ n. Fresh n ts) version d.0))
  | inr e ↦ ((λ q. absurd (cc (e, (==_iff u.version v).1 q))), found-only v ts t d.1 (rw e at h))
]
  where
    others : (us : List ServedVersion) → Fresh v us → All (λ u. u.version ≡ v → u ≡ t) us
    others [] f = tt
    others (x ∷ us) f = ((λ q. absurd (f.0 q)), others us f.1)

remove-serves :
    (v : ℕ) (t : ServedVersion)
    → takes_traffic t ≡ false
    → (ts : List ServedVersion) → All (λ u. u.version ≡ v → u ≡ t) ts
    → any takes_traffic (keep (λ u. not (u.version == v)) ts) ≡ any takes_traffic ts
remove-serves v t idle [] h = refl
remove-serves v t idle (u ∷ ts) h = elim (Bool-cases (u.version == v)) [
  | inl e ↦
      let idle_too : takes_traffic u ≡ false =
        ap takes_traffic (h.0 ((==_iff u.version v).0 e)) ∙ idle in
      rw (e, idle_too) (remove-serves v t idle ts h.1)
  | inr e ↦ rw (e, remove-serves v t idle ts h.1) refl
]

remove_target-Good :
    (k : Option (Option ℕ)) (v : ℕ) (t : ServedVersion) (d : Deployment)
    → takes_traffic t ≡ false
    → find (λ u. u.version == v) d.targets ≡ some t
    → Good k d
    → Good k (remove_target v d)
unfolding remove_target placed
remove_target-Good k v t d idle f g = record {
  local = record {
    place = g.local.place;
    sound = keep-All Sound _ d.targets g.local.sound;
    router = g.local.router;
  };
  size = g.size;
  serves = remove-serves v t idle d.targets (found-only v d.targets t g.distinct f) ∙ g.serves;
  distinct = keep-Distinct _ d.targets g.distinct;
}

resolves : (s : Option ℕ) (v : ℕ) → resolves_to s v ≡ false → s ≢ some v
unfolding resolves_to
resolves none v h e = cc
resolves (some u) v h e = cc (h, (==_iff u v).1 (some-eq e))

-- What `retire` has checked of the version that it removes.
checked :
    (v : ℕ) (d : Deployment) (o : Option ServedVersion) (t : ServedVersion)
    → check_found v d o ≡ passed t
    → (o ≡ some t) × (takes_traffic t ≡ false) × (d.serving_version ≢ some v)
unfolding check_found takes_traffic
checked v d none t h = cc
checked v d (some u) t h = elim (Bool-cases (ltb 0 u.traffic_weight)) [
  | inl e ↦ absurd (cc (rw e at h))
  | inr e ↦ elim (Bool-cases (resolves_to d.serving_version v)) [
    | inl f ↦ absurd (cc (rw (e, f) at h))
    | inr f ↦
        let same : u ≡ t = passed-eq (rw (e, f) at h) in
        (
          ap some same,
          subst (λ x. ltb 0 x.traffic_weight ≡ false) same e,
          resolves d.serving_version v f,
        )
  ]
]

-- The row as it was read, and the front.
record Row (k : Option (Option ℕ)) (d : Deployment) (w : World) : Type 0 where
  row : w.row ≡ some d
  backed : Backed k w.cluster

module _ (render : Message → Text) (faults : Faults) (pods : ℕ → Pods) where
  delete_named-Kept :
      (k : Option (Option ℕ)) (d : Deployment) (v : ℕ) (t : ServedVersion)
      → placed d ≡ k
      → t.version ≡ v
      → d.serving_version ≢ some v
      → Sound t
      → Runs (Row k d) (Row k d) (delete_named render faults pods t.k8s_name) (λ _. Row k d)
  unfolding delete_named destination delete_deployment
  delete_named-Kept k d v t p version unused sound = named t.k8s_name refl
    where
      apart : (s : Option ℕ) → k ≡ some s → destination s ≢ target_name v
      apart none e q = target-not_router v (sym q)
      apart (some u) e q = unused (serving-placed d (some u) (p ∙ e) ∙ ap some (target-eq u v q))

      write :
          (f : Cluster → Cluster)
          → ((c : Cluster) → Backed k c → Backed k (f c))
          → Runs (Row k d) (Row k d) (call faults pods deletes f) (λ _. Row k d)
      write f keep =
          call-Runs faults pods deletes (Row k d) f
            (λ w n h. record { row = h.row; backed = h.backed })
            (λ w n h. record { row = h.row; backed = keep w.cluster h.backed })

      named :
          (name : Option ObjectName)
          → t.k8s_name ≡ name
          → Runs (Row k d) (Row k d) (delete_named render faults pods name) (λ _. Row k d)
      named none e = pure-Runs (Row k d) tt (λ w h. h)
      named (some name) e = elim sound.named [
        | inl h ↦ absurd (cc (e, h.0))
        | inr h ↦
            let same : target_name v ≡ name = ap target_name (sym version) ∙ some-eq (sym h ∙ e) in
            subst (λ n. Runs (Row k d) (Row k d) (delete_deployment faults pods n) (λ _. Row k d))
              same
              (bind-Runs (Row k d) (write _ (λ c. without_object-Backed k (target_name v) c apart))
                (λ _.
                  write _ (λ c. without_service-Backed k (target_name v) c (front-not_target v))))
      ]

  retired-Safe :
      (k : Option (Option ℕ)) (v : ℕ) (d : Deployment)
      → Good k d
      → (c : Checked ServedVersion) → check_retire v d ≡ c
      → Runs Safe (Row k d) (retire_checked render faults pods v c) (λ _. Safe)
  unfolding retire_checked check_retire update_row
  retired-Safe k v d g (refused e) q = fail-Runs e (λ w h. safe w h)
    where
      safe : (w : World) → Row k d w → Safe w
      safe w h = held k record { deployment = d; row = h.row; good = g; backed = h.backed }
  retired-Safe k v d g (passed t) q =
      let (f, idle, unused) = checked v d (find (λ u. u.version == v) d.targets) t q in
      let (own, member) = find-some (λ u. u.version == v) d.targets f in
      let version : t.version ≡ v = (==_iff t.version v).0 own in
      let sound : Sound t = All-In Sound d.targets g.local.sound member in
      bind-Runs Safe
        (weaken-Runs
          (λ w h. held k record { deployment = d; row = h.row; good = g; backed = h.backed })
          (delete_named-Kept k d v t g.local.place version unused sound))
        (λ _. record {
          runs = λ w h. held k record {
            deployment = remove_target v d;
            row = rw (h.row) refl;
            good = remove_target-Good k v t d idle f g;
            backed = h.backed;
          };
        })

  pub retire-Safe : (version : ℕ) → Runs Safe Safe (retire render faults pods version) (λ _. Safe)
  unfolding retire
  retire-Safe version = record { runs = run }
    where
      run : (w : World) → Safe w → Ends Safe (λ _. Safe) (retire render faults pods version w)
      run w (absent e b) = simp e (absent e b)
      run w (held k h) = simp (h.row) (
          (retired-Safe k version h.deployment h.good _ refl).runs w
            record { row = h.row; backed = h.backed })
