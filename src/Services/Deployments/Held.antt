-- ===== src/Services/Deployments/Held.antt =====
-- What holds of the row of a deployment and of its cluster between two steps of
-- packages/server/src/services/deployments.js.
pub mod Updates
use ash_ml.Base.{
  ℕ, suc, ◌≤◌, ◌<◌, ◌≡◌, ◌≢◌, refl, sym, ap, subst, ◌∙◌, ◌⊎◌, inl, inr, Bool, true, false, not,
  Option, none, some, List, [], ◌∷◌, map, keep, find, any, All, if◌then◌else◌, Bool-cases,
  Option-cases, arith, some-eq,
}
use ash_ml.Services.Deployments.Rows.{
  ready, ObjectName, front_name, router_name, target_name, ServedVersion, Deployment,
}
use ash_ml.Services.Deployments.Status.{Pods, takes_traffic}
use ash_ml.Services.Deployments.Cluster.{
  Faults, Write, deletes, written_by, Cluster, World, Failure, Outcome, threw, did, Act, ◌>>=◌,
  ◌>>◌, pure, fail, catch, update_row, call, delete_deployment, without_object, without_service,
}
use ash_ml.Services.Deployments.Cluster.Runs.{Ends, Runs, pure-Runs, bind-Runs}
use ash_ml.Services.Deployments.Backed.{Backed, destination}
use ash_ml.Services.Deployments.Backed.Writes.{without_object-Backed, without_service-Backed}

-- Where the row says that the front Service is: not created, or with this serving_version.
unfoldable pub placed : Deployment → Option (Option ℕ)
placed d = elim d.k8s_name [ none ↦ none | some _ ↦ some d.serving_version ]

pub record Sound (t : ServedVersion) : Type 0 where
  pub sized : 0 < t.replicas
  pub named :
      ((t.k8s_name ≡ none) × (t.status ≢ ready)) ⊎ (t.k8s_name ≡ some (target_name t.version))

abbrev pub Fresh : ℕ → List ServedVersion → Type 0
Fresh v = All (λ t. t.version ≢ v)

abbrev pub Distinct : List ServedVersion → Type 0
Distinct [] = Unit
Distinct (t ∷ ts) = Fresh t.version ts × Distinct ts

abbrev pub RouterNamed : Deployment → Type 0
RouterNamed d =
    ((d.router_k8s_name ≡ none) × (d.router_ready_replicas ≡ 0))
    ⊎ (d.router_k8s_name ≡ some router_name)

-- A copy of the row that a call works with.
pub record Local (k : Option (Option ℕ)) (d : Deployment) : Type 0 where
  pub place : placed d ≡ k
  pub sound : All Sound d.targets
  pub router : RouterNamed d

-- The row itself.
pub record Good (k : Option (Option ℕ)) (d : Deployment) : Type 0 where
  pub local : Local k d
  pub size : 0 < d.replicas
  pub serves : any takes_traffic d.targets ≡ true
  pub distinct : Distinct d.targets

pub record Held (k : Option (Option ℕ)) (w : World) : Type 0 where
  pub deployment : Deployment
  pub row : w.row ≡ some deployment
  pub good : Good k deployment
  pub backed : Backed k w.cluster

pub data Safe (w : World) : Type 0 where
  absent : w.row ≡ none → Backed none w.cluster → Safe w
  held : (k : Option (Option ℕ)) → Held k w → Safe w

abbrev pub Kept : Option (Option ℕ) → {A : Type 0} → Act A → Type 0
Kept k m = Runs (Held k) (Held k) m (λ _. Held k)

pub weaken-Runs :
    {A : Type 0} {E F P : World → Type 0} {Q : A → World → Type 0} {m : Act A}
    → ((w : World) → E w → F w)
    → Runs E P m Q
    → Runs F P m Q
weaken-Runs {E} {F} {Q} {m} h r = record { runs = λ w p. after (m w) (r.runs w p) }
  where
    after : (o : Outcome _) → Ends E Q o → Ends F Q o
    after (did a w) q = q
    after (threw e w) q = h w q

pub catch-Runs :
    {A : Type 0} {E F P : World → Type 0} {Q : A → World → Type 0} {m : Act A}
    {handler : Failure → Act A}
    → Runs E P m Q
    → ((e : Failure) → Runs F E (handler e) Q)
    → Runs F P (catch m handler) Q
catch-Runs {E} {F} {Q} {m} {handler} r h = record { runs = λ w p. after (m w) (r.runs w p) }
  where
    after :
        (o : Outcome _)
        → Ends E Q o
        → Ends F Q (elim o [ threw e w' ↦ handler e w' | did b w' ↦ did b w' ])
    after (did a w) q = q
    after (threw e w) q = (h e).runs w q

pub fail-Runs :
    {A : Type 0} {P E : World → Type 0} {Q : A → World → Type 0} (e : Failure)
    → ((w : World) → P w → E w)
    → Runs E P (fail {B = A} e) Q
fail-Runs e h = record { runs = h }

pub if-Runs :
    {A : Type 0} {E P : World → Type 0} {Q : A → World → Type 0} {m n : Act A} (b : Bool)
    → (b ≡ true → Runs E P m Q)
    → (b ≡ false → Runs E P n Q)
    → Runs E P (if b then m else n) Q
if-Runs true h l = h refl
if-Runs false h l = l refl

-- Two actions that keep, one after the other.
pub then-Kept :
    {A : Type 0} (k : Option (Option ℕ)) {m : Act (Unit {0})} {n : Act A}
    → Kept k m
    → Kept k n
    → Kept k (m >> n)
then-Kept k h l = bind-Runs (Held k) h (λ _. l)

pub nothing-Kept : (k : Option (Option ℕ)) → Kept k (pure tt)
nothing-Kept k = pure-Runs (Held k) tt (λ w h. h)

module _ (faults : Faults) (pods : ℕ → Pods) where
  -- A write of the cluster that keeps a property keeps it where the call throws too.
  pub call-Runs :
      (kind : Write) (P : World → Type 0) (f : Cluster → Cluster)
      → ((w : World) (n : ℕ) → P w → P (record w { calls = n }))
      → ((w : World) (n : ℕ) → P w → P (record w { calls = n; cluster = f w.cluster }))
      → Runs P P (call faults pods kind f) (λ _. P)
  unfolding call written_by
  call-Runs kind P f count write = record {
    runs = λ w p. elim (Bool-cases (faults.throws w.calls)) [
      | inl e ↦ rw e (elim (Bool-cases (faults.lands kind w.calls)) [
        | inl g ↦ rw g (write w (suc w.calls) p)
        | inr g ↦ rw g (count w (suc w.calls) p)
      ])
      | inr e ↦ rw e (write w (suc w.calls) p)
    ];
  }

  pub call-Kept :
      (kind : Write) (k : Option (Option ℕ)) (f : Cluster → Cluster)
      → ((c : Cluster) → Backed k c → Backed k (f c))
      → Kept k (call faults pods kind f)
  call-Kept kind k f keep =
      call-Runs kind (Held k) f
        (λ w n h. record {
          deployment = h.deployment;
          row = h.row;
          good = h.good;
          backed = h.backed;
        })
        (λ w n h. record {
          deployment = h.deployment;
          row = h.row;
          good = h.good;
          backed = keep w.cluster h.backed;
        })

  pub delete_deployment-Kept :
      (k : Option (Option ℕ)) (name : ObjectName)
      → front_name ≢ name
      → ((s : Option ℕ) → k ≡ some s → destination s ≢ name)
      → Kept k (delete_deployment faults pods name)
  unfolding delete_deployment
  delete_deployment-Kept k name other unused =
      then-Kept k (call-Kept deletes k _ (λ c. without_object-Backed k name c unused))
        (call-Kept deletes k _ (λ c. without_service-Backed k name c other))

pub update_row-Kept :
    (k : Option (Option ℕ)) (f : Deployment → Deployment)
    → ((d : Deployment) → Good k d → Good k (f d))
    → Kept k (update_row f)
unfolding update_row
update_row-Kept k f good = record {
  runs = λ w h. record {
    deployment = f h.deployment;
    row = rw (h.row) refl;
    good = good h.deployment h.good;
    backed = h.backed;
  };
}
