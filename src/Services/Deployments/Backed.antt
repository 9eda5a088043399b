-- ===== src/Services/Deployments/Backed.antt =====
-- The front Service of a deployment (packages/server/src/services/deployments.js) and what it selects.
pub mod Writes
use ash_ml.Base.{
  ℕ, suc, ◌≤◌, ◌<◌, ◌≡◌, ◌≢◌, refl, sym, ap, subst, ◌∙◌, ◌⊎◌, inl, inr, Bool, true, false, not,
  Option, none, some, List, [], ◌∷◌, map, keep, find, ◌==◌, ==_iff, ==-self, if◌then◌else◌,
  Bool-cases, Option-cases, arith, some-eq,
}
use ash_ml.Services.Deployments.Rows.{ObjectName, front_name, router_name, target_name}
use ash_ml.Services.Deployments.Cluster.{
  same_name, Object, Service, Selector, selects_router, selects_version, Cluster, without_object,
  with_object, service_of, object_of, with_service, without_service, with_selector,
}

unfoldable pub destination : Option ℕ → ObjectName
destination none = router_name
destination (some v) = target_name v

abbrev pub front_to : Option ℕ → Service
front_to none = record { name = front_name; selector = selects_router }
front_to (some v) = record { name = front_name; selector = selects_version v }

-- A Deployment of that name that asks for a pod at least.
pub record IsSized (name : ObjectName) (c : Cluster) : Type 0 where
  pub object : Object
  pub exists : object_of name c ≡ some object
  pub sized : 0 < object.replicas

-- Where the front Service stands: nowhere before it is created; then it selects what exists and
-- asks for pods.
abbrev pub FrontBacked : Option (Option ℕ) → Cluster → Type 0
FrontBacked none c = service_of front_name c ≡ none
FrontBacked (some s) c = (service_of front_name c ≡ some (front_to s)) × IsSized (destination s) c

pub record Backed (k : Option (Option ℕ)) (c : Cluster) : Type 0 where
  pub front : FrontBacked k c
  pub router : (o : Object) → object_of router_name c ≡ some o → 0 < o.replicas

pub same_name-eq : (a b : ObjectName) → same_name a b ≡ true → a ≡ b
unfolding same_name
same_name-eq front_name front_name h = refl
same_name-eq router_name router_name h = refl
same_name-eq (target_name v) (target_name w) h = ap target_name ((==_iff v w).0 h)
same_name-eq front_name router_name h = cc
same_name-eq front_name (target_name w) h = cc
same_name-eq router_name front_name h = cc
same_name-eq router_name (target_name w) h = cc
same_name-eq (target_name v) front_name h = cc
same_name-eq (target_name v) router_name h = cc

pub same_name_self : (a : ObjectName) → same_name a a ≡ true
unfolding same_name
same_name_self front_name = refl
same_name_self router_name = refl
same_name_self (target_name v) = ==-self v

pub same_name-false : (a b : ObjectName) → a ≢ b → same_name a b ≡ false
same_name-false a b h = elim (Bool-cases (same_name a b)) [
  | inl e ↦ absurd (h (same_name-eq a b e))
  | inr e ↦ e
]

-- What is taken out under one name is not looked for under another.
pub find-keep :
    {A : Type 0} (name_of : A → ObjectName) (n m : ObjectName)
    → n ≢ m
    → (xs : List A)
    → find (λ x. same_name (name_of x) n) (keep (λ x. not (same_name (name_of x) m)) xs)
      ≡ find (λ x. same_name (name_of x) n) xs
find-keep name_of n m h [] = refl
find-keep name_of n m h (x ∷ xs) = elim (Bool-cases (same_name (name_of x) m)) [
  | inl e ↦
      let other : same_name (name_of x) n ≡ false =
        same_name-false (name_of x) n (λ q. h (sym q ∙ same_name-eq (name_of x) m e)) in
      rw (e, other) (find-keep name_of n m h xs)
  | inr e ↦ elim (Bool-cases (same_name (name_of x) n)) [
    | inl f ↦ rw (e, f) refl
    | inr f ↦ rw (e, f) (find-keep name_of n m h xs)
  ]
]

pub object_of-without :
    (n m : ObjectName) (c : Cluster) → n ≢ m → object_of n (without_object m c) ≡ object_of n c
unfolding object_of without_object
object_of-without n m c h = find-keep (λ o. o.name) n m h c.objects

pub object_of-with :
    (n : ObjectName) (o : Object) (c : Cluster)
    → n ≢ o.name
    → object_of n (with_object o c) ≡ object_of n c
unfolding object_of with_object
object_of-with n o c h =
    rw (same_name-false o.name n (λ e. h (sym e))) (find-keep (λ p. p.name) n o.name h c.objects)

pub object_of-own : (o : Object) (c : Cluster) → object_of o.name (with_object o c) ≡ some o
unfolding object_of with_object
object_of-own o c = rw (same_name_self o.name) refl

pub name-cases : (a b : ObjectName) → (a ≡ b) ⊎ (a ≢ b)
name-cases a b = elim (Bool-cases (same_name a b)) [
  | inl e ↦ inl (same_name-eq a b e)
  | inr e ↦ inr (λ q. cc (e, same_name_self a, q))
]

find-gone : {A : Type 0} (p : A → Bool) (xs : List A) → find p (keep (λ x. not (p x)) xs) ≡ none
find-gone p [] = refl
find-gone p (x ∷ xs) = elim (Bool-cases (p x)) [
  | inl e ↦ rw e (find-gone p xs)
  | inr e ↦ rw (e, e) (find-gone p xs)
]

pub object_of-gone : (m : ObjectName) (c : Cluster) → object_of m (without_object m c) ≡ none
unfolding object_of without_object
object_of-gone m c = find-gone (λ o. same_name o.name m) c.objects

-- What is written to the Services of one name.
pub service_of-without :
    (n m : ObjectName) (c : Cluster) → n ≢ m → service_of n (without_service m c) ≡ service_of n c
unfolding service_of without_service
service_of-without n m c h = find-keep (λ s. s.name) n m h c.services

with_service-new :
    (s : Service) (c : Cluster)
    → service_of s.name c ≡ none
    → with_service s c ≡ record c { services = s ∷ c.services }
unfolding with_service
with_service-new s c e = ground (arith, e)

with_service-known :
    (s t : Service) (c : Cluster) → service_of s.name c ≡ some t → with_service s c ≡ c
unfolding with_service
with_service-known s t c e = ground (arith, e)

pub service_of-with :
    (n : ObjectName) (s : Service) (c : Cluster)
    → n ≢ s.name
    → service_of n (with_service s c) ≡ service_of n c
service_of-with n s c h = elim (Option-cases (service_of s.name c)) [
  | inl e ↦ ap (service_of n) (with_service-new s c e) ∙ other
  | inr (t, e) ↦ ap (service_of n) (with_service-known s t c e)
]
  where
    other : service_of n (record c { services = s ∷ c.services }) ≡ service_of n c
    other = unfold service_of in rw (same_name-false s.name n (λ q. h (sym q))) refl

pub service_of-new :
    (s : Service) (c : Cluster)
    → service_of s.name c ≡ none
    → service_of s.name (with_service s c) ≡ some s
service_of-new s c e = ap (service_of s.name) (with_service-new s c e) ∙ own
  where
    own : service_of s.name (record c { services = s ∷ c.services }) ≡ some s
    own = unfold service_of in rw (same_name_self s.name) refl

pub object_of-with_service :
    (n : ObjectName) (s : Service) (c : Cluster) → object_of n (with_service s c) ≡ object_of n c
object_of-with_service n s c = elim (Option-cases (service_of s.name c)) [
  | inl e ↦ ap (object_of n) (with_service-new s c e) ∙ (unfold object_of in refl)
  | inr (t, e) ↦ ap (object_of n) (with_service-known s t c e)
]

find-selector :
    (n : ObjectName) (selector : Selector) (ss : List Service) (s : Service)
    → find (λ t. same_name t.name n) ss ≡ some s
    → find
        (λ t. same_name t.name n)
        (map (λ t. if same_name t.name n then record t { selector = selector } else t) ss)
      ≡ some (record s { selector = selector })
find-selector n selector [] s h = cc
find-selector n selector (t ∷ ss) s h = elim (Bool-cases (same_name t.name n)) [
  | inl e ↦ let same : t ≡ s = some-eq (rw e at h) in rw (e, e) (ap reselected same)
  | inr e ↦ rw (e, e) (find-selector n selector ss s (rw e at h))
]
  where
    reselected : Service → Option Service
    reselected u = some (record u { selector = selector })

pub service_of-with_selector :
    (n : ObjectName) (selector : Selector) (c : Cluster) (s : Service)
    → service_of n c ≡ some s
    → service_of n (with_selector n selector c) ≡ some (record s { selector = selector })
unfolding service_of with_selector
service_of-with_selector n selector c s h = find-selector n selector c.services s h
