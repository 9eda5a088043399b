-- ===== src/Services/Deployments/Backed/Writes.antt =====
-- Which writes to the cluster keep the front Service of a deployment backed.
use ash_ml.Base.{
  ℕ, ◌<◌, ◌≡◌, ◌≢◌, refl, sym, ap, subst, ◌∙◌, inl, inr, Bool, Option, none, some, some-eq,
}
use ash_ml.Services.Deployments.Rows.{ObjectName, front_name, router_name}
use ash_ml.Services.Deployments.Cluster.{
  Object, Service, Selector, Cluster, without_object, with_object, service_of, object_of,
  with_service, without_service, with_selector,
}
use ash_ml.Services.Deployments.Backed.{
  destination, front_to, IsSized, FrontBacked, Backed, object_of-without, object_of-with,
  object_of-own, object_of-gone, name-cases, service_of-without, service_of-with, service_of-new,
  service_of-with_selector, object_of-with_service,
}

-- A Deployment that asks for pods replaces any; another name replaces none that matters.
pub with_object-IsSized :
    (n : ObjectName) (o : Object) (c : Cluster)
    → (o.name ≡ n → 0 < o.replicas)
    → IsSized n c
    → IsSized n (with_object o c)
with_object-IsSized n o c h s = elim (name-cases n o.name) [
  | inl e ↦ record {
    object = o;
    exists = ap (λ m. object_of m (with_object o c)) e ∙ object_of-own o c;
    sized = h (sym e);
  }
  | inr e ↦ record {
    object = s.object;
    exists = object_of-with n o c e ∙ s.exists;
    sized = s.sized;
  }
]

service_of-with_object :
    (n : ObjectName) (o : Object) (c : Cluster) → service_of n (with_object o c) ≡ service_of n c
unfolding service_of with_object
service_of-with_object n o c = refl

service_of-without_object :
    (n m : ObjectName) (c : Cluster) → service_of n (without_object m c) ≡ service_of n c
unfolding service_of without_object
service_of-without_object n m c = refl

pub with_object-Backed :
    (k : Option (Option ℕ)) (o : Object) (c : Cluster)
    → ((s : Option ℕ) → k ≡ some s → o.name ≡ destination s → 0 < o.replicas)
    → (o.name ≡ router_name → 0 < o.replicas)
    → Backed k c
    → Backed k (with_object o c)
with_object-Backed k o c h r b = record { front = front k h b.front; router = router }
  where
    front :
        (k : Option (Option ℕ))
        → ((s : Option ℕ) → k ≡ some s → o.name ≡ destination s → 0 < o.replicas)
        → FrontBacked k c
        → FrontBacked k (with_object o c)
    front none h f = service_of-with_object front_name o c ∙ f
    front (some s) h f = (
      service_of-with_object front_name o c ∙ f.0,
      with_object-IsSized (destination s) o c (h s refl) f.1,
    )

    router : (p : Object) → object_of router_name (with_object o c) ≡ some p → 0 < p.replicas
    router p e = elim (name-cases router_name o.name) [
      | inl q ↦
          let same : o ≡ p =
            some-eq
              (sym (object_of-own o c) ∙ ap (λ m. object_of m (with_object o c)) (sym q) ∙ e) in
          subst (λ x. 0 < x.replicas) same (r (sym q))
      | inr q ↦ b.router p (sym (object_of-with router_name o c q) ∙ e)
    ]

pub without_object-Backed :
    (k : Option (Option ℕ)) (m : ObjectName) (c : Cluster)
    → ((s : Option ℕ) → k ≡ some s → destination s ≢ m)
    → Backed k c
    → Backed k (without_object m c)
without_object-Backed k m c h b = record { front = front k h b.front; router = router }
  where
    front :
        (k : Option (Option ℕ))
        → ((s : Option ℕ) → k ≡ some s → destination s ≢ m)
        → FrontBacked k c
        → FrontBacked k (without_object m c)
    front none h f = service_of-without_object front_name m c ∙ f
    front (some s) h f = (
      service_of-without_object front_name m c ∙ f.0,
      record {
        object = f.1.object;
        exists = object_of-without (destination s) m c (h s refl) ∙ f.1.exists;
        sized = f.1.sized;
      },
    )

    router : (p : Object) → object_of router_name (without_object m c) ≡ some p → 0 < p.replicas
    router p e = elim (name-cases router_name m) [
      | inl q ↦ absurd (cc (e, object_of-gone m c, q))
      | inr q ↦ b.router p (sym (object_of-without router_name m c q) ∙ e)
    ]

-- The Services of the versions, and the front Service itself.
pub with_service-Backed :
    (k : Option (Option ℕ)) (s : Service) (c : Cluster)
    → front_name ≢ s.name
    → Backed k c
    → Backed k (with_service s c)
with_service-Backed k s c h b = record {
  front = front k b.front;
  router = λ o e. b.router o (sym (object_of-with_service router_name s c) ∙ e);
}
  where
    front : (k : Option (Option ℕ)) → FrontBacked k c → FrontBacked k (with_service s c)
    front none f = service_of-with front_name s c h ∙ f
    front (some v) f = (
      service_of-with front_name s c h ∙ f.0,
      record {
        object = f.1.object;
        exists = object_of-with_service (destination v) s c ∙ f.1.exists;
        sized = f.1.sized;
      },
    )

object_of-without_service :
    (n m : ObjectName) (c : Cluster) → object_of n (without_service m c) ≡ object_of n c
unfolding object_of without_service
object_of-without_service n m c = refl

pub without_service-Backed :
    (k : Option (Option ℕ)) (m : ObjectName) (c : Cluster)
    → front_name ≢ m
    → Backed k c
    → Backed k (without_service m c)
without_service-Backed k m c h b = record {
  front = front k b.front;
  router = λ o e. b.router o (sym (object_of-without_service router_name m c) ∙ e);
}
  where
    front : (k : Option (Option ℕ)) → FrontBacked k c → FrontBacked k (without_service m c)
    front none f = service_of-without front_name m c h ∙ f
    front (some v) f = (
      service_of-without front_name m c h ∙ f.0,
      record {
        object = f.1.object;
        exists = object_of-without_service (destination v) m c ∙ f.1.exists;
        sized = f.1.sized;
      },
    )

front-named : (s : Option ℕ) → (front_to s).name ≡ front_name
front-named none = refl
front-named (some v) = refl

pub launched-Backed :
    (s : Option ℕ) (c : Cluster)
    → IsSized (destination s) c
    → Backed none c
    → Backed (some s) (with_service (front_to s) c)
launched-Backed s c sized b = record {
  front = (
    front s b.front,
    record {
      object = sized.object;
      exists = object_of-with_service (destination s) (front_to s) c ∙ sized.exists;
      sized = sized.sized;
    },
  );
  router = λ o e. b.router o (sym (object_of-with_service router_name (front_to s) c) ∙ e);
}
  where
    front :
        (s : Option ℕ)
        → service_of front_name c ≡ none
        → service_of front_name (with_service (front_to s) c) ≡ some (front_to s)
    front none e = service_of-new (front_to none) c e
    front (some v) e = service_of-new (front_to (some v)) c e

object_of-with_selector :
    (n m : ObjectName) (x : Selector) (c : Cluster)
    → object_of n (with_selector m x c) ≡ object_of n c
unfolding object_of with_selector
object_of-with_selector n m x c = refl

pub moved-Backed :
    (from to : Option ℕ) (c : Cluster)
    → IsSized (destination to) c
    → Backed (some from) c
    → Backed (some to) (with_selector front_name (front_to to).selector c)
moved-Backed from to c sized b = record {
  front = (
    front from to b.front.0,
    record {
      object = sized.object;
      exists = object_of-with_selector (destination to) front_name _ c ∙ sized.exists;
      sized = sized.sized;
    },
  );
  router = λ o e. b.router o (sym (object_of-with_selector router_name front_name _ c) ∙ e);
}
  where
    front :
        (from to : Option ℕ)
        → service_of front_name c ≡ some (front_to from)
        → service_of front_name (with_selector front_name (front_to to).selector c)
          ≡ some (front_to to)
    front none none e = service_of-with_selector front_name _ c _ e
    front none (some w) e = service_of-with_selector front_name _ c _ e
    front (some v) none e = service_of-with_selector front_name _ c _ e
    front (some v) (some w) e = service_of-with_selector front_name _ c _ e

-- The Secret is no Deployment and no Service.
pub secret-Backed :
    (k : Option (Option ℕ)) (b : Bool) (c : Cluster)
    → Backed k c
    → Backed k (record c { secret = b })
unfolding service_of object_of
secret-Backed none b c h = record { front = h.front; router = h.router }
secret-Backed (some s) b c h = record {
  front = (
    h.front.0,
    record { object = h.front.1.object; exists = h.front.1.exists; sized = h.front.1.sized },
  );
  router = h.router;
}
