-- ===== src/Services/Models/Promotion.antt =====
-- Which versions of a model are in PRODUCTION after `setStatus` of services/models.js.
use ash_ml.Base.{
  ℕ, ◌≡◌, ◌⊎◌, ◌↔◌, refl, sym, inl, inr, true, Option, none, some, List, [], ◌∷◌, map, In, here,
  there, All, In-All, In-keep, arith, ◌==◌, Bool-cases, Option-cases, if◌then◌else◌, ==_iff, subst,
  ◌∙◌,
}
use ash_ml.Domain.ModelStatus.{
  ModelStatus, production, staging, same, is_exclusive, can_transition, transition,
}
use ash_ml.Services.Models.{
  Version, ok, Changed, get_version, with_status, change, set_version_status, displace_one,
  displace, displace_incumbents, apply_status, or_fail, set_status,
}

pub same_iff : (s t : ModelStatus) → (same s t ≡ true) ↔ (s ≡ t)
unfolding same
same_iff s t = ((λ h. ground (arith, h)), λ h. ground (arith, h))

-- Some version of the list has the id.
abbrev pub Listed : ℕ → List Version → Type 0
Listed id [] = ⊥
Listed id (i ∷ is) = (i.id ≡ id) ⊎ Listed id is

-- A version in PRODUCTION is the one with the id, or one of the listed.
abbrev Cleared : ℕ → List Version → Version → Type 0
Cleared target is v = v.status ≡ production → (v.id ≡ target) ⊎ Listed v.id is

-- Only a version with the id is in PRODUCTION.
abbrev pub Alone : ℕ → Version → Type 0
Alone target v = v.status ≡ production → v.id ≡ target

pub All-map {ℓ κ} :
    {A : Type ℓ} (P Q : A → Type κ) (f : A → A) (xs : List A)
    → ((a : A) → P a → Q (f a))
    → All P xs
    → All Q (map f xs)
All-map P Q f [] k h = tt
All-map P Q f (x ∷ xs) k h = (k x h.0, All-map P Q f xs k h.1)

pub All-weaken {ℓ κ} :
    {A : Type ℓ} (P Q : A → Type κ) (xs : List A) → ((a : A) → P a → Q a) → All P xs → All Q xs
All-weaken P Q [] k h = tt
All-weaken P Q (x ∷ xs) k h = (k x h.0, All-weaken P Q xs k h.1)

skip-Cleared :
    (target : ℕ) (i : Version) (is : List Version) (v : Version)
    → i.id ≡ target
    → Cleared target (i ∷ is) v
    → Cleared target is v
skip-Cleared target i is v e h p = elim (h p) [
  | inl q ↦ inl q
  | inr (inl q) ↦ inl (sym q ∙ e)
  | inr (inr q) ↦ inr q
]

change-Cleared :
    (target : ℕ) (i : Version) (is : List Version) (v : Version)
    → Cleared target (i ∷ is) v
    → Cleared target is (change i.id staging none v)
unfolding change
change-Cleared target i is v h = elim (Bool-cases (v.id == i.id)) [
  | inl e ↦ rw e (λ p. cc)
  | inr e ↦ rw e (λ p. elim (h p) [
    | inl q ↦ inl q
    | inr (inl q) ↦ absurd (ground (arith, e, q))
    | inr (inr q) ↦ inr q
  ])
]

displace_one-Cleared :
    (target : ℕ) (i : Version) (is : List Version) (st : List Version × Option Version)
    → All (Cleared target (i ∷ is)) st.0
    → All (Cleared target is) (displace_one target i st).0
unfolding displace_one set_version_status
displace_one-Cleared target i is (vs, d) h = elim (Bool-cases (i.id == target)) [
  | inl e ↦
      rw (e, displace_one, if◌then◌else◌)
        (All-weaken (Cleared target (i ∷ is)) (Cleared target is) vs
          (λ v. skip-Cleared target i is v ((==_iff i.id target).0 e)) h)
  | inr e ↦
      rw (e, displace_one, if◌then◌else◌)
        (All-map (Cleared target (i ∷ is)) (Cleared target is) (change i.id staging none) vs
          (change-Cleared target i is) h)
]

displace-Cleared :
    (target : ℕ) (is : List Version) (st : List Version × Option Version)
    → All (Cleared target is) st.0
    → All (Alone target) (displace target is st).0
unfolding displace
displace-Cleared target [] st h =
    All-weaken (Cleared target []) (Alone target) st.0
      (λ v k p. elim (k p) [ inl q ↦ q | inr q ↦ absurd q ]) h
displace-Cleared target (i ∷ is) st h =
    displace-Cleared target is (displace_one target i st) (displace_one-Cleared target i is st h)

pub In-Listed : {v : Version} {is : List Version} → In v is → Listed v.id is
In-Listed here = inl refl
In-Listed (there m) = inr (In-Listed m)

incumbents-Cleared :
    (target : ℕ) (vs : List Version) → All (Cleared target (with_status production vs)) vs
unfolding with_status
incumbents-Cleared target vs = In-All (Cleared target (with_status production vs)) vs λ v m p.
    inr (In-Listed (In-keep (λ w. same w.status production) m ((same_iff v.status production).1 p)))

-- After `displaceIncumbents` for PRODUCTION no other version is there.
displaced-Alone :
    (target : ℕ) (vs : List Version)
    → All (Alone target) (displace_incumbents target production vs).0
unfolding displace_incumbents is_exclusive same
displaced-Alone target vs =
    displace-Cleared target (with_status production vs) (vs, none) (incumbents-Cleared target vs)

promote-Alone :
    (target now : ℕ) (v : Version)
    → Alone target v
    → Alone target (change target production (some now) v)
unfolding change
promote-Alone target now v h = elim (Bool-cases (v.id == target)) [
  | inl e ↦ rw e (λ p. (==_iff v.id target).0 e)
  | inr e ↦ rw e h
]

-- The version with the id is in PRODUCTION.
abbrev pub Promoted : ℕ → Version → Type 0
Promoted target v = v.id ≡ target → v.status ≡ production

promote-Promoted :
    (target now : ℕ) (v : Version) → Promoted target (change target production (some now) v)
unfolding change
promote-Promoted target now v = elim (Bool-cases (v.id == target)) [
  | inl e ↦ rw e (λ q. refl)
  | inr e ↦ rw e (λ q. absurd (ground (arith, e, q)))
]

-- What `setStatus` returned, and the version that it found.
pub set_status-ok :
    (now : ℕ) (vs : List Version) (n : ℕ) (s : ModelStatus) (c : Changed)
    → set_status now (some vs) n s ≡ ok c
    → (t : Version) × (get_version n vs ≡ some t)
      × (can_transition t.status s ≡ true)
      × (c ≡ apply_status now vs t s)
unfolding set_status transition
set_status-ok now vs n s c h = elim (Option-cases (get_version n vs)) [
  | inl e ↦ absurd (cc (rw (e, or_fail) at h))
  | inr (t, e) ↦ elim (Bool-cases (can_transition t.status s)) [
    | inl f ↦ (t, e, f, ground (arith, h, e, f))
    | inr f ↦ absurd (ground (arith, h, e, f))
  ]
]

All-both {ℓ κ} :
    {A : Type ℓ} (P Q : A → Type κ) (xs : List A) → All P xs → All Q xs → All (λ a. P a × Q a) xs
All-both P Q [] h k = tt
All-both P Q (x ∷ xs) h k = ((h.0, k.0), All-both P Q xs h.1 k.1)

pub promoted :
    (now : ℕ) (vs : List Version) (t : Version)
    → All (λ v. Alone t.id v × Promoted t.id v) (apply_status now vs t production).versions
unfolding apply_status set_version_status
promoted now vs t =
    let cleared = (displace_incumbents t.id production vs).0 in
    All-both (Alone t.id) (Promoted t.id) (map (change t.id production (some now)) cleared)
      (All-map (Alone t.id) (Alone t.id) (change t.id production (some now)) cleared
        (promote-Alone t.id now) (displaced-Alone t.id vs))
      (All-map (λ v. Unit {0}) (Promoted t.id) (change t.id production (some now)) cleared
        (λ v h. promote-Promoted t.id now v) (In-All (λ v. Unit {0}) cleared (λ v m. tt)))

-- After a version is moved to PRODUCTION, it is there, and no version with another id is, whatever
-- was there before.
pub set_status-promotes :
    (now : ℕ) (vs : List Version) (n : ℕ) (c : Changed)
    → set_status now (some vs) n production ≡ ok c
    → (t : Version) × (get_version n vs ≡ some t)
      × All
          (λ v. (v.status ≡ production → v.id ≡ t.id) × (v.id ≡ t.id → v.status ≡ production))
          c.versions
set_status-promotes now vs n c h =
    let (t, found, legal, e) = set_status-ok now vs n production c h in
    (
      t,
      found,
      subst (λ d. All (λ v. Alone t.id v × Promoted t.id v) d.versions) (sym e) (promoted now vs t),
    )
