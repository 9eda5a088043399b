-- ===== src/Services/Models/Current.antt =====
-- `getProductionVersion` of services/models.js after a promotion.
use ash_ml.Base.{
  ℕ, ◌≡◌, ◌⊎◌, refl, sym, ap, inl, inr, Bool, true, false, Option, none, some, some-eq, List, [],
  ◌∷◌, map, keep, find-some, In, there, All, All-In, keep-In, In-cons_of, ltb, arith, ◌==◌,
  Bool-cases, Option-cases, if◌then◌else◌, subst, ◌∙◌,
}
use ash_ml.Domain.ModelStatus.{ModelStatus, production, staging, same, is_exclusive}
use ash_ml.Services.Models.{
  Version, ok, Changed, get_version, with_status, change, set_version_status, displace_one,
  displace, displace_incumbents, newer, newest, get_production_version, apply_status, set_status,
}
use ash_ml.Services.Models.Promotion.{
  same_iff, Listed, In-Listed, Alone, Promoted, All-weaken, set_status-promotes, set_status-ok,
}

-- The ids of the versions stay.
change-Listed :
    (id target : ℕ) (s : ModelStatus) (stamp : Option ℕ) (vs : List Version)
    → Listed id vs
    → Listed id (map (change target s stamp) vs)
unfolding change
change-Listed id target s none (v ∷ vs) h = elim h [
  | inl e ↦ inl (ground (arith, e))
  | inr k ↦ inr (change-Listed id target s none vs k)
]
change-Listed id target s (some now) (v ∷ vs) h = elim h [
  | inl e ↦ inl (ground (arith, e))
  | inr k ↦ inr (change-Listed id target s (some now) vs k)
]
change-Listed id target s stamp [] h = absurd h

displace-Listed :
    (id target : ℕ) (is : List Version) (st : List Version × Option Version)
    → Listed id st.0
    → Listed id (displace target is st).0
unfolding displace displace_one set_version_status
displace-Listed id target [] st h = h
displace-Listed id target (i ∷ is) (vs, d) h =
    displace-Listed id target is (displace_one target i (vs, d))
      (elim (Bool-cases (i.id == target)) [
        | inl e ↦ rw (e, displace_one, if◌then◌else◌) h
        | inr e ↦ rw (e, displace_one, if◌then◌else◌) (change-Listed id i.id staging none vs h)
      ])

apply_status-Listed :
    (id now : ℕ) (vs : List Version) (t : Version) (s : ModelStatus)
    → Listed id vs
    → Listed id (apply_status now vs t s).versions
unfolding apply_status set_version_status displace_incumbents
apply_status-Listed id now vs t s h = change-Listed id t.id s _ _ (cleared (is_exclusive s))
  where
    cleared :
        (b : Bool)
        → Listed id (if b then displace t.id (with_status s vs) (vs, none) else (vs, none)).0
    cleared true = displace-Listed id t.id (with_status s vs) (vs, none) h
    cleared false = h

newer-cases : (v : Version) (o : Option Version) → (newer v o ≡ some v) ⊎ (newer v o ≡ o)
unfolding newer
newer-cases v none = inl refl
newer-cases v (some w) = elim (Bool-cases (ltb v.version w.version)) [
  | inl e ↦ inr (rw e)
  | inr e ↦ inl (rw e)
]

newest-In : (vs : List Version) {v : Version} → newest vs ≡ some v → In v vs
unfolding newest
newest-In [] h = absurd (cc h)
newest-In (w ∷ vs) {v} h = elim (newer-cases w (newest vs)) [
  | inl e ↦ In-cons_of (inl (some-eq (sym h ∙ e)))
  | inr e ↦ there (newest-In vs (sym e ∙ h))
]

newest-some : (w : Version) (vs : List Version) → (v : Version) × (newest (w ∷ vs) ≡ some v)
unfolding newest
newest-some w vs = elim (Option-cases (newest vs)) [
  | inl e ↦ (w, rw e (unfold newer in refl))
  | inr (u, e) ↦ elim (newer-cases w (newest vs)) [ inl f ↦ (w, f) | inr f ↦ (u, f ∙ e) ]
]

keep-Listed :
    (id : ℕ) (vs : List Version)
    → All (Promoted id) vs
    → Listed id vs
    → (v : Version) × (newest (with_status production vs) ≡ some v)
unfolding with_status
keep-Listed id [] h l = absurd l
keep-Listed id (v ∷ vs) h l = elim (Bool-cases (same v.status production)) [
  | inl e ↦ rw e (newest-some v (keep (λ w. same w.status production) vs))
  | inr e ↦ rw e (
      keep-Listed id vs h.1 (elim l [
        | inl q ↦ absurd (ground (arith, same_iff v.status production, e, h.0 q))
        | inr k ↦ k
      ]))
]

-- After a version is moved to PRODUCTION, `getProductionVersion` answers with that version.
pub get_production_version-set_status :
    (now : ℕ) (vs : List Version) (n : ℕ) (c : Changed)
    → set_status now (some vs) n production ≡ ok c
    → (t : Version) × (get_version n vs ≡ some t)
      × (v : Version) × (get_production_version (some c.versions) ≡ ok (some v))
      × (v.id ≡ t.id)
unfolding get_production_version get_version
get_production_version-set_status now vs n c h =
    let (t, found, rest) = set_status-promotes now vs n c h in
    let (u, again, legal, e) = set_status-ok now vs n production c h in
    let one : u ≡ t = some-eq (sym again ∙ found) in
    let ids : Listed t.id c.versions =
      subst (λ d. Listed t.id d.versions) (sym e)
        (subst (λ x. Listed t.id (apply_status now vs x production).versions) (sym one)
          (apply_status-Listed t.id now vs t production (In-Listed (find-some _ vs found).1))) in
    let (v, chosen) =
      keep-Listed t.id c.versions
        (All-weaken (λ v. Alone t.id v × Promoted t.id v) (Promoted t.id) c.versions (λ v p. p.1)
          rest)
        ids in
    let (inside, at_production) =
      keep-In (λ w. same w.status production) c.versions
        (newest-In (with_status production c.versions) chosen) in
    (
      t,
      found,
      v,
      ap (λ o. ok o) chosen,
      (All-In (λ v. Alone t.id v × Promoted t.id v) c.versions rest inside).0
          ((same_iff v.status production).0 at_production),
    )
