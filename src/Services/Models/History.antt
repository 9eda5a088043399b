-- ===== src/Services/Models/History.antt =====
-- What holds of a model's versions after any calls of services/models.js.
use Prim.Native.String.{String}
use ash_ml.Base.{
  ℕ, suc, ◌≡◌, ◌≢◌, ◌⊎◌, refl, sym, inl, inr, Bool, true, false, Option, none, some, List, [], ◌∷◌,
  ◌++◌, map, All, arith, ◌==◌, Bool-cases, if◌then◌else◌, subst,
}
use ash_ml.Domain.ModelStatus.{ModelStatus, production, staging, same, is_exclusive}
use ash_ml.Services.Models.{
  Version, Artifact, Result, Error, ok, err, Changed, change, set_version_status, displace_one,
  displace, displace_incumbents, with_status, apply_status, set_status, register_version,
}
use ash_ml.Services.Models.Promotion.{
  same_iff, set_status-ok, promoted, Alone, Promoted, All-map, All-weaken,
}
use ash_ml.Services.Models.Registration.{
  Numbered, Registered-Numbered, register_version-Registered, Registered,
}

-- A call, with what it draws from outside: the new id and the artifact found, or the time.
pub data Call : Type 0 where
  registers : ℕ → String → Option Artifact → Call
  sets_status : ℕ → ℕ → ModelStatus → Call

-- A call that fails leaves the versions as they were.
abbrev registered_or : List Version → Result (List Version × Version) → List Version
registered_or vs (ok (ws, v)) = ws
registered_or vs (err e) = vs

abbrev changed_or : List Version → Result Changed → List Version
changed_or vs (ok c) = c.versions
changed_or vs (err e) = vs

pub step : List Version → Call → List Version
step vs (registers id project found) =
    registered_or vs (register_version id (some vs) project found)
step vs (sets_status now n s) = changed_or vs (set_status now (some vs) n s)

pub run : List Version → List Call → List Version
run vs [] = vs
run vs (c ∷ cs) = run (step vs c) cs

-- At most one id is in PRODUCTION.
abbrev pub OneServed : List Version → Type 0
OneServed vs = (id : ℕ) × All (Alone id) vs

pub record IsSound (vs : List Version) : Type 0 where
  pub one : OneServed vs
  pub numbers : Numbered 1 vs

change-Numbered :
    (n id : ℕ) (s : ModelStatus) (stamp : Option ℕ) (vs : List Version)
    → Numbered n vs
    → Numbered n (map (change id s stamp) vs)
unfolding change
change-Numbered n id s none [] h = tt
change-Numbered n id s none (v ∷ vs) h =
    (ground (arith, h.0), change-Numbered (suc n) id s none vs h.1)
change-Numbered n id s (some now) [] h = tt
change-Numbered n id s (some now) (v ∷ vs) h =
    (ground (arith, h.0), change-Numbered (suc n) id s (some now) vs h.1)

displace-Numbered :
    (target : ℕ) (is : List Version) (st : List Version × Option Version)
    → Numbered 1 st.0
    → Numbered 1 (displace target is st).0
unfolding displace displace_one set_version_status
displace-Numbered target [] st h = h
displace-Numbered target (i ∷ is) (vs, d) h =
    displace-Numbered target is (displace_one target i (vs, d))
      (elim (Bool-cases (i.id == target)) [
        | inl e ↦ rw (e, displace_one, if◌then◌else◌) h
        | inr e ↦ rw (e, displace_one, if◌then◌else◌) (change-Numbered 1 i.id staging none vs h)
      ])

cleared-Numbered :
    (target : ℕ) (s : ModelStatus) (vs : List Version)
    → Numbered 1 vs
    → Numbered 1 (displace_incumbents target s vs).0
unfolding displace_incumbents
cleared-Numbered target s vs h = by_case (is_exclusive s)
  where
    by_case :
        (b : Bool)
        → Numbered 1 (if b then displace target (with_status s vs) (vs, none) else (vs, none)).0
    by_case true = displace-Numbered target (with_status s vs) (vs, none) h
    by_case false = h

apply_status-Numbered :
    (now : ℕ) (vs : List Version) (t : Version) (s : ModelStatus)
    → Numbered 1 vs
    → Numbered 1 (apply_status now vs t s).versions
unfolding apply_status set_version_status
apply_status-Numbered now vs t s h =
    change-Numbered 1 t.id s _ (displace_incumbents t.id s vs).0 (cleared-Numbered t.id s vs h)

-- A version that is moved elsewhere adds none to PRODUCTION.
demote-Alone :
    (id target : ℕ) (s : ModelStatus) (v : Version)
    → s ≢ production
    → Alone id v
    → Alone id (change target s none v)
unfolding change
demote-Alone id target s v other h = elim (Bool-cases (v.id == target)) [
  | inl e ↦ rw e (λ p. absurd (other p))
  | inr e ↦ rw e h
]

demoted :
    (id now : ℕ) (vs : List Version) (t : Version) (s : ModelStatus)
    → same s production ≡ false
    → All (Alone id) vs
    → All (Alone id) (apply_status now vs t s).versions
unfolding apply_status displace_incumbents is_exclusive set_version_status
demoted id now vs t s e h = rw e (
    All-map (Alone id) (Alone id) (change t.id s none) vs
      (λ v. demote-Alone id t.id s v (λ p. absurd (cc (e, (same_iff s production).1 p)))) h)

apply_status-OneServed :
    (now : ℕ) (vs : List Version) (t : Version) (s : ModelStatus)
    → OneServed vs
    → OneServed (apply_status now vs t s).versions
apply_status-OneServed now vs t s (id, h) = elim (Bool-cases (same s production)) [
  | inl e ↦ (
    t.id,
    subst (λ x. All (Alone t.id) (apply_status now vs t x).versions)
        (sym ((same_iff s production).0 e))
        (All-weaken (λ v. Alone t.id v × Promoted t.id v) (Alone t.id) _ (λ v p. p.0)
          (promoted now vs t)),
  )
  | inr e ↦ (id, demoted id now vs t s e h)
]

All-append {ℓ κ} :
    {A : Type ℓ} (P : A → Type κ) (xs : List A) (x : A) → All P xs → P x → All P (xs ++ x ∷ [])
All-append P [] x h p = (p, tt)
All-append P (y ∷ xs) x h p = (h.0, All-append P xs x h.1 p)

Registered-IsSound :
    (vs ws : List Version) (project : String) (found : Option Artifact) (v : Version)
    → Registered vs project found ws v
    → IsSound vs
    → IsSound ws
Registered-IsSound vs ws project found v r sound =
    let (id, one) = sound.one in
    record {
      one = (
        id,
        subst (All (Alone id)) (sym r.added)
            (All-append (Alone id) vs v one (λ p. absurd (cc (p, r.starts)))),
      );
      numbers = Registered-Numbered vs ws project found v r sound.numbers;
    }

Result-cases {κ} :
    {B : Type κ} (r : Result B) → ((x : Error) × (r ≡ err x)) ⊎ ((b : B) × (r ≡ ok b))
Result-cases (err x) = inl (x, refl)
Result-cases (ok b) = inr (b, refl)

step-IsSound : (vs : List Version) (c : Call) → IsSound vs → IsSound (step vs c)
unfolding step
step-IsSound vs (registers id project found) sound =
    elim (Result-cases (register_version id (some vs) project found)) [
      | inr ((ws, v), e) ↦ rw e (
          Registered-IsSound vs ws project found v
            (register_version-Registered id vs project found ws v e) sound)
      | inl (x, e) ↦ rw e sound
    ]
step-IsSound vs (sets_status now n s) sound = elim (Result-cases (set_status now (some vs) n s)) [
  | inr (c, e) ↦
      let (t, found, legal, same_result) = set_status-ok now vs n s c e in
      rw e (
        subst (λ d. IsSound d.versions) (sym same_result)
          (record {
            one = apply_status-OneServed now vs t s sound.one;
            numbers = apply_status-Numbered now vs t s sound.numbers;
          }))
  | inl (x, e) ↦ rw e sound
]

run-IsSound : (vs : List Version) (cs : List Call) → IsSound vs → IsSound (run vs cs)
unfolding run
run-IsSound vs [] sound = sound
run-IsSound vs (c ∷ cs) sound = run-IsSound (step vs c) cs (step-IsSound vs c sound)

-- After any registrations and status changes of a new model, refused ones among them, its versions
-- are numbered 1, 2, 3 and so on, and all those in PRODUCTION have one id.
pub run-new_model :
    (cs : List Call)
    → Numbered 1 (run [] cs) × ((id : ℕ) × All (λ v. v.status ≡ production → v.id ≡ id) (run [] cs))
run-new_model cs =
    let sound = run-IsSound [] cs (record { one = (0, tt); numbers = tt }) in
    (sound.numbers, sound.one)
