-- ===== src/Services/Models/Registration.antt =====
-- The versions that `registerVersion` of services/models.js adds.
use Prim.Native.Nat.{max}
use Prim.Native.String.{String}
use text.Mathlib.TextEquality.{eq_iff}
use ash_ml.Base.{
  ℕ, suc, ◌+◌, ◌≤◌, ◌<◌, ◌≡◌, ◌↔◌, refl, true, Option, none, some, List, [], ◌∷◌, ◌++◌, All, arith,
  Bool-cases, length, ap, sym, subst, inl, inr, ◌∙◌,
}
use ash_ml.Domain.ModelStatus.{created}
use ash_ml.Domain.ArtifactStatus
use ash_ml.Domain.ArtifactStatus.{ArtifactStatus, ready, pending, failed}
use ash_ml.Services.Models.{
  Version, Artifact, ok, is_text, max_version, new_version, register_version,
}

le-max_version : (vs : List Version) → All (λ v. v.version ≤ max_version vs) vs
unfolding max_version
le-max_version [] = tt
le-max_version (v ∷ vs) = (omega arith, raise vs (max_version vs) (omega arith) (le-max_version vs))
  where
    raise :
        (ws : List Version) (k : ℕ)
        → k ≤ max v.version (max_version vs)
        → All (λ w. w.version ≤ k) ws
        → All (λ w. w.version ≤ max v.version (max_version vs)) ws
    raise [] k h a = tt
    raise (w ∷ ws) k h a = (omega (arith, a.0), raise ws k h a.1)

below_next :
    (vs ws : List Version) (k : ℕ) → All (λ v. v.version ≤ k) ws → All (λ v. v.version < k + 1) ws
below_next vs [] k h = tt
below_next vs (w ∷ ws) k h = (omega (arith, h.0), below_next vs ws k h.1)

-- What a registration that succeeds found and left: a confirmed artifact of the project itself, and
-- behind the versions that were there one more, of that artifact, in CREATED, with a number above all others.
pub record Registered (vs : List Version) (project : String) (found : Option Artifact)
    (ws : List Version) (v : Version) : Type 0 where
  pub artifact : Artifact
  pub at_hand : found ≡ some artifact
  pub confirmed : artifact.status ≡ ready
  pub own : artifact.project ≡ some project
  pub added : ws ≡ vs ++ v ∷ []
  pub of_artifact : v.artifact_id ≡ artifact.id
  pub starts : v.status ≡ created
  pub number : v.version ≡ max_version vs + 1
  pub newest : All (λ w. w.version < v.version) vs

is_text_iff : (o : Option String) (s : String) → (is_text o s ≡ true) ↔ (o ≡ some s)
is_text_iff none s = ((λ h. cc), λ h. cc)
is_text_iff (some t) s = ((λ h. ap some ((eq_iff t s).0 h)), λ h. (eq_iff t s).1 (cc h))

same_ready : (s : ArtifactStatus) → (ArtifactStatus.same s ready ≡ true) ↔ (s ≡ ready)
unfolding ArtifactStatus.same
same_ready s = ((λ h. ground (arith, h)), λ h. ground (arith, h))

registered :
    (id : ℕ) (vs : List Version) (project : String) (a : Artifact) (ws : List Version) (v : Version)
    → a.status ≡ ready
    → a.project ≡ some project
    → vs ++ new_version id vs a ∷ [] ≡ ws
    → new_version id vs a ≡ v
    → Registered vs project (some a) ws v
unfolding new_version
registered id vs project a ws v confirmed own added same = record {
  artifact = a;
  at_hand = refl;
  confirmed = confirmed;
  own = own;
  added = sym added ∙ ap (λ x. vs ++ x ∷ []) same;
  of_artifact = ap (λ (x : Version). x.artifact_id) (sym same);
  starts = ap (λ (x : Version). x.status) (sym same);
  number = ap (λ (x : Version). x.version) (sym same);
  newest =
      subst (λ k. All (λ w. w.version < k) vs) (ap (λ (x : Version). x.version) same)
        (below_next vs vs (max_version vs) (le-max_version vs));
}

-- `registerVersion` succeeds only on a READY artifact of the project itself, and adds one version of
-- that artifact, in CREATED, whose number is above those of all the others.
pub register_version-Registered :
    (id : ℕ) (vs : List Version) (project : String) (found : Option Artifact) (ws : List Version)
    (v : Version)
    → register_version id (some vs) project found ≡ ok (ws, v)
    → Registered vs project found ws v
unfolding register_version
register_version-Registered id vs project none ws v h = absurd (cc h)
register_version-Registered id vs project (some a) ws v h =
    elim (Bool-cases (ArtifactStatus.same a.status ready)) [
      | inr e ↦ absurd (cc (rw e at h))
      | inl e ↦ elim (Bool-cases (is_text a.project project)) [
        | inr f ↦ absurd (cc (rw (e, f) at h))
        | inl f ↦
            let both : (vs ++ new_version id vs a ∷ [] ≡ ws) × (new_version id vs a ≡ v) =
              ground (arith, h, e, f) in
            registered id vs project a ws v ((same_ready a.status).0 e)
              ((is_text_iff a.project project).0 f) both.0 both.1
      ]
    ]

-- The numbers count up from `n`.
abbrev pub Numbered : ℕ → List Version → Type 0
Numbered n [] = Unit
Numbered n (v ∷ vs) = (v.version ≡ n) × Numbered (suc n) vs

max_version-Numbered :
    (n : ℕ) (v : Version) (vs : List Version)
    → Numbered n (v ∷ vs)
    → max_version (v ∷ vs) ≡ n + length vs
unfolding max_version
max_version-Numbered n v [] h = omega (arith, h.0)
max_version-Numbered n v (w ∷ ws) h = omega (arith, h.0, max_version-Numbered (suc n) w ws h.1)

Numbered-append :
    (n : ℕ) (vs : List Version) (v : Version)
    → Numbered n vs
    → v.version ≡ n + length vs
    → Numbered n (vs ++ v ∷ [])
Numbered-append n [] v h e = (omega (arith, e), tt)
Numbered-append n (w ∷ ws) v h e = (h.0, Numbered-append (suc n) ws v h.1 (omega (arith, e)))

next-number : (vs : List Version) → Numbered 1 vs → max_version vs + 1 ≡ 1 + length vs
unfolding max_version
next-number [] h = omega arith
next-number (v ∷ vs) h = omega (arith, max_version-Numbered 1 v vs h)

pub Registered-Numbered :
    (vs ws : List Version) (project : String) (found : Option Artifact) (v : Version)
    → Registered vs project found ws v
    → Numbered 1 vs
    → Numbered 1 ws
Registered-Numbered vs ws project found v r h =
    subst (Numbered 1) (sym r.added) (Numbered-append 1 vs v h (r.number ∙ next-number vs h))
