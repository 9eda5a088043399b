-- ===== src/Services/Deployments/Traffic/Shares.antt =====
-- The shares that `rollout` of packages/server/src/services/deployments.js starts from, and the split
-- that it writes.
use ash_ml.Base.{
  ℕ, ◌-◌, ◌≡◌, ◌≢◌, inl, inr, false, List, [], ◌∷◌, ◌++◌, map, All, Bool-cases, ◌==◌, arith,
  sort_by-All,
}
use ash_ml.Domain.Routing.Weights
use ash_ml.Domain.Routing.Weights.{
  Weight, whole, negative, fractional, total_weight, proposed, validate_weights,
}
use ash_ml.Domain.Routing.Rollout.{
  others, reweigh, other_weights, by_version, split_with, apply_rollout,
}
use ash_ml.Domain.Routing.Rollout.Valid
use ash_ml.Domain.Routing.Rollout.Valid.{
  others-Fresh, others-Distinct, split_with-Distinct, weights-split_with,
}
use ash_ml.Services.Deployments.Rows.{ServedVersion}
use ash_ml.Services.Deployments.Held.{Fresh, Distinct}
use ash_ml.Services.Deployments.Traffic.{share_of, shares_with}
use ash_ml.Services.Deployments.Traffic.Split.{served}

-- What a rollout splits over are versions that were there, and the one that it names.
reweigh-All :
    (P : ℕ → Type 0) (ts : List Weights.Target) (ns : List ℕ)
    → All (λ t. P t.version) ts
    → All (λ t. P t.version) (reweigh ts ns)
unfolding reweigh
reweigh-All P [] ns h = tt
reweigh-All P (t ∷ ts) [] h = tt
reweigh-All P (t ∷ ts) (n ∷ ns) h = (h.0, reweigh-All P ts ns h.1)

others-All :
    (P : ℕ → Type 0) (v : ℕ) (ts : List Weights.Target)
    → All (λ t. P t.version) ts
    → All (λ t. P t.version) (others v ts)
unfolding others
others-All P v [] h = tt
others-All P v (t ∷ ts) h = elim (Bool-cases (t.version == v)) [
  | inl e ↦ rw e (others-All P v ts h.1)
  | inr e ↦ rw e (h.0, others-All P v ts h.1)
]

append-All :
    (P : ℕ → Type 0) (ts : List Weights.Target) (t : Weights.Target)
    → All (λ u. P u.version) ts
    → P t.version
    → All (λ u. P u.version) (ts ++ t ∷ [])
append-All P [] t h p = (p, tt)
append-All P (u ∷ ts) t h p = (h.0, append-All P ts t h.1 p)

split_with-All :
    (P : ℕ → Type 0) (v n : ℕ) (os : List Weights.Target)
    → All (λ t. P t.version) os
    → P v
    → All (λ t. P t.version) (split_with v n os)
unfolding split_with
split_with-All P v n [] h p = (p, tt)
split_with-All P v n (o ∷ os) h p =
    sort_by-All by_version (λ t. P t.version) _
      (append-All P _ _ (reweigh-All P (o ∷ os) (other_weights (total_weight - n) (o ∷ os)) h) p)

pub apply_rollout-All :
    (P : ℕ → Type 0) (current : List Weights.Target) (v n : ℕ)
    → All (λ t. P t.version) current
    → P v
    → All (λ t. P t.version) (apply_rollout current v n)
unfolding apply_rollout
apply_rollout-All P current v n h p =
    split_with-All P v n (others v current) (others-All P v current h) p

pub apply_rollout-Distinct :
    (current : List Weights.Target) (v n : ℕ)
    → Valid.Distinct current
    → Valid.Distinct (apply_rollout current v n)
unfolding apply_rollout
apply_rollout-Distinct current v n d =
    split_with-Distinct v n (others v current) (others-Distinct v current d)
      (others-Fresh v current)

-- The shares that a rollout starts from.
shares-Fresh :
    (v : ℕ) (ts : List ServedVersion) → Fresh v ts → All (λ w. w.version ≢ v) (map share_of ts)
shares-Fresh v [] h = tt
shares-Fresh v (t ∷ ts) h = (h.0, shares-Fresh v ts h.1)

shares-Distinct : (ts : List ServedVersion) → Distinct ts → Valid.Distinct (map share_of ts)
shares-Distinct [] d = tt
shares-Distinct (t ∷ ts) d = (shares-Fresh t.version ts d.0, shares-Distinct ts d.1)

newcomer-Distinct :
    (v : ℕ) (ts : List ServedVersion)
    → served v ts ≡ false
    → Distinct ts
    → Valid.Distinct (map share_of ts ++ (record { version = v; weight = 0 } ∷ []))
newcomer-Distinct v [] h d = (tt, tt)
newcomer-Distinct v (t ∷ ts) h d = (
  append-All (λ u. u ≢ t.version) (map share_of ts) _ (shares-Fresh t.version ts d.0)
      (λ e. ground (arith, h, e)),
  newcomer-Distinct v ts (ground (arith, h)) d.1,
)

pub shares_with-Distinct :
    (v : ℕ) (ts : List ServedVersion) → Distinct ts → Valid.Distinct (shares_with v ts)
unfolding shares_with
shares_with-Distinct v ts d = elim (Bool-cases (served v ts)) [
  | inl e ↦ rw e (shares-Distinct ts d)
  | inr e ↦ rw e (newcomer-Distinct v ts e d)
]

shares-served :
    (P : ℕ → Type 0) (ts : List ServedVersion)
    → All (λ t. P t.version) ts
    → All (λ w. P w.version) (map share_of ts)
shares-served P [] h = tt
shares-served P (t ∷ ts) h = (h.0, shares-served P ts h.1)

pub shares_with-All :
    (P : ℕ → Type 0) (v : ℕ) (ts : List ServedVersion)
    → All (λ t. P t.version) ts
    → P v
    → All (λ w. P w.version) (shares_with v ts)
unfolding shares_with
shares_with-All P v ts h p = elim (Bool-cases (served v ts)) [
  | inl e ↦ rw e (shares-served P ts h)
  | inr e ↦ rw e (append-All P (map share_of ts) _ (shares-served P ts h) p)
]
