-- ===== src/Domain/Routing/Weights.antt =====
-- `validateWeights` of packages/server/src/domain/routing.js.
use ash_ml.Base.{
  ℕ, Bool, true, not, List, [], ◌∷◌, Option, none, some, any, find, sum_by, ltb, ◌==◌,
  if◌then◌else◌,
}

abbrev pub total_weight : ℕ
total_weight = 100

-- One version of a deployment and its share.
pub record Target : Type 0 where
  pub version : ℕ
  pub weight : ℕ

-- The weight that a caller sends: a number that `Number.isInteger` accepts, or one it does not.
pub data Weight : Type 0 where
  whole : ℕ → Weight
  negative : Weight
  fractional : Weight

pub record Proposal : Type 0 where
  pub version : ℕ
  pub weight : Weight

abbrev pub proposed : Target → Proposal
proposed t = record { version = t.version; weight = whole t.weight }

pub data WeightError : Type 0 where
  no_targets : WeightError
  invalid_weight : Proposal → WeightError
  duplicate_version : ℕ → WeightError
  weights_must_sum_to_100 : ℕ → WeightError
  no_target_takes_traffic : WeightError

-- The first loop's test.
unfoldable pub bad_weight : Weight → Bool
bad_weight (whole n) = ltb total_weight n
bad_weight negative = true
bad_weight fractional = true

-- The number behind a weight that the first loop let through.
unfoldable pub weight_value : Weight → ℕ
weight_value (whole n) = n
weight_value negative = 0
weight_value fractional = 0

-- The second loop, over the versions already seen.
unfoldable pub first_duplicate : List ℕ → List Proposal → Option ℕ
first_duplicate seen [] = none
first_duplicate seen (t ∷ ts) =
    let rest = first_duplicate (t.version ∷ seen) ts in
    if any (λ v. v == t.version) seen then some t.version else rest

unfoldable pub check_total : List Proposal → Option WeightError
unfolding weight_value
check_total targets =
    let total = sum_by (λ t. weight_value t.weight) targets in
    if not (total == total_weight)
    then some (weights_must_sum_to_100 total)
    else if not (any (λ t. ltb 0 (weight_value t.weight)) targets)
    then some no_target_takes_traffic
    else none

unfoldable pub check_versions : List Proposal → Option WeightError
unfolding first_duplicate check_total
check_versions targets = elim (first_duplicate [] targets) [
  | some v ↦ some (duplicate_version v)
  | none ↦ check_total targets
]

unfoldable pub check_weights : List Proposal → Option WeightError
unfolding bad_weight check_versions
check_weights targets = elim (find (λ t. bad_weight t.weight) targets) [
  | some t ↦ some (invalid_weight t)
  | none ↦ check_versions targets
]

-- `none` is `{ ok: true }`; the argument is `none` where what was sent is no array.
unfoldable pub validate_weights : Option (List Proposal) → Option WeightError
unfolding check_weights
validate_weights none = some no_targets
validate_weights (some []) = some no_targets
validate_weights (some (t ∷ ts)) = check_weights (t ∷ ts)
