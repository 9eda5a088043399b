-- ===== src/Domain/Routing/Rollout.antt =====
-- `applyRollout` of packages/server/src/domain/routing.js. The shares are doubles, rounded as the
-- source rounds them. A share on offer is at most 100: `rolloutDeployment` in services/deployments.js
-- refuses any other.
pub mod Sums
pub mod Valid
use ash_ml.Base.{
  ℕ, zero, suc, ◌+◌, ◌-◌, ◌*◌, ◌/◌, ◌%◌, ◌≡◌, refl, Bool, true, false, not, List, [], ◌∷◌, ◌++◌,
  length, keep, sum_by, ltb, ◌==◌, if◌then◌else◌, ℤ, sub_ℕ, or_next, sort_by,
}
use ash_ml.Base.Double.{Double, one, quotient, times}
use ash_ml.Domain.Routing.Weights.{Target, total_weight}

-- Where each of the others stands: its index and the fraction that flooring cut off.
pub record Rest : Type 0 where
  pub index : ℕ
  pub fraction : Double

unfoldable pub others : ℕ → List Target → List Target
others version = keep (λ t. not (t.version == version))

-- `(t.weight / othersTotal) * remaining` for each of the others.
unfoldable pub shares : ℕ → ℕ → List Target → List Double
shares total remaining [] = []
shares total remaining (t ∷ ts) =
    times (quotient t.weight total) remaining ∷ shares total remaining ts

-- `remaining / others.length` for each of them.
unfoldable pub even_shares : ℕ → ℕ → List Target → List Double
even_shares count remaining [] = []
even_shares count remaining (t ∷ ts) = quotient remaining count ∷ even_shares count remaining ts

-- `Math.floor`.
unfoldable pub floors : List Double → List ℕ
floors [] = []
floors (x ∷ xs) = (x / one) ∷ floors xs

-- What flooring cut off is a double itself.
unfoldable pub rests : ℕ → List Double → List Rest
rests i [] = []
rests i (x ∷ xs) = record { index = i; fraction = x % one } ∷ rests (suc i) xs

-- `b.fraction - a.fraction || a.index - b.index`.
unfoldable pub by_fraction : Rest → Rest → ℤ
by_fraction a b = or_next (sub_ℕ b.fraction a.fraction) (sub_ℕ a.index b.index)

-- `rounded[index] += 1`.
unfoldable pub bump : ℕ → List ℕ → List ℕ
bump i [] = []
bump zero (n ∷ ns) = suc n ∷ ns
bump (suc i) (n ∷ ns) = n ∷ bump i ns

-- The loop over `order`: it stops when nothing is left over.
unfoldable pub hand_out : ℕ → List Rest → List ℕ → List ℕ
unfolding bump
hand_out leftover [] rounded = rounded
hand_out zero (r ∷ order) rounded = rounded
hand_out (suc leftover) (r ∷ order) rounded = hand_out leftover order (bump r.index rounded)

-- `rounded` after the loop, from the shares.
unfoldable pub round_shares : ℕ → List Double → List ℕ
unfolding floors rests by_fraction hand_out
round_shares remaining xs =
    let rounded = floors xs in
    let leftover = remaining - sum_by (λ n. n) rounded in
    hand_out leftover (sort_by by_fraction (rests 0 xs)) rounded

unfoldable pub reweigh : List Target → List ℕ → List Target
reweigh (t ∷ ts) (n ∷ ns) = record { version = t.version; weight = n } ∷ reweigh ts ns
reweigh [] ns = []
reweigh (t ∷ ts) [] = []

unfoldable pub other_weights : ℕ → List Target → List ℕ
unfolding shares even_shares round_shares
other_weights remaining os =
    let total = sum_by (λ t. t.weight) os in
    if ltb 0 total
    then round_shares remaining (shares total remaining os)
    else round_shares remaining (even_shares (length os) remaining os)

unfoldable pub by_version : Target → Target → ℤ
by_version a b = sub_ℕ a.version b.version

unfoldable pub split_with : ℕ → ℕ → List Target → List Target
unfolding other_weights reweigh by_version
split_with version weight [] = record { version = version; weight = total_weight } ∷ []
split_with version weight (o ∷ os) = sort_by by_version (
    reweigh (o ∷ os) (other_weights (total_weight - weight) (o ∷ os))
    ++ record { version = version; weight = weight } ∷ [])

unfoldable pub apply_rollout : List Target → ℕ → ℕ → List Target
unfolding others split_with
apply_rollout current version weight = split_with version weight (others version current)
