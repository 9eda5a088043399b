-- ===== src/Domain/Routing/Choice.antt =====
-- `chooseTarget`, `pick` and `needsRouter` of packages/server/src/domain/routing.js. A point of the
-- range is a double, rounded as the source rounds it, and so is what `random()` gives.
pub mod Shares
use ash_ml.Base.{
  ℕ, ◌+◌, ◌*◌, ◌%◌, Bool, true, false, ◌&&◌, Option, none, some, List, [], ◌∷◌, length, keep,
  sum_by, ltb, if◌then◌else◌,
}
use ash_ml.Base.Double.{Double, one, quotient, times}
use ash_ml.Domain.Routing.Hash.{hash_key}

abbrev pub sticky_buckets : ℕ
sticky_buckets = 10_000

-- A target as the router sees it. `ready` is `none` where the field is missing.
pub record Target : Type 0 where
  pub version : ℕ
  pub weight : ℕ
  pub ready : Option Bool

pub data Reason : Type 0 where
  only_ready sole_target sticky weighted : Reason

pub record Choice : Type 0 where
  pub target : Target
  pub reason : Reason

abbrev pub takes_traffic : Target → Bool
takes_traffic t = ltb 0 t.weight

-- `ready !== false`.
abbrev pub not_unready : Option Bool → Bool
not_unready (some false) = false
not_unready (some true) = true
not_unready none = true

abbrev pub is_eligible : Target → Bool
is_eligible t = takes_traffic t && not_unready t.ready

-- The loop of `pick`, with `cumulative`; `current` is the last element of the list, which is what
-- is returned when the loop ends.
unfoldable pub pick_from : Double → ℕ → Target → List Target → Target
pick_from point cumulative current [] = current
pick_from point cumulative current (t ∷ ts) =
    let reached = cumulative + t.weight in
    let rest = pick_from point reached t ts in if ltb point (reached * one) then t else rest

-- `pick(eligible, fraction * total)`.
unfoldable pub pick : Target → List Target → Double → Target
unfolding pick_from
pick t ts fraction = pick_from (times fraction (sum_by (λ u. u.weight) (t ∷ ts))) 0 t (t ∷ ts)

-- A key is used unless it is null or empty.
unfoldable pub choose_by : Option (List ℕ) → Target → List Target → Double → Choice
unfolding pick hash_key
choose_by none t ts random = record { target = pick t ts random; reason = weighted }
choose_by (some []) t ts random = record { target = pick t ts random; reason = weighted }
choose_by (some (c ∷ key)) t ts random = record {
  target = pick t ts (quotient (hash_key (c ∷ key) % sticky_buckets) sticky_buckets);
  reason = sticky;
}

unfoldable pub choose_among : ℕ → Option (List ℕ) → List Target → Double → Option Choice
unfolding choose_by
choose_among taking key [] random = none
choose_among taking key (t ∷ []) random =
    some (record { target = t; reason = if ltb 1 taking then only_ready else sole_target })
choose_among taking key (t ∷ u ∷ ts) random = some (choose_by key t (u ∷ ts) random)

unfoldable pub choose_target : List Target → Option (List ℕ) → Double → Option Choice
unfolding choose_among
choose_target targets key random =
    choose_among (length (keep takes_traffic targets)) key (keep is_eligible targets) random

unfoldable pub needs_router : List Target → Bool
needs_router targets = ltb 1 (length (keep takes_traffic targets))
