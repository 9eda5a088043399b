-- ===== src/Tests/Traffic.antt =====
-- Weights, rollouts and choices at concrete inputs.
use ash_ml.Base.{
  ◌*◌, inl, ◌-ℤ◌, ◌+ℤ◌, sub_ℕ, sort_by, insert, ◌^◌, ◌%◌, ◌<◌, ◌≡◌, ◌≢◌, ◌↔◌, refl, true, false,
  none, some, List, [], ◌∷◌, map, In, arith,
}
use ash_ml.Domain.Retry.{codes}
use ash_ml.Domain.Routing.Hash.{word, offset_basis, hash_key, fnv1a, hash_key-fnv1a}
use ash_ml.Domain.Routing.Weights
use ash_ml.Domain.Routing.Weights.{proposed, validate_weights}
use ash_ml.Domain.Routing.Rollout.{apply_rollout}
use ash_ml.Domain.Routing.Rollout.Valid.{apply_rollout-valid}
use ash_ml.Base.Double.{Double, one, quotient, times}
use ash_ml.Domain.Routing.Choice.{Target, Choice, sticky, is_eligible, choose_target}
use ash_ml.Domain.Routing.Choice.Shares.{
  choose_target-IsEligible, choose_target-none_iff, choose_target-sticky_share,
}

hash_key-fnv1a_example : hash_key (codes "user-1") ≡ fnv1a offset_basis (codes "user-1") % word
hash_key-fnv1a_example = hash_key-fnv1a (codes "user-1")

-- The published FNV-1a value of "a".
hash_a : hash_key (codes "a") ≡ 0xe40c292c
unfolding hash_key
hash_a = refl

abbrev three_ways : List Weights.Target
three_ways =
    record { version = 5; weight = 33 }
    ∷ record { version = 6; weight = 33 }
    ∷ record { version = 7; weight = 34 }
    ∷ []

apply_rollout-valid_example :
    validate_weights (some (map proposed (apply_rollout three_ways 8 10))) ≡ none
apply_rollout-valid_example =
    apply_rollout-valid three_ways 8 10 (omega arith) (omega arith) (omega arith) (omega arith)

-- The rounding of doubles shows: 29 * 50 / 100 is 14.5, and so is 71 * 50 / 100 = 35.5, but the share
-- of 29 is the smaller of the two fractions.
two_ways :
    apply_rollout
      (record { version = 1; weight = 29 } ∷ record { version = 2; weight = 71 } ∷ [])
      3
      50
    ≡ record { version = 1; weight = 14 }
      ∷ record { version = 2; weight = 36 }
      ∷ record { version = 3; weight = 50 }
      ∷ []
unfolding apply_rollout ◌-ℤ◌ ◌+ℤ◌ quotient times sub_ℕ sort_by insert
two_ways = refl

-- The point of bucket 2900 lies below 29.
bucket_2900 : (times (quotient 2900 10_000) 100 < 29 * one)
unfolding quotient times
bucket_2900 = omega arith

abbrev old : Target
old = record { version = 6; weight = 90; ready = some true }

abbrev canary : Target
canary = record { version = 7; weight = 10; ready = none }

abbrev idle : Target
idle = record { version = 5; weight = 0; ready = some true }

abbrev split : List Target
split = old ∷ canary ∷ idle ∷ []

abbrev middle : Double
middle = 2 ^ 1073

choose_target-IsEligible_example : In old split × (0 < old.weight) × (old.ready ≢ some false)
unfolding choose_target times one
choose_target-IsEligible_example =
    choose_target-IsEligible split none middle
      {c = record { target = old; reason = ash_ml.Domain.Routing.Choice.weighted }} refl

choose_target-none_iff_example :
    (choose_target split none middle ≡ none) ↔ ((t : Target) → In t split → is_eligible t ≡ false)
choose_target-none_iff_example = choose_target-none_iff split none middle

choose_target-sticky_share_example :
    choose_target split (some (codes "user-1")) middle
    ≡ some (record { target = old; reason = sticky })
unfolding hash_key
choose_target-sticky_share_example =
    choose_target-sticky_share split [] (canary ∷ []) old b'u' (codes "ser-1") middle refl
      (omega arith) (omega arith) (inl refl, omega arith)
