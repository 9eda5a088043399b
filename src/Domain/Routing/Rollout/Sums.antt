-- ===== src/Domain/Routing/Rollout/Sums.antt =====
-- What the shares of `applyRollout` add up to.
use native.Mathlib.Nat.{le_of_mul-le-mul_left, mul-sub}
use ash_ml.Base.{
  ℕ, zero, suc, ◌+◌, ◌-◌, ◌*◌, ◌/◌, ◌≤◌, ◌<◌, ◌≡◌, refl, inl, inr, List, [], ◌∷◌, length, sum_by,
  All, arith, sort_by, sort_by-All, length-sort_by, Bool-cases, ltb, ltb→lt,
}
use ash_ml.Base.Double.{Double, one}
use ash_ml.Base.Double.Bounds.{share-floor, quotient-floor}
use ash_ml.Domain.Routing.Weights.{Target}
use ash_ml.Domain.Routing.Rollout.{
  Rest, shares, even_shares, floors, rests, by_fraction, bump, hand_out, round_shares, reweigh,
  other_weights,
}

abbrev pub sum : List ℕ → ℕ
sum = sum_by (λ n. n)

-- What the targets of a split add up to.
abbrev pub weights : List Target → ℕ
weights = sum_by (λ t. t.weight)

length-bump : (i : ℕ) (ns : List ℕ) → length (bump i ns) ≡ length ns
unfolding bump
length-bump i [] = refl
length-bump zero (n ∷ ns) = refl
length-bump (suc i) (n ∷ ns) = omega (arith, length-bump i ns)

sum-bump : (i : ℕ) (ns : List ℕ) → i < length ns → sum (bump i ns) ≡ suc (sum ns)
unfolding bump
sum-bump i [] h = absurd (omega arith)
sum-bump zero (n ∷ ns) h = omega arith
sum-bump (suc i) (n ∷ ns) h = omega (arith, sum-bump i ns (omega arith))

length-hand_out :
    (leftover : ℕ) (order : List Rest) (ns : List ℕ)
    → length (hand_out leftover order ns) ≡ length ns
unfolding hand_out
length-hand_out zero [] ns = refl
length-hand_out (suc k) [] ns = refl
length-hand_out zero (r ∷ order) ns = refl
length-hand_out (suc k) (r ∷ order) ns =
    omega (arith, length-hand_out k order (bump r.index ns), length-bump r.index ns)

-- Each round of the loop adds one, so as many rounds as are left over settle the whole.
sum-hand_out :
    (leftover : ℕ) (order : List Rest) (ns : List ℕ)
    → All (λ r. r.index < length ns) order
    → leftover ≤ length order
    → sum (hand_out leftover order ns) ≡ sum ns + leftover
unfolding hand_out
sum-hand_out zero [] ns h k = omega arith
sum-hand_out (suc l) [] ns h k = absurd (omega arith)
sum-hand_out zero (r ∷ order) ns h k = omega arith
sum-hand_out (suc l) (r ∷ order) ns h k = omega (
  arith,
  sum-hand_out l order (bump r.index ns) (still order h.1) (omega arith),
  sum-bump r.index ns h.0,
)
  where
    still :
        (rs : List Rest)
        → All (λ q. q.index < length ns) rs
        → All (λ q. q.index < length (bump r.index ns)) rs
    still [] a = tt
    still (q ∷ rs) a = (omega (arith, length-bump r.index ns, a.0), still rs a.1)

length-floors : (xs : List Double) → length (floors xs) ≡ length xs
unfolding floors
length-floors [] = refl
length-floors (x ∷ xs) = omega (arith, length-floors xs)

length-rests : (i : ℕ) (xs : List Double) → length (rests i xs) ≡ length xs
unfolding rests
length-rests i [] = refl
length-rests i (x ∷ xs) = omega (arith, length-rests (suc i) xs)

rests_below :
    (i bound : ℕ) (xs : List Double)
    → i + length xs ≤ bound
    → All (λ r. r.index < bound) (rests i xs)
unfolding rests
rests_below i bound [] h = tt
rests_below i bound (x ∷ xs) h = (omega arith, rests_below (suc i) bound xs (omega arith))

-- Doubles whose floors are those of the fractions of `den`, or at worst one less where these are
-- whole.
abbrev Near : ℕ → List ℕ → List Double → Type 0
Near den [] [] = Unit
Near den [] (x ∷ xs) = ⊥
Near den (n ∷ ns) [] = ⊥
Near den (n ∷ ns) (x ∷ xs) = ((den * (x / one) ≤ n) × (n ≤ den * (x / one) + den)) × Near den ns xs

-- Flooring loses at most one for each share.
floors_bound :
    (den : ℕ) (ns : List ℕ) (xs : List Double)
    → Near den ns xs
    → (den * sum (floors xs) ≤ sum ns) × (sum ns ≤ den * sum (floors xs) + den * length xs)
unfolding floors
floors_bound den [] [] h = (omega arith, omega arith)
floors_bound den [] (x ∷ xs) h = absurd h
floors_bound den (n ∷ ns) [] h = absurd h
floors_bound den (n ∷ ns) (x ∷ xs) h =
    let (low, high) = floors_bound den ns xs h.1 in
    (omega (arith, low, h.0.0), omega (arith, high, h.0.1))

-- The exact shares, on the scale of the total of the others, or of their number.
abbrev parts : ℕ → List Target → List ℕ
parts remaining [] = []
parts remaining (t ∷ ts) = t.weight * remaining ∷ parts remaining ts

abbrev even_parts : ℕ → List Target → List ℕ
even_parts remaining [] = []
even_parts remaining (t ∷ ts) = remaining ∷ even_parts remaining ts

shares-Near :
    (total remaining : ℕ) (ts : List Target)
    → 0 < total
    → total ≤ 100
    → remaining ≤ 100
    → weights ts ≤ total
    → Near total (parts remaining ts) (shares total remaining ts)
unfolding shares
shares-Near total remaining [] h k r w = tt
shares-Near total remaining (t ∷ ts) h k r w = (
  share-floor t.weight total remaining h k r (omega (arith, w, k)),
  shares-Near total remaining ts h k r (omega (arith, w)),
)

even_shares-Near :
    (count remaining : ℕ) (ts : List Target)
    → 0 < count
    → count ≤ 10_000
    → remaining ≤ 100
    → Near count (even_parts remaining ts) (even_shares count remaining ts)
unfolding even_shares
even_shares-Near count remaining [] h k r = tt
even_shares-Near count remaining (t ∷ ts) h k r =
    (quotient-floor remaining count h k r, even_shares-Near count remaining ts h k r)

sum-parts : (remaining : ℕ) (ts : List Target) → sum (parts remaining ts) ≡ weights ts * remaining
sum-parts remaining [] = omega arith
sum-parts remaining (t ∷ ts) = omega (arith, sum-parts remaining ts)

sum-even_parts :
    (remaining : ℕ) (ts : List Target) → sum (even_parts remaining ts) ≡ length ts * remaining
sum-even_parts remaining [] = omega arith
sum-even_parts remaining (t ∷ ts) = omega (arith, sum-even_parts remaining ts)

length-shares :
    (total remaining : ℕ) (ts : List Target) → length (shares total remaining ts) ≡ length ts
unfolding shares
length-shares total remaining [] = refl
length-shares total remaining (t ∷ ts) = omega (arith, length-shares total remaining ts)

length-even_shares :
    (count remaining : ℕ) (ts : List Target) → length (even_shares count remaining ts) ≡ length ts
unfolding even_shares
length-even_shares count remaining [] = refl
length-even_shares count remaining (t ∷ ts) = omega (arith, length-even_shares count remaining ts)

length-round_shares :
    (remaining : ℕ) (xs : List Double) → length (round_shares remaining xs) ≡ length xs
unfolding round_shares
length-round_shares remaining xs = omega (
  arith,
  length-hand_out (remaining - sum (floors xs)) (sort_by by_fraction (rests 0 xs)) (floors xs),
  length-floors xs,
)

-- Shares whose exact fractions add up to `remaining` are rounded to numbers that add up to it.
sum-round_shares :
    (remaining den : ℕ) (ns : List ℕ) (xs : List Double)
    → 0 < den
    → Near den ns xs
    → sum ns ≡ den * remaining
    → sum (round_shares remaining xs) ≡ remaining
unfolding round_shares
sum-round_shares remaining den ns xs pos near total =
    let rounded = floors xs in
    let bound = floors_bound den ns xs near in
    let whole : sum rounded ≤ remaining =
      le_of_mul-le-mul_left {k = den} (omega (arith, bound.0)) pos in
    let few : remaining - sum rounded ≤ length xs =
      le_of_mul-le-mul_left {m = remaining - sum rounded} {k = den}
        (omega (arith, bound.1, mul-sub den remaining (sum rounded))) pos in
    omega (
      arith,
      sum-hand_out (remaining - sum rounded) (sort_by by_fraction (rests 0 xs)) rounded
          (sort_by-All by_fraction (λ r. r.index < length rounded) (rests 0 xs)
            (rests_below 0 (length rounded) xs (omega (arith, length-floors xs))))
          (omega (arith, few, length-sort_by by_fraction (rests 0 xs), length-rests 0 xs)),
      whole,
    )

pub sum-other_weights :
    (remaining : ℕ) (o : Target) (os : List Target)
    → remaining ≤ 100
    → weights (o ∷ os) ≤ 100
    → length (o ∷ os) ≤ 10_000
    → sum (other_weights remaining (o ∷ os)) ≡ remaining
unfolding other_weights
sum-other_weights remaining o os small light few =
    elim (Bool-cases (ltb 0 (sum_by (λ t. t.weight) (o ∷ os)))) [
      | inl e ↦
          let total = weights (o ∷ os) in
          rw e (
            sum-round_shares remaining total (parts remaining (o ∷ os))
              (shares total remaining (o ∷ os)) (ltb→lt _ _ e)
              (shares-Near total remaining (o ∷ os) (ltb→lt _ _ e) light small (omega arith))
              (sum-parts remaining (o ∷ os)))
      | inr e ↦
          let count = length (o ∷ os) in
          rw e (
            sum-round_shares remaining count (even_parts remaining (o ∷ os))
              (even_shares count remaining (o ∷ os)) (omega arith)
              (even_shares-Near count remaining (o ∷ os) (omega arith) few small)
              (sum-even_parts remaining (o ∷ os)))
    ]

pub length-other_weights :
    (remaining : ℕ) (os : List Target) → length (other_weights remaining os) ≡ length os
unfolding other_weights
length-other_weights remaining os = ground (
  arith,
  length-round_shares remaining (shares (sum_by (λ t. t.weight) os) remaining os),
  length-round_shares remaining (even_shares (length os) remaining os),
  length-shares (sum_by (λ t. t.weight) os) remaining os,
  length-even_shares (length os) remaining os,
)

pub sum_by-reweigh :
    (ts : List Target) (ns : List ℕ)
    → length ns ≡ length ts
    → sum_by (λ t. t.weight) (reweigh ts ns) ≡ sum ns
unfolding reweigh
sum_by-reweigh [] [] h = refl
sum_by-reweigh [] (n ∷ ns) h = absurd (omega arith)
sum_by-reweigh (t ∷ ts) [] h = absurd (omega arith)
sum_by-reweigh (t ∷ ts) (n ∷ ns) h = omega (arith, sum_by-reweigh ts ns (omega arith))
