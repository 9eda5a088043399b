-- ===== src/Domain/Routing/Choice/Shares.antt =====
-- Which target `chooseTarget` gives, and how much of the range each one holds.
use ash_ml.Base.{
  ◌⊎◌, some-eq, length-append, ℕ, ◌+◌, ◌*◌, ◌%◌, ◌≤◌, ◌<◌, ◌≡◌, ◌↔◌, refl, false, inl, inr, Option,
  none, some, List, [], ◌∷◌, ◌++◌, length, keep, keep-In, sum_by, sum_by-append, In, here, there,
  In-cons_of, In-keep, not-In-nil, arith, ltb, lt→ltb, ap, Bool-cases, subst, sym, ◌∙◌, ◌≢◌,
}
use native.Mathlib.Nat.{mod-lt}
use ash_ml.Base.Double.{Double, one, quotient, times}
use ash_ml.Base.Double.Bounds.{bucket-above, bucket-below}
use ash_ml.Domain.Routing.Hash.{hash_key}
use ash_ml.Domain.Routing.Choice.{
  Target, Choice, takes_traffic, is_eligible, pick_from, pick, choose_by, choose_among,
  choose_target, sticky_buckets, sticky,
}

abbrev weights : List Target → ℕ
weights = sum_by (λ t. t.weight)

not-ltb : (a b : ℕ) → b ≤ a → ltb a b ≡ false
not-ltb a b h = ground arith

pick_from-In :
    (point cumulative : ℕ) (current : Target) (ts : List Target)
    → (pick_from point cumulative current ts ≡ current)
      ⊎ In (pick_from point cumulative current ts) ts
unfolding pick_from
pick_from-In point cumulative current [] = inl refl
pick_from-In point cumulative current (t ∷ ts) =
    elim (Bool-cases (ltb point ((cumulative + t.weight) * one))) [
      | inl e ↦ rw e (inr here)
      | inr e ↦ rw e (later (pick_from-In point (cumulative + t.weight) t ts))
    ]
  where
    later : {x : Target} → (x ≡ t) ⊎ In x ts → (x ≡ current) ⊎ In x (t ∷ ts)
    later m = inr (In-cons_of m)

pick-In : (t : Target) (ts : List Target) (draw : Double) → In (pick t ts draw) (t ∷ ts)
unfolding pick
pick-In t ts draw = elim (pick_from-In (times draw (weights (t ∷ ts))) 0 t (t ∷ ts)) [
  | inl e ↦ In-cons_of (inl e)
  | inr m ↦ m
]

-- The point falls in the share of `t`: at or above the weights before it, below those up to it.
pick_from_share :
    (point cumulative : ℕ) (current t : Target) (before after : List Target)
    → (cumulative + weights before) * one ≤ point
    → point < (cumulative + weights before + t.weight) * one
    → pick_from point cumulative current (before ++ t ∷ after) ≡ t
unfolding pick_from
pick_from_share point cumulative current t [] after low high =
    rw (lt→ltb point ((cumulative + t.weight) * one) (omega arith))
pick_from_share point cumulative current t (b ∷ before) after low high =
    rw (not-ltb point ((cumulative + b.weight) * one) (omega arith))
      (pick_from_share point (cumulative + b.weight) b t before after (omega arith) (omega arith))

-- A target that stands after the weights `before` is chosen for every draw in its share of the
-- whole range.
pub pick_share :
    (t u : Target) (before after ts : List Target) (draw : Double)
    → u ∷ ts ≡ before ++ t ∷ after
    → weights before * one ≤ times draw (weights (u ∷ ts))
    → times draw (weights (u ∷ ts)) < (weights before + t.weight) * one
    → pick u ts draw ≡ t
unfolding pick
pick_share t u before after ts draw split low high =
    subst (λ l. pick_from (times draw (weights (u ∷ ts))) 0 u l ≡ t) (sym split)
      (pick_from_share (times draw (weights (u ∷ ts))) 0 u t before after (omega arith)
        (omega arith))

choose_by-In :
    (key : Option (List ℕ)) (t : Target) (ts : List Target) (random : Double)
    → In (choose_by key t ts random).target (t ∷ ts)
unfolding choose_by
choose_by-In none t ts random = pick-In t ts random
choose_by-In (some []) t ts random = pick-In t ts random
choose_by-In (some (c ∷ key)) t ts random = pick-In t ts _

choose_among-In :
    (n : ℕ) (key : Option (List ℕ)) (ts : List Target) (random : Double) {c : Choice}
    → choose_among n key ts random ≡ some c
    → In c.target ts
unfolding choose_among
choose_among-In n key [] random h = cc
choose_among-In n key (t ∷ []) random {c} h =
    subst (λ x. In x (t ∷ [])) (ap (λ (d : Choice). d.target) (some-eq h)) here
choose_among-In n key (t ∷ u ∷ ts) random {c} h =
    subst (λ x. In x (t ∷ u ∷ ts)) (ap (λ (d : Choice). d.target) (some-eq h))
      (choose_by-In key t (u ∷ ts) random)

-- A target that is chosen is one of the targets, takes a share of the traffic and is not known to
-- be unready: a version at weight 0 never answers.
pub choose_target-IsEligible :
    (targets : List Target) (key : Option (List ℕ)) (random : Double) {c : Choice}
    → choose_target targets key random ≡ some c
    → In c.target targets × (0 < c.target.weight) × (c.target.ready ≢ some false)
unfolding choose_target
choose_target-IsEligible targets key random {c} h =
    let m =
      choose_among-In (length (keep takes_traffic targets)) key (keep is_eligible targets) random
        h in
    let (found, ok) = keep-In is_eligible targets m in
    (found, ground (arith, ok), λ e. ground (arith, ok, e))

choose_among-none :
    (n : ℕ) (key : Option (List ℕ)) (ts : List Target) (random : Double)
    → choose_among n key ts random ≡ none
    → ts ≡ []
unfolding choose_among
choose_among-none n key [] random h = refl
choose_among-none n key (t ∷ []) random h = cc
choose_among-none n key (t ∷ u ∷ ts) random h = cc

none_eligible :
    (ts : List Target) → ((t : Target) → In t ts → is_eligible t ≡ false) → keep is_eligible ts ≡ []
none_eligible [] f = refl
none_eligible (t ∷ ts) f = rw (f t here) (none_eligible ts (λ u m. f u (there m)))

-- The answer is null exactly when no target both takes traffic and may be ready.
pub choose_target-none_iff :
    (targets : List Target) (key : Option (List ℕ)) (random : Double)
    → (choose_target targets key random ≡ none)
      ↔ ((t : Target) → In t targets → is_eligible t ≡ false)
unfolding choose_target
choose_target-none_iff targets key random = (
  λ h t m. elim (Bool-cases (is_eligible t)) [
    | inl e ↦ absurd (
        not-In-nil (
          subst (In t) (choose_among-none _ key (keep is_eligible targets) random h)
            (In-keep is_eligible m e)))
    | inr e ↦ e
  ],
  λ f. rw (none_eligible targets f) (unfold choose_among in refl),
)

choose_among-two :
    (n : ℕ) (key : Option (List ℕ)) (u : Target) (ts : List Target) (random : Double)
    → 0 < length ts
    → choose_among n key (u ∷ ts) random ≡ some (choose_by key u ts random)
unfolding choose_among
choose_among-two n key u [] random h = absurd (omega arith)
choose_among-two n key u (t ∷ ts) random h = refl

-- A bucket stands in a share that begins at the start of the range, or in whose hundreds it lies,
-- not at their beginning.
abbrev pub IsInside : ℕ → ℕ → ℕ → Type 0
IsInside bucket low high = ((low ≡ 0) ⊎ (100 * low < bucket)) × (bucket < 100 * high)

-- The point of a bucket, on the scale of the total weight.
bucket_share :
    (bucket total low high : ℕ)
    → bucket < 10_000
    → total ≡ 100
    → IsInside bucket low high
    → (low * one ≤ times (quotient bucket 10_000) total)
      × (times (quotient bucket 10_000) total < high * one)
bucket_share bucket total low high small e (p, q) = rw e (
  elim p [ inl f ↦ rw f (omega arith) | inr f ↦ bucket-above bucket low small f ],
  bucket-below bucket high small q,
)

choose_by-sticky_share :
    (u t : Target) (ts before after : List Target) (c : ℕ) (key : List ℕ) (random : Double)
    → u ∷ ts ≡ before ++ t ∷ after
    → weights before + t.weight + weights after ≡ 100
    → IsInside (hash_key (c ∷ key) % 10_000) (weights before) (weights before + t.weight)
    → choose_by (some (c ∷ key)) u ts random ≡ record { target = t; reason = sticky }
unfolding choose_by
choose_by-sticky_share u t ts before after c key random split total inside =
    let bucket = hash_key (c ∷ key) % sticky_buckets in
    let draw : Double = quotient bucket sticky_buckets in
    let sums : weights (u ∷ ts) ≡ 100 =
      omega
        (arith, ap weights split, sum_by-append (λ (x : Target). x.weight) before (t ∷ after)) in
    let share =
      bucket_share bucket (weights (u ∷ ts)) (weights before) (weights before + t.weight)
        (mod-lt (hash_key (c ∷ key)) (omega arith)) sums inside in
    ap (λ (x : Target). record { target = x; reason = sticky })
      (pick_share t u before after ts draw split share.0 share.1)

choose_among-sticky_share :
    (n : ℕ) (l before after : List Target) (t : Target) (c : ℕ) (key : List ℕ) (random : Double)
    → l ≡ before ++ t ∷ after
    → 0 < length before + length after
    → weights before + t.weight + weights after ≡ 100
    → IsInside (hash_key (c ∷ key) % 10_000) (weights before) (weights before + t.weight)
    → choose_among n (some (c ∷ key)) l random ≡ some (record { target = t; reason = sticky })
choose_among-sticky_share n [] before after t c key random split many total inside =
    absurd (omega (arith, ap length split, length-append before (t ∷ after)))
choose_among-sticky_share n (u ∷ ts) before after t c key random split many total inside =
    choose_among-two n (some (c ∷ key)) u ts random
      (omega (arith, ap length split, length-append before (t ∷ after)))
    ∙ ap some (choose_by-sticky_share u t ts before after c key random split total inside)

-- Where the eligible targets, two or more, have weights that add up to 100, a key whose bucket
-- lies in the hundreds of a target's share is answered by that target, whatever is drawn: of 10
-- 000 buckets, 100 for each percent. Where the share does not begin the range, its first bucket
-- is excepted: the double that it becomes may lie in the share before.
pub choose_target-sticky_share :
    (targets before after : List Target) (t : Target) (c : ℕ) (key : List ℕ) (random : Double)
    → keep is_eligible targets ≡ before ++ t ∷ after
    → 0 < length before + length after
    → weights before + t.weight + weights after ≡ 100
    → IsInside (hash_key (c ∷ key) % 10_000) (weights before) (weights before + t.weight)
    → choose_target targets (some (c ∷ key)) random ≡ some (record { target = t; reason = sticky })
unfolding choose_target
choose_target-sticky_share targets before after t c key random split many total inside =
    choose_among-sticky_share (length (keep takes_traffic targets)) (keep is_eligible targets)
      before after t c key random split many total inside
