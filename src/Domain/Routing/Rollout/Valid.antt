-- ===== src/Domain/Routing/Rollout/Valid.antt =====
-- `applyRollout` gives a split that `validateWeights` accepts.
use ash_ml.Base.{
  ℕ, ◌-◌, ◌≤◌, ◌<◌, ◌≡◌, ◌≢◌, refl, true, false, inl, inr, none, some, List, [], ◌∷◌, ◌++◌, map,
  find, any, sum_by, sum_by-append, length, All, arith, ltb, ◌==◌, ==_iff, sort_by, insert,
  insert-All, sort_by-All, sum_by-sort_by, Bool-cases, Option-cases, sym, ◌∙◌, ℤ, is_positive,
}
use ash_ml.Domain.Routing.Weights.{
  Target, Proposal, proposed, total_weight, bad_weight, weight_value, first_duplicate, check_total,
  check_versions, check_weights, validate_weights,
}
use ash_ml.Domain.Routing.Rollout.{
  others, reweigh, other_weights, by_version, split_with, apply_rollout,
}
use ash_ml.Domain.Routing.Rollout.Sums.{
  weights, sum-other_weights, length-other_weights, sum_by-reweigh,
}

abbrev pub Fresh : ℕ → List Target → Type 0
Fresh v = All (λ t. t.version ≢ v)

-- No version stands twice.
abbrev pub Distinct : List Target → Type 0
Distinct [] = Unit
Distinct (t ∷ ts) = Fresh t.version ts × Distinct ts

insert-Distinct :
    (f : Target → Target → ℤ) (x : Target) (ys : List Target)
    → Fresh x.version ys
    → Distinct ys
    → Distinct (insert f x ys)
unfolding insert
insert-Distinct f x [] h d = (tt, tt)
insert-Distinct f x (y ∷ ys) h d = elim (Bool-cases (is_positive (f x y))) [
  | inl e ↦ rw e (
    insert-All f (λ t. t.version ≢ y.version) x ys (λ p. h.0 (cc)) d.0,
    insert-Distinct f x ys h.1 d.1,
  )
  | inr e ↦ rw e (h, d)
]

sort_by-Distinct :
    (f : Target → Target → ℤ) (ts : List Target) → Distinct ts → Distinct (sort_by f ts)
unfolding sort_by
sort_by-Distinct f [] d = tt
sort_by-Distinct f (t ∷ ts) d =
    insert-Distinct f t (sort_by f ts) (sort_by-All f (λ u. u.version ≢ t.version) ts d.0)
      (sort_by-Distinct f ts d.1)

-- `reweigh` changes no version.
pub reweigh-Fresh : (v : ℕ) (ts : List Target) (ns : List ℕ) → Fresh v ts → Fresh v (reweigh ts ns)
unfolding reweigh
reweigh-Fresh v [] ns h = tt
reweigh-Fresh v (t ∷ ts) [] h = tt
reweigh-Fresh v (t ∷ ts) (n ∷ ns) h = (h.0, reweigh-Fresh v ts ns h.1)

reweigh-Distinct : (ts : List Target) (ns : List ℕ) → Distinct ts → Distinct (reweigh ts ns)
unfolding reweigh
reweigh-Distinct [] ns d = tt
reweigh-Distinct (t ∷ ts) [] d = tt
reweigh-Distinct (t ∷ ts) (n ∷ ns) d =
    (reweigh-Fresh t.version ts ns d.0, reweigh-Distinct ts ns d.1)

append-Distinct :
    (ts : List Target) (t : Target) → Distinct ts → Fresh t.version ts → Distinct (ts ++ t ∷ [])
append-Distinct [] t d h = (tt, tt)
append-Distinct (u ∷ ts) t d h = (last ts d.0, append-Distinct ts t d.1 h.1)
  where
    last : (us : List Target) → Fresh u.version us → Fresh u.version (us ++ t ∷ [])
    last [] a = ((λ e. h.0 (cc)), tt)
    last (w ∷ us) a = (a.0, last us a.1)

pub others-Fresh : (v : ℕ) (ts : List Target) → Fresh v (others v ts)
unfolding others
others-Fresh v [] = tt
others-Fresh v (t ∷ ts) = elim (Bool-cases (t.version == v)) [
  | inl e ↦ rw e (others-Fresh v ts)
  | inr e ↦ rw e ((λ h. cc (e, (==_iff t.version v).1 h)), others-Fresh v ts)
]

others-All-Fresh : (v w : ℕ) (ts : List Target) → Fresh w ts → Fresh w (others v ts)
unfolding others
others-All-Fresh v w [] h = tt
others-All-Fresh v w (t ∷ ts) h = elim (Bool-cases (t.version == v)) [
  | inl e ↦ rw e (others-All-Fresh v w ts h.1)
  | inr e ↦ rw e (h.0, others-All-Fresh v w ts h.1)
]

pub others-Distinct : (v : ℕ) (ts : List Target) → Distinct ts → Distinct (others v ts)
unfolding others
others-Distinct v [] d = tt
others-Distinct v (t ∷ ts) d = elim (Bool-cases (t.version == v)) [
  | inl e ↦ rw e (others-Distinct v ts d.1)
  | inr e ↦ rw e (others-All-Fresh v t.version ts d.0, others-Distinct v ts d.1)
]

pub weights-others : (v : ℕ) (ts : List Target) → weights (others v ts) ≤ weights ts
unfolding others
weights-others v [] = omega arith
weights-others v (t ∷ ts) = ground (arith, weights-others v ts)

pub length-others : (v : ℕ) (ts : List Target) → length (others v ts) ≤ length ts
unfolding others
length-others v [] = omega arith
length-others v (t ∷ ts) = ground (arith, length-others v ts)

pub split_with-Distinct :
    (v w : ℕ) (os : List Target) → Distinct os → Fresh v os → Distinct (split_with v w os)
unfolding split_with
split_with-Distinct v w [] d h = (tt, tt)
split_with-Distinct v w (o ∷ os) d h =
    let ns = other_weights (total_weight - w) (o ∷ os) in
    sort_by-Distinct by_version _ (
      append-Distinct (reweigh (o ∷ os) ns) (record { version = v; weight = w })
        (reweigh-Distinct (o ∷ os) ns d) (reweigh-Fresh v (o ∷ os) ns h))

pub weights-split_with :
    (v w : ℕ) (os : List Target)
    → w ≤ 100
    → weights os ≤ 100
    → length os ≤ 10_000
    → weights (split_with v w os) ≡ 100
unfolding split_with
weights-split_with v w [] h light few = refl
weights-split_with v w (o ∷ os) h light few =
    let ns = other_weights (total_weight - w) (o ∷ os) in
    let last : List Target = record { version = v; weight = w } ∷ [] in
    omega (
      arith,
      sum_by-sort_by by_version (λ t. t.weight) (reweigh (o ∷ os) ns ++ last),
      sum_by-append (λ t. t.weight) (reweigh (o ∷ os) ns) last,
      sum_by-reweigh (o ∷ os) ns (length-other_weights (total_weight - w) (o ∷ os)),
      sum-other_weights (total_weight - w) o os (omega (arith, h)) light few,
    )

-- Each test of `validateWeights` on a split of distinct versions that adds up to 100.
no_bad_weight :
    (bound : ℕ) (ts : List Target)
    → bound ≤ 100
    → weights ts ≤ bound
    → find (λ t. bad_weight t.weight) (map proposed ts) ≡ none
unfolding bad_weight
no_bad_weight bound [] h k = refl
no_bad_weight bound (t ∷ ts) h k = ground (arith, no_bad_weight bound ts h (omega arith))

no_duplicate :
    (seen : List ℕ) (ts : List Target)
    → All (λ t. any (λ v. v == t.version) seen ≡ false) ts
    → Distinct ts
    → first_duplicate seen (map proposed ts) ≡ none
unfolding first_duplicate
no_duplicate seen [] h d = refl
no_duplicate seen (t ∷ ts) h d =
    rw (h.0) (no_duplicate (t.version ∷ seen) ts (now_seen ts h.1 d.0) d.1)
  where
    now_seen :
        (us : List Target)
        → All (λ u. any (λ v. v == u.version) seen ≡ false) us
        → Fresh t.version us
        → All (λ u. any (λ v. v == u.version) (t.version ∷ seen) ≡ false) us
    now_seen [] a f = tt
    now_seen (u ∷ us) a f = (ground (arith, a.0, f.0), now_seen us a.1 f.1)

weight_values-sum :
    (ts : List Target) → sum_by (λ t. weight_value t.weight) (map proposed ts) ≡ weights ts
unfolding weight_value
weight_values-sum [] = refl
weight_values-sum (t ∷ ts) = omega (arith, weight_values-sum ts)

takes_traffic :
    (ts : List Target)
    → 0 < weights ts
    → any (λ t. ltb 0 (weight_value t.weight)) (map proposed ts) ≡ true
unfolding weight_value
takes_traffic [] h = absurd (omega arith)
takes_traffic (t ∷ ts) h = ground (arith, takes_traffic ts)

none_seen : (ts : List Target) → All (λ t. any (λ v. v == t.version) [] ≡ false) ts
none_seen [] = tt
none_seen (t ∷ ts) = (refl, none_seen ts)

-- A list of distinct versions whose weights add up to 100 passes the check.
pub valid_of :
    (ts : List Target)
    → Distinct ts
    → weights ts ≡ 100
    → validate_weights (some (map proposed ts)) ≡ none
unfolding validate_weights
valid_of [] d h = absurd (omega arith)
valid_of (t ∷ ts) d h =
    rw (no_bad_weight 100 (t ∷ ts) (omega arith) (omega arith), check_weights)
      (rw (no_duplicate [] (t ∷ ts) (none_seen (t ∷ ts)) d, check_versions)
        (unfold check_total in
          rw (weight_values-sum (t ∷ ts), h, takes_traffic (t ∷ ts) (omega arith))))

-- A rollout of at most 100 percent onto a split of distinct versions, at most 10 000 of them
-- with weights that add up to at most 100, gives a split that `validateWeights` accepts: whole
-- weights that add up to exactly 100, and no version twice, with the shares rounded as the
-- doubles of the source.
pub apply_rollout-valid :
    (current : List Target) (version weight : ℕ)
    → Distinct current
    → weight ≤ 100
    → weights current ≤ 100
    → length current ≤ 10_000
    → validate_weights (some (map proposed (apply_rollout current version weight))) ≡ none
unfolding apply_rollout
apply_rollout-valid current version weight d h light few =
    let os = others version current in
    valid_of (split_with version weight os)
      (split_with-Distinct version weight os (others-Distinct version current d)
        (others-Fresh version current))
      (weights-split_with version weight os h (omega (arith, light, weights-others version current))
        (omega (arith, few, length-others version current)))

-- What the check of a split says of its total.
check_total-sum :
    (ps : List Proposal) → check_total ps ≡ none → sum_by (λ t. weight_value t.weight) ps ≡ 100
unfolding check_total
check_total-sum ps h = ground (arith, h)

check_versions-sum :
    (ps : List Proposal) → check_versions ps ≡ none → sum_by (λ t. weight_value t.weight) ps ≡ 100
unfolding check_versions
check_versions-sum ps h = elim (Option-cases (first_duplicate [] ps)) [
  | inr (v, e) ↦ absurd (cc (rw (check_versions, e) at h))
  | inl e ↦ check_total-sum ps (rw (check_versions, e) at h)
]

check_weights-sum :
    (ps : List Proposal) → check_weights ps ≡ none → sum_by (λ t. weight_value t.weight) ps ≡ 100
unfolding check_weights
check_weights-sum ps h = elim (Option-cases (find (λ t. bad_weight t.weight) ps)) [
  | inr (t, e) ↦ absurd (cc (rw (check_weights, e) at h))
  | inl e ↦ check_versions-sum ps (rw (check_weights, e) at h)
]

pub validate_weights-total :
    (ts : List Target) → validate_weights (some (map proposed ts)) ≡ none → weights ts ≡ 100
unfolding validate_weights
validate_weights-total [] h = absurd (cc h)
validate_weights-total (t ∷ ts) h =
    sym (weight_values-sum (t ∷ ts)) ∙ check_weights-sum (map proposed (t ∷ ts)) h
