-- ===== src/Domain/Placement/Ranking.antt =====
-- The order of the candidates: what `rank` prefers, and that it is an order.
use Prim.Native.String.{String}
use ash_ml.Base.{
  ℕ, ◌≤◌, ◌<◌, ◌≡◌, ◌↔◌, inl, inr, true, false, arith, ltb, ltb→lt, Bool-cases, ℤ, pos, ◌≤ℤ◌, ◌-ℤ◌,
  -ℤ_parts, sub_ℕ, sub_ℕ_parts, or_next, is_positive, IsComparator, Before,
}
use ash_ml.Domain.Quota.{Request}
use ash_ml.Domain.Placement.Capacity.{schedulable_gpus}
use ash_ml.Domain.Placement.Place.{Candidate, compare_candidates}

-- The comparator's steps: the difference decides, or what comes next does.
step_iff :
    (p q k r : ℤ)
    → (is_positive (or_next ((p -ℤ k) -ℤ (q -ℤ k)) r) ≡ false)
      ↔ ((p ≤ℤ q) × (q ≤ℤ p → is_positive r ≡ false))
step_iff p q k r =
    let outer = -ℤ_parts (p -ℤ k) (q -ℤ k) in
    let left = -ℤ_parts p k in
    let right = -ℤ_parts q k in
    (
      (λ h. (ground (arith, outer, left, right, h), λ e. ground (arith, outer, left, right, h, e))),
      λ h. ground (arith, outer, left, right, h.0, h.1),
    )

step_asym :
    (p q k r r' : ℤ)
    → (is_positive r ≡ true → is_positive r' ≡ false)
    → is_positive (or_next ((p -ℤ k) -ℤ (q -ℤ k)) r) ≡ true
    → is_positive (or_next ((q -ℤ k) -ℤ (p -ℤ k)) r') ≡ false
step_asym p q k r r' next h = ground (
  arith,
  -ℤ_parts (p -ℤ k) (q -ℤ k),
  -ℤ_parts (q -ℤ k) (p -ℤ k),
  -ℤ_parts p k,
  -ℤ_parts q k,
  next,
  h,
)

step_trans :
    (p q s k r₁ r₂ r₃ : ℤ)
    → (is_positive r₁ ≡ false → is_positive r₂ ≡ false → is_positive r₃ ≡ false)
    → is_positive (or_next ((p -ℤ k) -ℤ (q -ℤ k)) r₁) ≡ false
    → is_positive (or_next ((q -ℤ k) -ℤ (s -ℤ k)) r₂) ≡ false
    → is_positive (or_next ((p -ℤ k) -ℤ (s -ℤ k)) r₃) ≡ false
step_trans p q s k r₁ r₂ r₃ next h j =
    let a = (step_iff p q k r₁).0 h in
    let b = (step_iff q s k r₂).0 j in
    (step_iff p s k r₃).1
      (omega arith, λ e. next (a.1 (omega (arith, a.0, b.0))) (b.1 (omega (arith, a.0, b.0))))

count_asym :
    (m n : ℕ) (r r' : ℤ)
    → (is_positive r ≡ true → is_positive r' ≡ false)
    → is_positive (or_next (sub_ℕ m n) r) ≡ true
    → is_positive (or_next (sub_ℕ n m) r') ≡ false
count_asym m n r r' next h = ground (arith, sub_ℕ_parts m n, sub_ℕ_parts n m, next, h)

count_iff :
    (m n : ℕ) (r : ℤ)
    → (is_positive (or_next (sub_ℕ m n) r) ≡ false) ↔ ((m ≤ n) × (n ≤ m → is_positive r ≡ false))
count_iff m n r =
    let law = sub_ℕ_parts m n in
    (
      (λ h. (ground (arith, law, h), λ e. ground (arith, law, h, e))),
      λ h. ground (arith, law, h.0, h.1),
    )

count_trans :
    (m n o : ℕ) (r₁ r₂ r₃ : ℤ)
    → (is_positive r₁ ≡ false → is_positive r₂ ≡ false → is_positive r₃ ≡ false)
    → is_positive (or_next (sub_ℕ m n) r₁) ≡ false
    → is_positive (or_next (sub_ℕ n o) r₂) ≡ false
    → is_positive (or_next (sub_ℕ m o) r₃) ≡ false
count_trans m n o r₁ r₂ r₃ next h j =
    let a = (count_iff m n r₁).0 h in
    let b = (count_iff n o r₂).0 j in
    (count_iff m o r₃).1 (
      omega (arith, a.0, b.0),
      λ e. next (a.1 (omega (arith, a.0, b.0))) (b.1 (omega (arith, a.0, b.0))),
    )

module _ (locale_compare : String → String → ℤ) where
  -- `a` is at least as good a fit as `b`: it leaves no more GPUs (or, for a job without, has no
  -- more of them); where as many, it leaves no more CPUs; where as many, its name is not later.
  pub record Prefers (request : Request) (a b : Candidate) : Type 0 where
    pub gpus : 0 < request.gpu → a.free.gpu ≤ℤ b.free.gpu
    pub plain : request.gpu ≡ 0 → schedulable_gpus a.node ≤ schedulable_gpus b.node
    pub cpus :
        (0 < request.gpu → b.free.gpu ≤ℤ a.free.gpu)
        → (request.gpu ≡ 0 → schedulable_gpus b.node ≤ schedulable_gpus a.node)
        → a.free.cpu ≤ℤ b.free.cpu
    pub names :
        (0 < request.gpu → b.free.gpu ≤ℤ a.free.gpu)
        → (request.gpu ≡ 0 → schedulable_gpus b.node ≤ schedulable_gpus a.node)
        → b.free.cpu ≤ℤ a.free.cpu
        → is_positive (locale_compare a.node.name b.node.name) ≡ false

  pub Before-Prefers :
      (request : Request) (a b : Candidate)
      → Before (compare_candidates locale_compare request) a b
      → Prefers request a b
  unfolding compare_candidates
  Before-Prefers request a b h = elim (Bool-cases (ltb 0 request.gpu)) [
    | inl e ↦
        let p = ltb→lt 0 request.gpu e in
        let first =
          (step_iff a.free.gpu b.free.gpu (pos request.gpu) (
              or_next ((a.free.cpu -ℤ pos request.cpu) -ℤ (b.free.cpu -ℤ pos request.cpu))
                (locale_compare a.node.name b.node.name))).0
            (rw e at h) in
        record {
          gpus = λ _. first.0;
          plain = λ z. absurd (omega arith);
          cpus = λ up _. (second (first.1 (up p))).0;
          names = λ up _. (second (first.1 (up p))).1;
        }
    | inr e ↦
        let z : request.gpu ≡ 0 = ground (arith, e) in
        let first =
          (count_iff (schedulable_gpus a.node) (schedulable_gpus b.node) (
              or_next ((a.free.cpu -ℤ pos request.cpu) -ℤ (b.free.cpu -ℤ pos request.cpu))
                (locale_compare a.node.name b.node.name))).0
            (rw e at h) in
        record {
          gpus = λ p. absurd (omega arith);
          plain = λ _. first.0;
          cpus = λ _ up. (second (first.1 (up z))).0;
          names = λ _ up. (second (first.1 (up z))).1;
        }
  ]
    where
      second :
          is_positive (
              or_next
                ((a.free.cpu -ℤ pos request.cpu) -ℤ (b.free.cpu -ℤ pos request.cpu))
                (locale_compare a.node.name b.node.name))
            ≡ false
          → (a.free.cpu ≤ℤ b.free.cpu)
            × (b.free.cpu ≤ℤ a.free.cpu
                → is_positive (locale_compare a.node.name b.node.name) ≡ false)
      second =
          (step_iff a.free.cpu b.free.cpu (pos request.cpu)
            (locale_compare a.node.name b.node.name)).0

  pub compare_candidates-IsComparator :
      (request : Request)
      → IsComparator locale_compare
      → IsComparator (compare_candidates locale_compare request)
  unfolding compare_candidates
  compare_candidates-IsComparator request order = elim (Bool-cases (ltb 0 request.gpu)) [
    | inl e ↦ record {
      asym = λ a b. rw e (
          step_asym a.free.gpu b.free.gpu (pos request.gpu) _ _ (
            step_asym a.free.cpu b.free.cpu (pos request.cpu) _ _
              (order.asym a.node.name b.node.name)));
      trans = λ a b c. rw e (
          step_trans a.free.gpu b.free.gpu c.free.gpu (pos request.gpu) _ _ _ (
            step_trans a.free.cpu b.free.cpu c.free.cpu (pos request.cpu) _ _ _
              (order.trans a.node.name b.node.name c.node.name)));
    }
    | inr e ↦ record {
      asym = λ a b. rw e (
          count_asym (schedulable_gpus a.node) (schedulable_gpus b.node) _ _ (
            step_asym a.free.cpu b.free.cpu (pos request.cpu) _ _
              (order.asym a.node.name b.node.name)));
      trans = λ a b c. rw e (
          count_trans (schedulable_gpus a.node) (schedulable_gpus b.node) (schedulable_gpus c.node)
            _ _ _
            (step_trans a.free.cpu b.free.cpu c.free.cpu (pos request.cpu) _ _ _
              (order.trans a.node.name b.node.name c.node.name)));
    }
  ]
