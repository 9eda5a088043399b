-- ===== src/Services/Cluster/Sums.antt =====
-- How an update of one row changes a sum over the jobs.
use ash_ml.Base.{
  ℕ, ◌+◌, ◌≤◌, ◌≡◌, ◌≢◌, refl, subst, inl, inr, Bool, some, List, [], ◌∷◌, keep, sum_by, All,
  if◌then◌else◌, arith, ◌==◌, ==_iff, Bool-cases, some-eq,
}
use ash_ml.Services.Store.{Job, get_job, update_jobs}
use ash_ml.Services.Cluster.{holds, allocated}

-- The ids of the rows are a primary key.
abbrev pub Distinct : List Job → Type 0
Distinct [] = Unit
Distinct (j ∷ js) = All (λ k. k.id ≢ j.id) js × Distinct js

sum_by-keep :
    (p : Job → Bool) (f : Job → ℕ) (js : List Job)
    → sum_by f (keep p js) ≡ sum_by (λ j. if p j then f j else 0) js
sum_by-keep p f [] = refl
sum_by-keep p f (j ∷ js) = ground (arith, sum_by-keep p f js)

-- What one job holds of a node.
abbrev pub weight : (Job → ℕ) → ℕ → Job → ℕ
weight amount node j = if holds node j then amount j else 0

pub allocated-weight :
    (amount : Job → ℕ) (node : ℕ) (js : List Job)
    → allocated amount node js ≡ sum_by (weight amount node) js
unfolding allocated
allocated-weight amount node js = sum_by-keep (holds node) amount js

module _ (w : Job → ℕ) (f : Job → Job) where
  pub sum_by-update_le :
      ((j : Job) → w (f j) ≤ w j)
      → (id : ℕ) (js : List Job) → sum_by w (update_jobs id f js) ≤ sum_by w js
  unfolding update_jobs
  sum_by-update_le h id [] = omega arith
  sum_by-update_le h id (j ∷ js) = ground (arith, h j, sum_by-update_le h id js)

  sum_by-update_absent :
      (id : ℕ) (js : List Job)
      → All (λ k. k.id ≢ id) js
      → sum_by w (update_jobs id f js) ≡ sum_by w js
  unfolding update_jobs
  sum_by-update_absent id [] h = refl
  sum_by-update_absent id (j ∷ js) h = ground (arith, h.0, sum_by-update_absent id js h.1)

  -- Among distinct rows the sum changes by the one row.
  pub sum_by-update :
      (id : ℕ) (js : List Job) (j : Job)
      → Distinct js
      → get_job id js ≡ some j
      → sum_by w (update_jobs id f js) + w j ≡ sum_by w js + w (f j)
  unfolding update_jobs get_job
  sum_by-update id [] j d h = absurd (cc h)
  sum_by-update id (k ∷ js) j d h = elim (Bool-cases (k.id == id)) [
    | inl e ↦
        let same : k ≡ j = some-eq (rw e at h) in
        let at_id : k.id ≡ id = (==_iff k.id id).0 e in
        let rest = sum_by-update_absent id js (subst (λ i. All (λ l. l.id ≢ i) js) at_id d.0) in
        rw e (
          subst (λ x. w (f k) + sum_by w (update_jobs id f js) + w x ≡ w k + sum_by w js + w (f x))
            same (omega (arith, rest)))
    | inr e ↦ let rest = sum_by-update id js j d.1 (rw e at h) in rw e (omega (arith, rest))
  ]
