-- ===== src/Services/Store/Rows.antt =====
-- What an update of one row does to the others, and how a computation of the store succeeds.
use ash_ml.Base.{
  ℕ, ◌≡◌, ◌≢◌, refl, ap, inl, inr, Option, none, some, List, [], ◌∷◌, arith, ◌==◌, ==_iff,
  Bool-cases, Option-cases, find-some, subst, sym,
}
use ash_ml.Domain.JobState.{JobState}
use ash_ml.Services.Store.{Job, get_job, update_jobs}

pub get_job-id : (id : ℕ) (js : List Job) {j : Job} → get_job id js ≡ some j → j.id ≡ id
unfolding get_job
get_job-id id js h = (==_iff _ id).0 (find-some (λ j. j.id == id) js h).0

module _ (f : Job → Job) (keeps_id : (j : Job) → (f j).id ≡ j.id) where
  pub get_job-update_other :
      (k id : ℕ) (js : List Job) → k ≢ id → get_job k (update_jobs id f js) ≡ get_job k js
  unfolding get_job update_jobs
  get_job-update_other k id [] h = refl
  get_job-update_other k id (j ∷ js) h =
      ground (arith, get_job-update_other k id js h, keeps_id j, h)

  pub get_job-update :
      (id : ℕ) (js : List Job) {j : Job}
      → get_job id js ≡ some j
      → get_job id (update_jobs id f js) ≡ some (f j)
  unfolding get_job update_jobs
  get_job-update id [] h = cc
  get_job-update id (k ∷ js) {j} h = ground (arith, get_job-update id js {j = j}, keeps_id k, h)

  pub get_job-update_none :
      (id : ℕ) (js : List Job) → get_job id js ≡ none → get_job id (update_jobs id f js) ≡ none
  unfolding get_job update_jobs
  get_job-update_none id [] h = refl
  get_job-update_none id (k ∷ js) h = ground (arith, get_job-update_none id js, keeps_id k, h)

-- A field of a row, if there is one.
abbrev pub field_of {ℓ} : {B : Type ℓ} → (Job → B) → Option Job → Option B
field_of g none = none
field_of g (some j) = some (g j)

abbrev pub state : Option Job → Option JobState
state = field_of (λ j. j.state)

-- An update that keeps ids and a field.
pub field_of-update {ℓ} :
    {B : Type ℓ} (g : Job → B) (f : Job → Job)
    → ((j : Job) → (f j).id ≡ j.id)
    → ((j : Job) → g (f j) ≡ g j)
    → (k id : ℕ) (js : List Job)
    → field_of g (get_job k (update_jobs id f js)) ≡ field_of g (get_job k js)
field_of-update g f keeps_id keeps_g k id js = elim (Bool-cases (k == id)) [
  | inr e ↦
      ap (field_of g)
        (get_job-update_other f keeps_id k id js (λ q. absurd (cc (e, (==_iff k id).1 q))))
  | inl e ↦
      subst (λ i. field_of g (get_job i (update_jobs id f js)) ≡ field_of g (get_job i js))
        (sym ((==_iff k id).0 e))
        (elim (Option-cases (get_job id js)) [
          | inl n ↦ rw (get_job-update_none f keeps_id id js n, n)
          | inr (j, n) ↦ rw (get_job-update f keeps_id id js n, n) (ap some (keeps_g j))
        ])
]
