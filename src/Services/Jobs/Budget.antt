-- ===== src/Services/Jobs/Budget.antt =====
-- The retry budget: `considerRetry` of services/jobs.js never lets a job's attempt pass its
-- max_retries.
use ash_ml.Base.{
  ℕ, ◌≤◌, ◌<◌, ◌≡◌, refl, sym, subst, inl, inr, Bool, true, Option, none, some, List, arith, ◌==◌,
  ==_iff, Bool-cases, Option-cases, if◌then◌else◌, is_some,
}
use ash_ml.Domain.JobState.{JobState, queued, retrying}
use ash_ml.Domain.Retry.{RetryDecision, retry, Verdict, decide_retry}
use ash_ml.Domain.Retry.Decision.{decide_retry_iff}
use ash_ml.Services.Store.{
  Text, Job, Checkpoint, Db, ok, pure, ◌>>=◌, get_job, update_jobs, update_job, with_state,
  insert_job_event, next_attempt, prepare_retry,
}
use ash_ml.Services.Store.Order.{latest_resumable_checkpoint}
use ash_ml.Services.Store.Rows.{field_of, field_of-update, get_job-update, get_job-update_other}
use ash_ml.Services.Store.Keeps.{Leaves, Keeps, pure-Keeps, then-Keeps, then-Leaves}
use ash_ml.Services.Jobs.{apply_transition}
use ash_ml.Services.Retries.{
  issue_retry, apply_verdict, rule_on, consider_retry, failure_of, says_retry, already_decided,
}
use ash_ml.Services.Jobs.Log.{
  IsLogged, update-IsLogged, remark-IsLogged, apply_transition-IsLogged, apply_transition-cases,
  moved_db, require_job-none, require_job-some,
}
use ash_ml.Services.Jobs.Calls.{IsKept, decline_retry-Keeps, resume-Keeps}

abbrev spent : Job → ℕ × ℕ
spent j = (j.attempt, j.max_retries)

abbrev Within : Option (ℕ × ℕ) → Type 0
Within none = Unit
Within (some (attempt, budget)) = attempt ≤ budget

-- No job has more attempts behind it than its budget.
abbrev pub WithinBudget : Db → Type 0
WithinBudget db = (id : ℕ) → Within (field_of spent (get_job id db.jobs))

update-spent :
    (f : Job → Job)
    → ((j : Job) → (f j).id ≡ j.id)
    → ((j : Job) → (f j).attempt ≡ j.attempt)
    → ((j : Job) → (f j).max_retries ≡ j.max_retries)
    → (k id : ℕ) (js : List Job)
    → field_of spent (get_job k (update_jobs id f js)) ≡ field_of spent (get_job k js)
update-spent f keeps_id keeps_attempt keeps_bound =
    field_of-update spent f keeps_id (λ j i. (keeps_attempt j i, keeps_bound j i))

moved-spent :
    (now id : ℕ) (to : JobState) (reason : Option Text) (js : List Job) (k : ℕ)
    → field_of spent (get_job k (update_jobs id (with_state now to reason) js))
      ≡ field_of spent (get_job k js)
unfolding with_state
moved-spent now id to reason js k = update-spent _ (λ j. refl) (λ j. refl) (λ j. refl) k id js

pub WithinBudget-IsKept : IsKept WithinBudget
unfolding update_job insert_job_event
WithinBudget-IsKept = record {
  transition = λ now id to reason. record {
    keeps = λ db h. elim (apply_transition-cases now id to reason db) [
      | inl (e, f) ↦ subst (Leaves WithinBudget) (sym f) tt
      | inr (j, e, inl (edge, f)) ↦
          subst (Leaves WithinBudget) (sym f)
            λ k. subst Within (sym (moved-spent now id to reason db.jobs k)) (h k)
      | inr (j, e, inr f) ↦ subst (Leaves WithinBudget) (sym f) tt
    ];
  };
  update = λ f i s a m id. record {
    keeps = λ db h k. subst Within (sym (update-spent f i a m k id db.jobs)) (h k);
  };
  remark = λ e n. record { keeps = λ db h. h };
  audit = λ db passes h. h;
}

pub IsLogged-IsKept : IsKept IsLogged
IsLogged-IsKept = record {
  transition = apply_transition-IsLogged;
  update = λ f i s a m. update-IsLogged f i s;
  remark = remark-IsLogged;
  audit = λ db passes h. h;
}

-- The job with the id has a retry left.
abbrev Left : Option (ℕ × ℕ) → Type 0
Left none = ⊥
Left (some (attempt, budget)) = attempt < budget

next-Within :
    (id : ℕ) (js : List Job)
    → ((k : ℕ) → Within (field_of spent (get_job k js)))
    → Left (field_of spent (get_job id js))
    → (k : ℕ) → Within (field_of spent (get_job k (update_jobs id next_attempt js)))
next-Within id js h left k = elim (Bool-cases (k == id)) [
  | inr e ↦
      subst (λ o. Within (field_of spent o))
        (sym (
          get_job-update_other next_attempt (unfold next_attempt in λ j. refl) k id js
            (λ q. absurd (cc (e, (==_iff k id).1 q)))))
        (h k)
  | inl e ↦
      subst (λ i. Within (field_of spent (get_job i (update_jobs id next_attempt js))))
        (sym ((==_iff k id).0 e))
        (elim (Option-cases (get_job id js)) [
          | inl n ↦ absurd (subst (λ o. Left (field_of spent o)) n left)
          | inr (j, n) ↦
              let room : j.attempt < j.max_retries = subst (λ o. Left (field_of spent o)) n left in
              rw (get_job-update next_attempt (unfold next_attempt in λ j. refl) id js n)
                (unfold next_attempt in omega (arith, room))
        ])
]

-- What a transition leaves of the attempts.
transition-spent :
    (now id : ℕ) (to : JobState) (reason : Option Text) (db db' : Db)
    → apply_transition now id to reason db ≡ ok (tt, db')
    → (k : ℕ) → field_of spent (get_job k db'.jobs) ≡ field_of spent (get_job k db.jobs)
transition-spent now id to reason db db' h k = elim (apply_transition-cases now id to reason db) [
  | inl (e, f) ↦ absurd (cc (h, f))
  | inr (j, e, inl (edge, f)) ↦
      let same_db : moved_db now id to reason j.state db ≡ db' = cc (h, f) in
      subst (λ (d : Db). field_of spent (get_job k d.jobs) ≡ field_of spent (get_job k db.jobs))
        same_db (moved-spent now id to reason db.jobs k)
  | inr (j, e, inr f) ↦ absurd (cc (h, f))
]

issue_retry-WithinBudget :
    (now id : ℕ) (v : Verdict) (c : Option Checkpoint) (db : Db)
    → WithinBudget db
    → Left (field_of spent (get_job id db.jobs))
    → Leaves WithinBudget (issue_retry now id v c db)
unfolding issue_retry prepare_retry
issue_retry-WithinBudget now id v c db h left =
    then-Leaves WithinBudget (apply_transition now id retrying none) _ db λ db₁ e.
      let same_spent = transition-spent now id retrying none db db₁ e in
      let within =
        next-Within id db₁.jobs (λ k. subst Within (sym (same_spent k)) (h k))
          (subst Left (sym (same_spent id)) left) in
      (then-Keeps WithinBudget (resume-Keeps WithinBudget WithinBudget-IsKept id _) (
          then-Keeps WithinBudget (WithinBudget-IsKept.transition now id queued none)
            (pure-Keeps WithinBudget _))).keeps
        _ within

says_retry_iff : (d : RetryDecision) → says_retry d ≡ true → d ≡ retry
says_retry_iff d h = ground (arith, h)

room_left :
    (job : Job) (can_resume : Bool)
    → says_retry (decide_retry (failure_of job) can_resume).decision ≡ true
    → job.attempt < job.max_retries
unfolding failure_of
room_left job can_resume h =
    ((decide_retry_iff (failure_of job) can_resume).0.0 (says_retry_iff _ h)).2

apply_verdict-WithinBudget :
    (now id : ℕ) (v : Verdict) (c : Option Checkpoint) (db : Db)
    → WithinBudget db
    → (says_retry v.decision ≡ true → Left (field_of spent (get_job id db.jobs)))
    → Leaves WithinBudget (apply_verdict now id c v db)
unfolding apply_verdict
apply_verdict-WithinBudget now id v c db h room = elim (Bool-cases (says_retry v.decision)) [
  | inl e ↦ rw e (issue_retry-WithinBudget now id v c db h (room e))
  | inr e ↦ rw e ((decline_retry-Keeps WithinBudget WithinBudget-IsKept now id v).keeps db h)
]

-- `considerRetry` keeps every job within its budget.
pub consider_retry-WithinBudget : (now id : ℕ) → Keeps WithinBudget (consider_retry now id)
unfolding consider_retry rule_on
consider_retry-WithinBudget now id = record { keeps = kept }
  where
    decided :
        (job : Job) (db : Db)
        → WithinBudget db
        → get_job id db.jobs ≡ some job
        → Leaves WithinBudget (
            (if is_some job.retry_decided_at
                then pure (already_decided job.retry_decision)
                else rule_on now id job)
              db)
    decided job db h e = elim (Bool-cases (is_some job.retry_decided_at)) [
      | inl f ↦ rw f h
      | inr f ↦ rw f (
          apply_verdict-WithinBudget now id _ (latest_resumable_checkpoint id db.checkpoints) db h
            (λ says. subst (λ o. Left (field_of spent o)) (sym e) (room_left job _ says)))
    ]

    kept : (db : Db) → WithinBudget db → Leaves WithinBudget (consider_retry now id db)
    kept db h = elim (Option-cases (get_job id db.jobs)) [
      | inl e ↦ rw (require_job-none id db e, ◌>>=◌) tt
      | inr (job, e) ↦ rw (require_job-some id db e, ◌>>=◌) (decided job db h e)
    ]

pub WithinBudget-attempt :
    (db : Db) (id : ℕ) (j : Job)
    → WithinBudget db
    → get_job id db.jobs ≡ some j
    → j.attempt ≤ j.max_retries
WithinBudget-attempt db id j h found = subst (λ o. Within (field_of spent o)) found (h id)
