-- ===== src/Services/Jobs/Log.antt =====
-- The event log of a job against its row: what services/jobs.js writes in one transaction.
use ash_ml.Base.{
  ℕ, ◌≡◌, ◌≢◌, ◌⊎◌, refl, sym, ap, subst, ◌∙◌, inl, inr, true, false, Option, none, some, List, [],
  ◌∷◌, arith, ◌==◌, ==_iff, Bool-cases, Option-cases,
}
use ash_ml.Domain.JobState.{JobState, created, allows}
use ash_ml.Domain.JobState.Graph.{◌⟶◌, allows_sound, transition-name}
use ash_ml.Services.Store.{
  Text, Job, Event, Db, ok, err, ◌>>=◌, get_job, require_job, update_jobs, update_job,
  update_job_state, insert_job_event, with_state, job_not_found, illegal_transition,
}
use ash_ml.Services.Store.Rows.{get_job-update, get_job-update_other, state, field_of-update}
use ash_ml.Services.Store.Keeps.{Leaves, Keeps}
use ash_ml.Services.Jobs.{move_event, check_transition, apply_transition}

-- The log, newest event first, brings the job with this id to a state: it was created once, and each
-- event with states says the state before it and the state after it, which an edge of the
-- diagram joins. Events of other jobs, and events without states, change nothing.
pub data Follows (id : ℕ) : List Event → Option JobState → Type 0 where
  blank : Follows id [] none
  elsewhere :
      {e : Event} {es : List Event} {s : Option JobState}
      → e.job ≢ id
      → Follows id es s
      → Follows id (e ∷ es) s
  remark :
      {e : Event} {es : List Event} {s : Option JobState}
      → e.to_state ≡ none
      → Follows id es s
      → Follows id (e ∷ es) s
  birth :
      {e : Event} {es : List Event}
      → e.job ≡ id
      → e.from_state ≡ none
      → e.to_state ≡ some created
      → Follows id es none
      → Follows id (e ∷ es) (some created)
  moves :
      {e : Event} {es : List Event} {s t : JobState}
      → e.job ≡ id
      → e.from_state ≡ some s
      → e.to_state ≡ some t
      → s ⟶ t
      → Follows id es (some s)
      → Follows id (e ∷ es) (some t)

-- The log brings every job to the state of its row, and to none where there is no row.
abbrev pub IsLogged : Db → Type 0
IsLogged db = (id : ℕ) → Follows id db.events (state (get_job id db.jobs))

-- An update that keeps ids and states keeps the log true.
pub update-IsLogged :
    (f : Job → Job)
    → ((j : Job) → (f j).id ≡ j.id)
    → ((j : Job) → (f j).state ≡ j.state)
    → (id : ℕ) → Keeps IsLogged (update_job id f)
unfolding update_job
update-IsLogged f keeps_id keeps_state id = record {
  keeps = λ db h k.
      subst (Follows k db.events)
        (sym (field_of-update (λ j. j.state) f keeps_id keeps_state k id db.jobs)) (h k);
}

pub remark-IsLogged : (e : Event) → e.to_state ≡ none → Keeps IsLogged (insert_job_event e)
unfolding insert_job_event
remark-IsLogged e no_state = record { keeps = λ db h k. remark no_state (h k) }

pub check_transition-ok :
    (s t : JobState) (db : Db)
    → ((check_transition s t db ≡ ok (tt, db)) × (s ⟶ t))
      ⊎ (check_transition s t db ≡ err (illegal_transition s t))
unfolding check_transition
check_transition-ok s t db = elim (Bool-cases (allows s t)) [
  | inl e ↦ inl (rw (transition-name s t, e, check_transition), allows_sound s t e)
  | inr e ↦ inr (rw (transition-name s t, e, check_transition))
]

pub require_job-none :
    (id : ℕ) (db : Db) → get_job id db.jobs ≡ none → require_job id db ≡ err job_not_found
unfolding require_job
require_job-none id db e = rw (e, require_job)

pub require_job-some :
    (id : ℕ) (db : Db) {j : Job} → get_job id db.jobs ≡ some j → require_job id db ≡ ok (j, db)
unfolding require_job
require_job-some id db e = rw (e, require_job)

-- The store after a transition.
abbrev pub moved_db : ℕ → ℕ → JobState → Option Text → JobState → Db → Db
moved_db now id to reason from db = record db {
  jobs = update_jobs id (with_state now to reason) db.jobs;
  events = move_event id from to ∷ db.events;
}

-- A transition finds no job, is refused, or follows an edge of the diagram and writes it down.
pub apply_transition-cases :
    (now id : ℕ) (to : JobState) (reason : Option Text) (db : Db)
    → ((get_job id db.jobs ≡ none) × (apply_transition now id to reason db ≡ err job_not_found))
      ⊎ ((j : Job) × (get_job id db.jobs ≡ some j)
          × (((j.state ⟶ to)
                × (apply_transition now id to reason db
                    ≡ ok (tt, moved_db now id to reason j.state db)))
              ⊎ (apply_transition now id to reason db ≡ err (illegal_transition j.state to))))
unfolding apply_transition update_job_state update_job insert_job_event
apply_transition-cases now id to reason db = elim (Option-cases (get_job id db.jobs)) [
  | inl e ↦ inl (e, rw (require_job-none id db e, ◌>>=◌))
  | inr (j, e) ↦ inr (
    j,
    e,
    elim (check_transition-ok j.state to db) [
      | inl (f, edge) ↦ inl (edge, rw (require_job-some id db e, ◌>>=◌, f))
      | inr f ↦ inr (rw (require_job-some id db e, ◌>>=◌, f))
    ],
  )
]

-- An edge of the diagram is followed.
pub apply_transition-allowed :
    (now id : ℕ) (to : JobState) (reason : Option Text) (db : Db) (j : Job)
    → get_job id db.jobs ≡ some j
    → allows j.state to ≡ true
    → apply_transition now id to reason db ≡ ok (tt, moved_db now id to reason j.state db)
unfolding apply_transition update_job_state update_job insert_job_event check_transition
apply_transition-allowed now id to reason db j e legal =
    let checked : check_transition j.state to db ≡ ok (tt, db) =
      rw (transition-name j.state to, legal, check_transition) in
    rw (require_job-some id db e, ◌>>=◌, checked)

pub apply_transition-refused :
    (now id : ℕ) (to : JobState) (reason : Option Text) (db : Db) (j : Job)
    → get_job id db.jobs ≡ some j
    → allows j.state to ≡ false
    → apply_transition now id to reason db ≡ err (illegal_transition j.state to)
unfolding apply_transition check_transition
apply_transition-refused now id to reason db j e barred =
    let checked : check_transition j.state to db ≡ err (illegal_transition j.state to) =
      rw (transition-name j.state to, barred, check_transition) in
    rw (require_job-some id db e, ◌>>=◌, checked)

pub with_state-id :
    (now : ℕ) (to : JobState) (reason : Option Text) (j : Job)
    → (with_state now to reason j).id ≡ j.id
unfolding with_state
with_state-id now to reason j = refl

pub with_state-state :
    (now : ℕ) (to : JobState) (reason : Option Text) (j : Job)
    → (with_state now to reason j).state ≡ to
unfolding with_state
with_state-state now to reason j = refl

moved-Follows :
    (now id : ℕ) (to : JobState) (reason : Option Text) (db : Db) (j : Job)
    → get_job id db.jobs ≡ some j
    → (j.state ⟶ to)
    → IsLogged db
    → IsLogged (moved_db now id to reason j.state db)
unfolding move_event
moved-Follows now id to reason db j found edge h k = elim (Bool-cases (k == id)) [
  | inl e ↦
      let same_id : k ≡ id = (==_iff k id).0 e in
      let after : state (get_job k (update_jobs id (with_state now to reason) db.jobs)) ≡ some to =
        subst (λ i. state (get_job i (update_jobs id (with_state now to reason) db.jobs)) ≡ some to)
          (sym same_id)
          (ap state (
              get_job-update (with_state now to reason) (with_state-id now to reason) id db.jobs
                found)
            ∙ ap some (with_state-state now to reason j)) in
      let before : state (get_job k db.jobs) ≡ some j.state =
        ap (λ i. state (get_job i db.jobs)) same_id ∙ ap state found in
      subst (Follows k (move_event id j.state to ∷ db.events)) (sym after)
        (moves (sym same_id) refl refl edge (subst (Follows k db.events) before (h k)))
  | inr e ↦
      let other : k ≢ id = λ q. ground (arith, e, q) in
      elsewhere (λ q. other (sym q))
        (subst (Follows k db.events)
          (ap state (
            sym (
              get_job-update_other (with_state now to reason) (with_state-id now to reason) k id
                db.jobs other)))
          (h k))
]

-- A transition keeps the log true.
pub apply_transition-IsLogged :
    (now id : ℕ) (to : JobState) (reason : Option Text)
    → Keeps IsLogged (apply_transition now id to reason)
apply_transition-IsLogged now id to reason = record {
  keeps = λ db h. elim (apply_transition-cases now id to reason db) [
    | inl (e, f) ↦ subst (Leaves IsLogged) (sym f) tt
    | inr (j, e, inl (edge, f)) ↦
        subst (Leaves IsLogged) (sym f) (moved-Follows now id to reason db j e edge h)
    | inr (j, e, inr f) ↦ subst (Leaves IsLogged) (sym f) tt
  ];
}

pub require_job-Keeps {ℓ} : (P : Db → Type ℓ) (id : ℕ) → Keeps P (require_job id)
require_job-Keeps P id = record {
  keeps = λ db h. elim (Option-cases (get_job id db.jobs)) [
    | inl e ↦ subst (Leaves P) (sym (require_job-none id db e)) tt
    | inr (j, e) ↦ subst (Leaves P) (sym (require_job-some id db e)) h
  ];
}
