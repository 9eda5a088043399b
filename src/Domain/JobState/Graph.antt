-- ===== src/Domain/JobState/Graph.antt =====
-- The diagram that the transition table of job-state.js draws.
use Prim.Native.String.{String}
use text.Mathlib.Text.{◌==◌ as str_eq}
use text.Mathlib.TextEquality.{eq_iff}
use ash_ml.Base.{
  Bool-cases, Option-cases, subst, find-some, if◌then◌else◌, ◌≡◌, refl, ◌↔◌, ◌⊎◌, inl, inr, true,
  false, none, some, ◌≢◌,
}
use ash_ml.Domain.JobState.{
  JobState, created, queued, scheduling, starting, running, succeeded, failed, retrying, cancelling,
  cancelled, name, all_states, parse, launched, terminal, allows, can_transition, transition, moved,
  refused, illegal, unknown_state, unknown_target,
}

infix 40 ◌⟶◌ ◌⟶*◌
pub data ◌⟶◌ : JobState → JobState → Type 0 where
  enqueue : created ⟶ queued
  drop : created ⟶ cancelled
  claim : queued ⟶ scheduling
  withdraw : queued ⟶ cancelling
  reject : queued ⟶ failed
  launch : scheduling ⟶ starting
  requeue : scheduling ⟶ queued
  abort : scheduling ⟶ cancelling
  misplace : scheduling ⟶ failed
  run : starting ⟶ running
  miss : starting ⟶ failed
  halt : starting ⟶ cancelling
  finish : running ⟶ succeeded
  crash : running ⟶ failed
  stop : running ⟶ cancelling
  retry : failed ⟶ retrying
  readmit : retrying ⟶ queued
  relapse : retrying ⟶ failed
  settle : cancelling ⟶ cancelled

ruleset edges = (
  enqueue, drop, claim, withdraw, reject, launch, requeue, abort, misplace, run, miss, halt, finish,
  crash, stop, retry, readmit, relapse, settle,
)

pub data ◌⟶*◌ : JobState → JobState → Type 0 where
  stay : {s : JobState} → s ⟶* s
  via : {s t u : JobState} → s ⟶ t → t ⟶* u → s ⟶* u

pub allows_sound : (s t : JobState) → allows s t ≡ true → s ⟶ t
unfolding allows
allows_sound created queued h = enqueue
allows_sound created cancelled h = drop
allows_sound queued scheduling h = claim
allows_sound queued cancelling h = withdraw
allows_sound queued failed h = reject
allows_sound scheduling starting h = launch
allows_sound scheduling queued h = requeue
allows_sound scheduling cancelling h = abort
allows_sound scheduling failed h = misplace
allows_sound starting running h = run
allows_sound starting failed h = miss
allows_sound starting cancelling h = halt
allows_sound running succeeded h = finish
allows_sound running failed h = crash
allows_sound running cancelling h = stop
allows_sound failed retrying h = retry
allows_sound retrying queued h = readmit
allows_sound retrying failed h = relapse
allows_sound cancelling cancelled h = settle
allows_sound _ _ h = cc

pub allows_complete : {s t : JobState} → s ⟶ t → allows s t ≡ true
unfolding allows
allows_complete enqueue = refl
allows_complete _ = refl

pub allows_iff : (s t : JobState) → (allows s t ≡ true) ↔ (s ⟶ t)
allows_iff s t = (allows_sound s t, allows_complete)

pub parse-name : (s : JobState) → parse (name s) ≡ some s
unfolding parse
parse-name created = refl
parse-name _ = refl

-- A text is read as a state exactly when it is the name of that state.
pub parse_iff : (text : String) (s : JobState) → (parse text ≡ some s) ↔ (name s ≡ text)
unfolding parse
parse_iff text s = (
  λ h. (eq_iff (name s) text).0 (find-some (λ t. str_eq (name t) text) all_states h).0,
  λ e. subst (λ x. parse x ≡ some s) e (parse-name s),
)

can_transition-name : (s t : JobState) → can_transition (name s) (name t) ≡ allows s t
unfolding can_transition allows
can_transition-name created t = refl
can_transition-name queued t = refl
can_transition-name _ t = refl

pub transition-name :
    (s t : JobState)
    → transition (name s) (name t)
      ≡ (if allows s t then moved t else refused (illegal (name s) (name t)))
unfolding transition
transition-name s t = rw (parse-name s, parse-name t, can_transition-name s t, transition)

unknown-source :
    (from to : String) → parse from ≡ none → transition from to ≡ refused (unknown_state from)
unfolding transition
unknown-source from to e = rw (e, transition)

unknown-target :
    (s : JobState) (to : String)
    → parse to ≡ none
    → transition (name s) to ≡ refused (unknown_target to)
unfolding transition
unknown-target s to e = rw (parse-name s, e, transition)

moved-name : (s u t : JobState) → transition (name s) (name u) ≡ moved t → (s ⟶ t) × (u ≡ t)
moved-name s u t h = elim (Bool-cases (allows s u)) [
  | inl e ↦
      let same_state : u ≡ t = cc (rw (transition-name s u, e) at h) in
      (subst (λ x. s ⟶ x) same_state (allows_sound s u e), same_state)
  | inr e ↦ absurd (cc (rw (transition-name s u, e) at h))
]

-- `transition` gives a state exactly when both texts name states that an edge of the diagram
-- joins, and the state that it gives is the one that the second text names.
pub transition_iff :
    (from to : String) (t : JobState)
    → (transition from to ≡ moved t) ↔ ((s : JobState) × (name s ≡ from) × (name t ≡ to) × (s ⟶ t))
unfolding transition
transition_iff from to t = (there_way, back_way)
  where
    there_way :
        transition from to ≡ moved t → (s : JobState) × (name s ≡ from) × (name t ≡ to) × (s ⟶ t)
    there_way h = elim (Option-cases (parse from)) [
      | inl e ↦ absurd (cc (h, unknown-source from to e))
      | inr (s, e) ↦
          let named = (parse_iff from s).0 e in
          elim (Option-cases (parse to)) [
            | inl f ↦ absurd (cc (h, rw named at (unknown-target s to f)))
            | inr (u, f) ↦
                let target = (parse_iff to u).0 f in
                let (step, e') = moved-name s u t (rw (named, target) h) in
                (s, named, subst (λ x. name x ≡ to) e' target, step)
          ]
    ]

    back_way :
        (s : JobState) × (name s ≡ from) × (name t ≡ to) × (s ⟶ t) → transition from to ≡ moved t
    back_way (s, e, f, step) = rw (← e, ← f, transition-name s t, allows_complete step)

-- The states on a path, its ends included.
abbrev pub Through : JobState → {s t : JobState} → s ⟶* t → Type 0
Through x (stay {s}) = s ≡ x
Through x (via {s} e p) = (s ≡ x) ⊎ Through x p

step_launched : {s t : JobState} → s ⟶ t → launched s ≡ true → (s ≡ retrying) ⊎ (launched t ≡ true)
unfolding launched
step_launched readmit h = inl refl
step_launched enqueue h = cc
step_launched drop h = cc
step_launched claim h = cc
step_launched requeue h = cc
step_launched _ h = inr refl

-- A job that has been launched comes back to a state before its launch only through RETRYING.
pub relaunch-Through_retrying :
    {s t : JobState} (p : s ⟶* t) → launched s ≡ true → launched t ≡ false → Through retrying p
relaunch-Through_retrying stay h k = cc
relaunch-Through_retrying (via e p) h k = elim (step_launched e h) [
  | inl r ↦ inl r
  | inr l ↦ inr (relaunch-Through_retrying p l k)
]

-- whether a state can be succeeded only after RUNNING is passed
step_unfinished : {s t : JobState} → s ⟶ t → s ≢ succeeded → (s ≡ running) ⊎ (t ≢ succeeded)
step_unfinished finish h = inl refl
step_unfinished enqueue h = inr (λ e. cc)
step_unfinished _ h = inr (λ e. cc)

-- A job succeeds only through RUNNING.
pub succeeded-Through_running :
    {s : JobState} (p : s ⟶* succeeded) → s ≢ succeeded → Through running p
succeeded-Through_running stay h = absurd (h refl)
succeeded-Through_running (via e p) h = elim (step_unfinished e h) [
  | inl r ↦ inl r
  | inr l ↦ inr (succeeded-Through_running p l)
]

terminal_iff : (s : JobState) → (terminal s ≡ true) ↔ ((t : JobState) → ¬ (s ⟶ t))
unfolding terminal
terminal_iff created = ((λ h. cc), λ f. absurd (f queued enqueue))
terminal_iff queued = ((λ h. cc), λ f. absurd (f scheduling claim))
terminal_iff scheduling = ((λ h. cc), λ f. absurd (f starting launch))
terminal_iff starting = ((λ h. cc), λ f. absurd (f running run))
terminal_iff running = ((λ h. cc), λ f. absurd (f failed crash))
terminal_iff succeeded = ((λ h t. elim [ ]), λ f. refl)
terminal_iff failed = ((λ h. cc), λ f. absurd (f retrying retry))
terminal_iff retrying = ((λ h. cc), λ f. absurd (f queued readmit))
terminal_iff cancelling = ((λ h. cc), λ f. absurd (f cancelled settle))
terminal_iff cancelled = ((λ h t. elim [ ]), λ f. refl)

-- No state is a dead end: a terminal state can be reached from each.
pub reaches_terminal : (s : JobState) → (t : JobState) × (s ⟶* t) × (terminal t ≡ true)
unfolding terminal
reaches_terminal created = (cancelled, via drop stay, refl)
reaches_terminal queued = (cancelled, via withdraw (via settle stay), refl)
reaches_terminal scheduling = (cancelled, via abort (via settle stay), refl)
reaches_terminal starting = (cancelled, via halt (via settle stay), refl)
reaches_terminal running = (succeeded, via finish stay, refl)
reaches_terminal succeeded = (succeeded, stay, refl)
reaches_terminal failed =
    (cancelled, via retry (via readmit (via withdraw (via settle stay))), refl)
reaches_terminal retrying = (cancelled, via readmit (via withdraw (via settle stay)), refl)
reaches_terminal cancelling = (cancelled, via settle stay, refl)
reaches_terminal cancelled = (cancelled, stay, refl)
