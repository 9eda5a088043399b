-- ===== src/Domain/JobState.antt =====
-- packages/server/src/domain/job-state.js: the states of a job and the moves between them.
-- A state arrives from a database row or a request as a text; `parse` reads it, and a text that is
-- no state is the case that the source's `isValidState` rejects.
pub mod Graph
use Prim.Native.String.{String}
use text.Mathlib.Text.{◌==◌ as str_eq}
use ash_ml.Base.{
  Bool, true, false, not, ◌&&◌, List, [], ◌∷◌, Option, none, some, any, find, length, ◌==◌, is_some,
  if◌then◌else◌,
}

pub data JobState : Type 0 where
  created queued scheduling starting running succeeded failed retrying cancelling cancelled :
      JobState

-- The values of the frozen object `JobState`.
unfoldable pub name : JobState → String
name created = "CREATED"
name queued = "QUEUED"
name scheduling = "SCHEDULING"
name starting = "STARTING"
name running = "RUNNING"
name succeeded = "SUCCEEDED"
name failed = "FAILED"
name retrying = "RETRYING"
name cancelling = "CANCELLING"
name cancelled = "CANCELLED"

pub JobState-discrete : Discrete JobState
JobState-discrete = hlevel

-- `===` on two states.
unfoldable pub same : JobState → JobState → Bool
unfolding name
same s t = str_eq (name s) (name t)

-- The table `TRANSITIONS`.
unfoldable pub transitions : JobState → List JobState
transitions created = queued ∷ cancelled ∷ []
transitions queued = scheduling ∷ cancelling ∷ failed ∷ []
transitions scheduling = starting ∷ queued ∷ cancelling ∷ failed ∷ []
transitions starting = running ∷ failed ∷ cancelling ∷ []
transitions running = succeeded ∷ failed ∷ cancelling ∷ []
transitions failed = retrying ∷ []
transitions retrying = queued ∷ failed ∷ []
transitions cancelling = cancelled ∷ []
transitions succeeded = []
transitions cancelled = []

-- `Object.keys(TRANSITIONS)`, in the order of the table.
unfoldable pub all_states : List JobState
all_states =
    created ∷ queued ∷ scheduling ∷ starting ∷ running ∷ failed ∷ retrying ∷ cancelling ∷ succeeded
    ∷ cancelled ∷ []

-- The state that a text names: a key of the table.
unfoldable pub parse : String → Option JobState
unfolding all_states name
parse text = find (λ s. str_eq (name s) text) all_states

unfoldable pub is_valid_state : String → Bool
unfolding parse
is_valid_state text = is_some (parse text)

-- Each test below comes twice: on a state, which is how the services call it once a row is read,
-- and on a text, where a text that is no state gives `false` or the empty list.
abbrev not_yet_launched : List JobState
not_yet_launched = created ∷ queued ∷ scheduling ∷ []

unfoldable pub launched : JobState → Bool
unfolding same
launched s = not (any (same s) not_yet_launched)

unfoldable pub has_launched : String → Bool
unfolding parse launched
has_launched text = elim (parse text) [ none ↦ false | some s ↦ launched s ]

unfoldable pub terminal : JobState → Bool
unfolding transitions
terminal s = length (transitions s) == 0

unfoldable pub is_terminal : String → Bool
unfolding parse terminal
is_terminal text = elim (parse text) [ none ↦ false | some s ↦ terminal s ]

unfoldable pub outcome_states : List JobState
outcome_states = succeeded ∷ failed ∷ cancelled ∷ []

unfoldable pub is_outcome : JobState → Bool
unfolding outcome_states same
is_outcome s = any (same s) outcome_states

unfoldable pub next_states : String → List JobState
unfolding parse transitions
next_states text = elim (parse text) [ none ↦ [] | some s ↦ transitions s ]

-- `TRANSITIONS[from].includes(to)` on states.
unfoldable pub allows : JobState → JobState → Bool
unfolding transitions same
allows from to = any (λ t. same t to) (transitions from)

unfoldable pub can_transition : String → String → Bool
unfolding parse transitions name
can_transition from to = elim (parse from) [
  | none ↦ false
  | some s ↦ any (λ t. str_eq (name t) to) (transitions s)
]

-- The three messages of `IllegalTransitionError`.
pub data IllegalTransition : Type 0 where
  unknown_state : String → IllegalTransition
  unknown_target : String → IllegalTransition
  illegal : String → String → IllegalTransition

pub data Transitioned : Type 0 where
  moved : JobState → Transitioned
  refused : IllegalTransition → Transitioned

-- `transition(from, to)` on the two texts.
unfoldable pub transition : String → String → Transitioned
unfolding parse can_transition
transition from to = elim (parse from) [
  | none ↦ refused (unknown_state from)
  | some s ↦ elim (parse to) [
    | none ↦ refused (unknown_target to)
    | some t ↦ if can_transition from to then moved t else refused (illegal from to)
  ]
]
