-- ===== src/Domain/ModelStatus.antt =====
-- packages/server/src/domain/model-status.js: the lifecycle of a model version. A status that a
-- caller asks for is one of the four: the routes accept no other text.
use ash_ml.Base.{Bool, true, false, List, [], ◌∷◌, any, length, ◌==◌, if◌then◌else◌}

pub data ModelStatus : Type 0 where
  created staging production archived : ModelStatus

-- `===` on two statuses.
unfoldable pub same : ModelStatus → ModelStatus → Bool
same created created = true
same staging staging = true
same production production = true
same archived archived = true
same _ _ = false

-- The table `TRANSITIONS`.
unfoldable pub transitions : ModelStatus → List ModelStatus
transitions created = staging ∷ production ∷ archived ∷ []
transitions staging = production ∷ created ∷ archived ∷ []
transitions production = staging ∷ archived ∷ []
transitions archived = []

abbrev pub initial_status : ModelStatus
initial_status = created

unfoldable pub is_terminal : ModelStatus → Bool
unfolding transitions
is_terminal s = length (transitions s) == 0

unfoldable pub can_transition : ModelStatus → ModelStatus → Bool
unfolding transitions same
can_transition from to = any (λ s. same s to) (transitions from)

unfoldable pub is_exclusive : ModelStatus → Bool
unfolding same
is_exclusive s = same s production

abbrev pub displaced_to : ModelStatus
displaced_to = staging

-- `transition`: the error carries both ends, and says whether the first is final.
pub data Moved : Type 0 where
  moved : ModelStatus → Moved
  illegal : ModelStatus → ModelStatus → Bool → Moved

unfoldable pub transition : ModelStatus → ModelStatus → Moved
unfolding can_transition is_terminal
transition from to = if can_transition from to then moved to else illegal from to (is_terminal from)
