-- ===== src/Domain/ArtifactStatus.antt =====
-- packages/server/src/domain/artifact-status.js: the lifecycle of an artifact row.
use ash_ml.Base.{Bool, true, false, List, [], ◌∷◌, any, length, ◌==◌, if◌then◌else◌}

pub data ArtifactStatus : Type 0 where
  pending ready failed : ArtifactStatus

-- `===` on two statuses.
unfoldable pub same : ArtifactStatus → ArtifactStatus → Bool
same pending pending = true
same ready ready = true
same failed failed = true
same _ _ = false

-- The table `TRANSITIONS`.
unfoldable pub transitions : ArtifactStatus → List ArtifactStatus
transitions pending = ready ∷ failed ∷ []
transitions ready = []
transitions failed = []

unfoldable pub is_usable : ArtifactStatus → Bool
unfolding same
is_usable s = same s ready

unfoldable pub can_transition : ArtifactStatus → ArtifactStatus → Bool
unfolding transitions same
can_transition from to = any (λ s. same s to) (transitions from)

-- `transition`: the error carries both ends, and says whether the first is final.
pub data Moved : Type 0 where
  moved : ArtifactStatus → Moved
  illegal : ArtifactStatus → ArtifactStatus → Bool → Moved

unfoldable pub transition : ArtifactStatus → ArtifactStatus → Moved
unfolding can_transition transitions
transition from to =
    if can_transition from to then moved to else illegal from to (length (transitions from) == 0)
