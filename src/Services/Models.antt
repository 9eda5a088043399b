-- ===== src/Services/Models.antt =====
-- packages/server/src/services/models.js with the queries of packages/server/src/repos/models.js
-- that it makes, on the versions of one model. Each call is one transaction under the lock of the
-- model's row, so calls follow one another. Metrics, descriptions and the ids that a version only
-- carries along are left out.
pub mod Promotion
pub mod Current
pub mod Registration
pub mod History
use Prim.Native.Nat.{max}
use Prim.Native.String.{String}
use text.Mathlib.Text.{◌==◌ as str_eq}
use ash_ml.Base.{
  ℕ, ◌+◌, Bool, true, false, not, Option, none, some, List, [], ◌∷◌, ◌++◌, map, find, keep, ◌==◌,
  ltb, if◌then◌else◌,
}
use ash_ml.Domain.ModelStatus.{
  ModelStatus, same, initial_status, is_exclusive, displaced_to, production, Moved, moved, illegal,
  transition,
}
use ash_ml.Domain.ArtifactStatus
use ash_ml.Domain.ArtifactStatus.{ArtifactStatus, ready}

pub record Version : Type 0 where
  pub id : ℕ
  pub version : ℕ
  pub artifact_id : ℕ
  pub status : ModelStatus
  pub promoted_at : Option ℕ

pub record Artifact : Type 0 where
  pub id : ℕ
  pub status : ArtifactStatus
  pub project : Option String

pub data Error : Type 0 where
  model_not_found version_not_found artifact_not_found artifact_project_mismatch : Error
  artifact_not_ready : ArtifactStatus → Error
  illegal_transition : ModelStatus → ModelStatus → Error

pub data Result {κ} (B : Type κ) : Type κ where
  err : Error → Result B
  ok : B → Result B

-- What follows a throw is skipped.
infixl 5 ◌>>=◌
abbrev pub ◌>>=◌ {κ ν} : {B : Type κ} {C : Type ν} → Result B → (B → Result C) → Result C
err thrown >>= next = err thrown
ok b >>= next = next b

infixl 5 ◌>>◌
abbrev pub ◌>>◌ {κ} : {C : Type κ} → Result (Unit {0}) → Result C → Result C
check >> next = check >>= λ _. next

abbrev pub or_fail {ℓ} : {A : Type ℓ} → Option A → Error → Result A
or_fail none e = err e
or_fail (some a) e = ok a

-- `if (!…) throw`.
abbrev pub require : Error → Bool → Result (Unit {0})
require thrown false = err thrown
require thrown true = ok tt

-- `getVersion`, `getVersionById` and `lockVersionsWithStatus`.
unfoldable pub get_version : ℕ → List Version → Option Version
get_version n = find (λ v. v.version == n)

unfoldable pub get_by_id : ℕ → List Version → Option Version
get_by_id id = find (λ v. v.id == id)

unfoldable pub with_status : ModelStatus → List Version → List Version
with_status s = keep (λ v. same v.status s)

-- `setVersionStatus`: `stamp` is the time where the promotion is stamped.
unfoldable pub change : ℕ → ModelStatus → Option ℕ → Version → Version
change id s none v = if v.id == id then record v { status = s } else v
change id s (some now) v = if v.id == id then record v { status = s; promoted_at = some now } else v

unfoldable pub set_version_status : ℕ → ModelStatus → Option ℕ → List Version → List Version
unfolding change
set_version_status id s stamp = map (change id s stamp)

-- A turn of the loop over the incumbents, and the loop, with `displaced`.
unfoldable pub displace_one :
    ℕ → Version → List Version × Option Version → List Version × Option Version
unfolding set_version_status get_by_id
displace_one target i (versions, displaced) =
    let next = set_version_status i.id displaced_to none versions in
    if i.id == target then (versions, displaced) else (next, get_by_id i.id next)

unfoldable pub displace :
    ℕ → List Version → List Version × Option Version → List Version × Option Version
unfolding displace_one
displace target [] state = state
displace target (i ∷ incumbents) state = displace target incumbents (displace_one target i state)

unfoldable pub displace_incumbents : ℕ → ModelStatus → List Version → List Version × Option Version
unfolding displace with_status is_exclusive
displace_incumbents target s versions =
    if is_exclusive s
    then displace target (with_status s versions) (versions, none)
    else (versions, none)

abbrev pub check_move : Moved → Result (Unit {0})
check_move (moved s) = ok tt
check_move (illegal from to final) = err (illegal_transition from to)

-- What `setStatus` leaves and returns: the versions, the version that moved and the one displaced.
pub record Changed : Type 0 where
  pub versions : List Version
  pub version : Option Version
  pub displaced : Option Version

-- The writes of `setStatus`, behind its checks.
unfoldable pub apply_status : ℕ → List Version → Version → ModelStatus → Changed
unfolding displace_incumbents set_version_status get_by_id
apply_status now versions target s =
    let (cleared, displaced) = displace_incumbents target.id s versions in
    let stamp = if same s production then some now else none in
    let after = set_version_status target.id s stamp cleared in
    record { versions = after; version = get_by_id target.id after; displaced = displaced }

-- `setStatus`; the versions are `none` where the model is not found.
unfoldable pub set_status : ℕ → Option (List Version) → ℕ → ModelStatus → Result Changed
unfolding transition get_version apply_status
set_status now model n s = do
  versions ← or_fail model model_not_found
  target ← or_fail (get_version n versions) version_not_found
  check_move (transition target.status s)
  ok (apply_status now versions target s)

-- `nextVersionNumber`.
unfoldable pub max_version : List Version → ℕ
max_version [] = 0
max_version (v ∷ vs) = max v.version (max_version vs)

abbrev pub is_text : Option String → String → Bool
is_text none name = false
is_text (some text) name = str_eq text name

unfoldable pub new_version : ℕ → List Version → Artifact → Version
unfolding max_version
new_version id versions artifact = record {
  id = id;
  version = max_version versions + 1;
  artifact_id = artifact.id;
  status = initial_status;
  promoted_at = none;
}

-- `registerVersion`; `id` is what the insertion returns.
unfoldable pub register_version :
    ℕ → Option (List Version) → String → Option Artifact → Result (List Version × Version)
unfolding new_version
register_version id model project found = do
  versions ← or_fail model model_not_found
  artifact ← or_fail found artifact_not_found
  require (artifact_not_ready artifact.status) (ArtifactStatus.same artifact.status ready)
  require artifact_project_mismatch (is_text artifact.project project)
  let version = new_version id versions artifact
  ok (versions ++ version ∷ [], version)

-- `getProductionVersion`: the first of the versions in PRODUCTION, the newest before the others.
unfoldable pub newer : Version → Option Version → Option Version
newer v none = some v
newer v (some w) = if ltb v.version w.version then some w else some v

unfoldable pub newest : List Version → Option Version
unfolding newer
newest [] = none
newest (v ∷ vs) = newer v (newest vs)

unfoldable pub get_production_version : Option (List Version) → Result (Option Version)
unfolding newest with_status
get_production_version model = do
  versions ← or_fail model model_not_found
  ok (newest (with_status production versions))
