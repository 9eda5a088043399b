-- ===== src/Domain/Roles.antt =====
-- packages/server/src/domain/roles.js: who may do what. An id is a text, and so is a role as a
-- membership holds it; `memberships` is the map's list of entries, each project once.
pub mod Workloads
pub mod Users
use Prim.Native.String.{String}
use text.Mathlib.Text.{◌==◌ as str_eq}
use ash_ml.Base.{ℕ, Bool, true, false, Option, none, some, List, [], ◌∷◌, leb, if◌then◌else◌}

pub data Role : Type 0 where
  viewer editor owner : Role

-- The keys of `RANK`.
unfoldable pub parse_role : String → Option Role
parse_role text =
    if str_eq text "VIEWER"
    then some viewer
    else if str_eq text "EDITOR"
    then some editor
    else if str_eq text "OWNER"
    then some owner
    else none

unfoldable pub rank : Role → ℕ
rank viewer = 1
rank editor = 2
rank owner = 3

-- The values of `Permission`, and any other text.
pub data Permission : Type 0 where
  project_read project_write project_admin platform_admin run_report : Permission
  artifact_fetch routing_read : Permission
  other : String → Permission

-- `REQUIRED_ROLE`; `none` where `Object.hasOwn` fails.
unfoldable pub required_role : Permission → Option Role
required_role project_read = some viewer
required_role project_write = some editor
required_role project_admin = some owner
required_role artifact_fetch = some viewer
required_role routing_read = some viewer
required_role platform_admin = none
required_role run_report = none
required_role (other text) = none

unfoldable pub covers : Option Role → Role → Bool
covers none minimum = false
covers (some r) minimum = leb (rank minimum) (rank r)

-- `atLeast`; a missing role or a text that is no role is refused.
unfoldable pub at_least : Option String → Role → Bool
unfolding rank parse_role covers
at_least none minimum = false
at_least (some text) minimum = covers (parse_role text) minimum

pub data Principal : Type 0 where
  user : Bool → List (String × String) → Principal
  run : String → String → Option String → Principal
  serving : String → String → Principal

-- What the permission is asked about.
pub record Scope : Type 0 where
  pub project_id : Option String
  pub job_id : Option String
  pub experiment_id : Option String
  pub deployment_id : Option String

unfoldable pub get : List (String × String) → String → Option String
get [] k = none
get ((j, v) ∷ m) k = let rest = get m k in if str_eq j k then some v else rest

unfoldable pub role_in : Principal → String → Option String
unfolding get
role_in (user is_admin memberships) project = get memberships project
role_in (run job project experiment) p = none
role_in (serving deployment project) p = none

-- `a !== null && b === a`.
unfoldable pub is_own : Option String → String → Bool
is_own none own = false
is_own (some asked) own = str_eq own asked

-- `principal.experimentId !== null && principal.experimentId === experimentId`.
unfoldable pub is_own_experiment : Option String → String → Bool
is_own_experiment none asked = false
is_own_experiment (some own) asked = str_eq own asked

-- Rule 1, RUN_REPORT: by the job, or else by the experiment.
unfoldable pub may_report : String → Option String → Option String → Option String → Bool
unfolding is_own_experiment
may_report own_job own_experiment (some job) experiment = str_eq own_job job
may_report own_job own_experiment none (some experiment) =
    is_own_experiment own_experiment experiment
may_report own_job own_experiment none none = false

unfoldable pub run_can : String → String → Option String → Permission → Scope → Bool
unfolding may_report is_own
run_can job project experiment run_report scope =
    may_report job experiment scope.job_id scope.experiment_id
run_can job project experiment artifact_fetch scope = is_own scope.project_id project
run_can job project experiment _ scope = false

unfoldable pub serving_can : String → String → Permission → Scope → Bool
unfolding is_own
serving_can deployment project artifact_fetch scope = is_own scope.project_id project
serving_can deployment project routing_read scope = is_own scope.deployment_id deployment
serving_can deployment project _ scope = false

-- Rule 3 behind the lookup of the required role.
unfoldable pub member_can : Option Role → List (String × String) → Option String → Bool
unfolding at_least get
member_can none memberships project = false
member_can (some required) memberships none = false
member_can (some required) memberships (some project) = at_least (get memberships project) required

unfoldable pub user_can : Bool → List (String × String) → Permission → Scope → Bool
unfolding member_can required_role
user_can is_admin memberships run_report scope = false
user_can true memberships _ scope = true
user_can false memberships platform_admin scope = false
user_can false memberships permission scope =
    member_can (required_role permission) memberships scope.project_id

-- `can`; no principal is `none`.
unfoldable pub can : Option Principal → Permission → Scope → Bool
unfolding run_can serving_can user_can
can none permission scope = false
can (some (run job project experiment)) permission scope =
    run_can job project experiment permission scope
can (some (serving deployment project)) permission scope =
    serving_can deployment project permission scope
can (some (user is_admin memberships)) permission scope =
    user_can is_admin memberships permission scope
