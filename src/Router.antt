-- ===== src/Router.antt =====
-- packages/router/src/routing-table.js: what the router believes about a deployment's split. The time
-- and the control plane's answers are arguments, in the place of the timer and of `fetchImpl`. A
-- document is its targets; what a target only carries along, its URL and artifact, is left out, and
-- so are the names that the status shows.
pub mod Beliefs
use ash_ml.Base.{
  ℕ, ◌+◌, Bool, true, false, not, ◌&&◌, Option, none, some, List, [], ◌∷◌, map, ltb, ◌==◌,
  if◌then◌else◌, ◌or_else◌, ℤ, pos, ◌-ℤ◌, is_some,
}
use ash_ml.Domain.Routing.Choice.{Target, not_unready}

abbrev pub failover_cooldown_ms : ℕ
failover_cooldown_ms = 5_000

-- Why a refresh failed: the request threw, the status was not ok, or the body had no targets.
pub data Failure : Type 0 where
  threw : List ℕ → Failure
  answered : ℕ → Failure
  no_targets : Failure

pub data Answer : Type 0 where
  throws : List ℕ → Answer
  not_ok : ℕ → Answer
  body : Option (List Target) → Answer

pub record State : Type 0 where
  pub table : Option (List Target)
  pub fetched_at : Option ℕ
  pub last_error : Option Failure
  pub refreshes : ℕ
  pub cooldowns : List (ℕ × ℕ)

abbrev pub initial : State
initial = record {
  table = none;
  fetched_at = none;
  last_error = none;
  refreshes = 0;
  cooldowns = [];
}

-- `describeSplit(a) === describeSplit(b)`: a text shows the versions and the weights in their order.
unfoldable pub same_split : List Target → List Target → Bool
same_split [] [] = true
same_split [] (u ∷ us) = false
same_split (t ∷ ts) [] = false
same_split (t ∷ ts) (u ∷ us) =
    let rest = same_split ts us in t.version == u.version && (t.weight == u.weight && rest)

pub data Refreshed : Type 0 where
  done : Bool → Refreshed
  failed : Failure → Refreshed

unfoldable pub has_changed : Option (List Target) → List Target → Bool
unfolding same_split
has_changed none targets = true
has_changed (some previous) targets = not (same_split previous targets)

-- The `catch` of `refresh`.
unfoldable pub note_failure : Failure → State → State × Refreshed
note_failure f s = (record s { last_error = some f }, failed f)

unfoldable pub refresh : ℕ → Answer → State → State × Refreshed
unfolding has_changed note_failure
refresh now (throws message) s = note_failure (threw message) s
refresh now (not_ok status) s = note_failure (answered status) s
refresh now (body none) s = note_failure no_targets s
refresh now (body (some targets)) s = (
  record s {
    table = some targets;
    fetched_at = some now;
    last_error = none;
    refreshes = s.refreshes + 1;
  },
  done (has_changed s.table targets),
)

-- `Map.get`, `Map.set` and `Map.delete`.
unfoldable pub get : ℕ → List (ℕ × ℕ) → Option ℕ
get k [] = none
get k ((i, v) ∷ m) = let rest = get k m in if i == k then some v else rest

unfoldable pub set : ℕ → ℕ → List (ℕ × ℕ) → List (ℕ × ℕ)
set k v [] = (k, v) ∷ []
set k v ((i, w) ∷ m) = let rest = set k v m in if i == k then (k, v) ∷ m else (i, w) ∷ rest

unfoldable pub delete : ℕ → List (ℕ × ℕ) → List (ℕ × ℕ)
delete k [] = []
delete k ((i, v) ∷ m) = let rest = delete k m in if i == k then rest else (i, v) ∷ rest

unfoldable pub is_cooling : ℕ → ℕ → State → Bool
unfolding get
is_cooling now version s = ltb now (get version s.cooldowns or_else 0)

-- A target with both views folded together.
unfoldable pub view : ℕ → State → Target → Target
unfolding is_cooling
view now s t = record t { ready = some (not_unready t.ready && not (is_cooling now t.version s)) }

unfoldable pub targets : ℕ → State → List Target
unfolding view
targets now s = map (view now s) (s.table or_else [])

unfoldable pub mark_unreachable : ℕ → ℕ → State → State
unfolding set
mark_unreachable now version s = record s {
  cooldowns = set version (now + failover_cooldown_ms) s.cooldowns;
}

unfoldable pub mark_reachable : ℕ → State → State
unfolding delete
mark_reachable version s = record s { cooldowns = delete version s.cooldowns }

-- `status`; the age is in milliseconds.
pub record Status : Type 0 where
  pub loaded : Bool
  pub age_ms : Option ℤ
  pub refreshes : ℕ
  pub last_error : Option Failure

abbrev age : ℕ → Option ℕ → Option ℤ
age now none = none
age now (some at) = some (pos now -ℤ pos at)

unfoldable pub status : ℕ → State → Status
status now s = record {
  loaded = is_some s.table;
  age_ms = age now s.fetched_at;
  refreshes = s.refreshes;
  last_error = s.last_error;
}
