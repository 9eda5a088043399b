-- ===== src/Tests/Rotation.antt =====
-- The router after a request that did not reach the canary.
use ash_ml.Base.{
  ◌^◌, ℕ, ◌≡◌, ◌≢◌, ◌≤◌, ◌<◌, refl, true, false, none, some, List, [], ◌∷◌, map, In, ◌or_else◌,
}
use ash_ml.Base.Double.{Double}
use ash_ml.Domain.Routing.Choice.{Target, only_ready, choose_target}
use ash_ml.Router.{body, refresh, get, set, is_cooling, view, targets, mark_unreachable}
use ash_ml.Router.Beliefs.{
  Event, refreshes, fails, step, run, last_good, cooling_until, believed, targets-believed,
  choose_target-run,
}

abbrev old : Target
old = record { version = 6; weight = 90; ready = none }

abbrev canary : Target
canary = record { version = 7; weight = 10; ready = some true }

abbrev history : List Event
history = fails 90 7 ∷ refreshes 0 (body (some (old ∷ canary ∷ []))) ∷ []

abbrev middle : Double
middle = 2 ^ 1073

targets-believed_example :
    targets 100 (run history) ≡ map (believed 100 history) (last_good history or_else [])
targets-believed_example = targets-believed 100 history

choose_target-run_example :
    (u : Target) × In u (last_good history or_else [])
    × (6 ≡ u.version)
    × (0 < u.weight)
    × (u.ready ≢ some false)
    × ((end : ℕ) → cooling_until u.version history ≡ some end → end ≤ 100)
unfolding choose_target targets view is_cooling run step refresh mark_unreachable get set
choose_target-run_example =
    choose_target-run 100 history none middle
      (record { target = record old { ready = some true }; reason = only_ready }) refl
