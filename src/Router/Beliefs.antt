-- ===== src/Router/Beliefs.antt =====
-- What the router believes after any history of refreshes and requests, told without its table and its
-- map of cooldowns.
use ash_ml.Base.{
  ℕ, ◌+◌, ◌<◌, ◌≤◌, ◌≡◌, ◌≢◌, refl, ap, subst, ◌∙◌, inl, inr, Bool, true, false, not, ◌&&◌, Option,
  none, some, List, [], ◌∷◌, map, In, In-cons, here, there, not-In-nil, arith, ltb, ◌==◌,
  if◌then◌else◌, ◌or_else◌,
}
use ash_ml.Base.Double.{Double}
use ash_ml.Domain.Routing.Choice.{Target, Choice, not_unready, choose_target}
use ash_ml.Domain.Routing.Choice.Shares.{choose_target-IsEligible}
use ash_ml.Router.{
  Answer, throws, not_ok, body, State, initial, failover_cooldown_ms, refresh, get, set, delete,
  is_cooling, view, targets, mark_unreachable, mark_reachable,
}

-- A refresh with its answer, a request that did not reach a version, one that did.
pub data Event : Type 0 where
  refreshes : ℕ → Answer → Event
  fails : ℕ → ℕ → Event
  answers : ℕ → Event

unfoldable pub step : Event → State → State
unfolding refresh mark_unreachable mark_reachable
step (refreshes now answer) s = (refresh now answer s).0
step (fails now version) s = mark_unreachable now version s
step (answers version) s = mark_reachable version s

-- The newest event first.
unfoldable pub run : List Event → State
unfolding step
run [] = initial
run (e ∷ es) = step e (run es)

-- The targets of the newest refresh that was answered with some.
unfoldable pub last_good : List Event → Option (List Target)
last_good [] = none
last_good (refreshes now (body (some ts)) ∷ es) = some ts
last_good (refreshes now (body none) ∷ es) = last_good es
last_good (refreshes now (throws m) ∷ es) = last_good es
last_good (refreshes now (not_ok n) ∷ es) = last_good es
last_good (fails now v ∷ es) = last_good es
last_good (answers v ∷ es) = last_good es

-- The end of the cooldown that the newest request to a version left, if it failed.
unfoldable pub cooling_until : ℕ → List Event → Option ℕ
cooling_until v [] = none
cooling_until v (refreshes now answer ∷ es) = cooling_until v es
cooling_until v (fails now w ∷ es) =
    let before = cooling_until v es in if w == v then some (now + failover_cooldown_ms) else before
cooling_until v (answers w ∷ es) =
    let before = cooling_until v es in if w == v then none else before

-- A refresh that fails changes neither the table nor the cooldowns.
run-last_good : (es : List Event) → (run es).table ≡ last_good es
unfolding run last_good
run-last_good [] = refl
run-last_good (refreshes now (body (some ts)) ∷ es) = refl
run-last_good (refreshes now (body none) ∷ es) = run-last_good es
run-last_good (refreshes now (throws m) ∷ es) = run-last_good es
run-last_good (refreshes now (not_ok n) ∷ es) = run-last_good es
run-last_good (fails now v ∷ es) = run-last_good es
run-last_good (answers v ∷ es) = run-last_good es

get-set : (k i v : ℕ) (m : List (ℕ × ℕ)) → get k (set i v m) ≡ (if i == k then some v else get k m)
unfolding get set
get-set k i v [] = ground arith
get-set k i v ((j, w) ∷ m) = ground (arith, get-set k i v m)

get-delete : (k i : ℕ) (m : List (ℕ × ℕ)) → get k (delete i m) ≡ (if i == k then none else get k m)
unfolding get delete
get-delete k i [] = ground arith
get-delete k i ((j, w) ∷ m) = ground (arith, get-delete k i m)

run-cooling_until : (v : ℕ) (es : List Event) → get v (run es).cooldowns ≡ cooling_until v es
unfolding run cooling_until get
run-cooling_until v [] = refl
run-cooling_until v (refreshes now (body (some ts)) ∷ es) = run-cooling_until v es
run-cooling_until v (refreshes now (body none) ∷ es) = run-cooling_until v es
run-cooling_until v (refreshes now (throws m) ∷ es) = run-cooling_until v es
run-cooling_until v (refreshes now (not_ok n) ∷ es) = run-cooling_until v es
run-cooling_until v (fails now w ∷ es) =
    get-set v w (now + failover_cooldown_ms) (run es).cooldowns
    ∙ ap (λ o. if w == v then some (now + failover_cooldown_ms) else o) (run-cooling_until v es)
run-cooling_until v (answers w ∷ es) =
    get-delete v w (run es).cooldowns
    ∙ ap (λ o. if w == v then none else o) (run-cooling_until v es)

-- A target of a document, as the history lets the router see it.
abbrev pub believed : ℕ → List Event → Target → Target
believed now es t = record t {
  ready = some (not_unready t.ready && not (ltb now (cooling_until t.version es or_else 0)));
}

-- After any history of refreshes and requests, the targets are those of the newest refresh that was
-- answered with some, and none before the first; each is ready where that document does not say
-- otherwise and the newest request to its version did not fail within the cooldown.
pub targets-believed :
    (now : ℕ) (es : List Event)
    → targets now (run es) ≡ map (believed now es) (last_good es or_else [])
unfolding targets view is_cooling
targets-believed now es = rw (run-last_good es) (each (last_good es or_else []))
  where
    each : (ts : List Target) → map (view now (run es)) ts ≡ map (believed now es) ts
    each [] = refl
    each (t ∷ ts) = rw (run-cooling_until t.version es, each ts) refl

map-In :
    (f : Target → Target) (ts : List Target) {t : Target}
    → In t (map f ts)
    → (u : Target) × In u ts × (t ≡ f u)
map-In f [] m = absurd (not-In-nil m)
map-In f (x ∷ xs) m = elim (In-cons m) [
  | inl e ↦ (x, here, e)
  | inr k ↦ let (u, i, e) = map-In f xs k in (u, there i, e)
]

still-true : (b : Bool) → some b ≢ some false → b ≡ true
still-true true h = refl
still-true false h = absurd (h refl)

willing : (r : Option Bool) → not_unready r ≡ true → r ≢ some false
willing none h e = cc e
willing (some true) h e = cc e
willing (some false) h e = cc h

rested :
    (now : ℕ) (o : Option ℕ) → ltb now (o or_else 0) ≡ false → (end : ℕ) → o ≡ some end → end ≤ now
rested now none h end e = cc e
rested now (some a) h end e = ground (arith, h, e)

-- Whatever the history, a request is sent to a version to which the newest good document gives traffic,
-- which it does not call unready, and of which the newest request did not fail in the last five
-- seconds.
pub choose_target-run :
    (now : ℕ) (es : List Event) (key : Option (List ℕ)) (random : Double) (c : Choice)
    → choose_target (targets now (run es)) key random ≡ some c
    → (u : Target) × In u (last_good es or_else [])
      × (c.target.version ≡ u.version)
      × (0 < u.weight)
      × (u.ready ≢ some false)
      × ((end : ℕ) → cooling_until u.version es ≡ some end → end ≤ now)
choose_target-run now es key random c h =
    let (inside, weighs, ready) = choose_target-IsEligible (targets now (run es)) key random h in
    let (u, m, e) =
      map-In (believed now es) (last_good es or_else [])
        (subst (In c.target) (targets-believed now es) inside) in
    let content =
      still-true (not_unready u.ready && not (ltb now (cooling_until u.version es or_else 0)))
        (λ q. ready (ap (λ (t : Target). t.ready) e ∙ q)) in
    (
      u,
      m,
      ap (λ (t : Target). t.version) e,
      subst (λ k. 0 < k) (ap (λ (t : Target). t.weight) e) weighs,
      willing u.ready (ground (arith, content)),
      rested now (cooling_until u.version es) (ground (arith, content)),
    )
