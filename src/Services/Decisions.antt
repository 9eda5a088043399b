-- ===== src/Services/Decisions.antt =====
-- packages/server/src/repos/scheduling.js: how a pass of the scheduler is recorded. Two passes are
-- told apart by what they say of each node, not by the order of their rows.
use ash_ml.Base.{
  ℕ, ◌+◌, Bool, true, false, ◌&&◌, Option, none, some, List, [], ◌∷◌, ◌++◌, map, find, ltb, ◌==◌,
  if◌then◌else◌, ℤ, pos, negsuc, sort_by,
}
use ash_ml.Domain.Retry.{codes}
use ash_ml.Services.Store.{Text, Considered, Pass, ok, M}

-- The order of texts by their code units.
unfoldable pub compare_texts : Text → Text → ℤ
compare_texts [] [] = pos 0
compare_texts [] (d ∷ u) = negsuc 0
compare_texts (c ∷ t) [] = pos 1
compare_texts (c ∷ t) (d ∷ u) =
    let rest = compare_texts t u in if ltb c d then negsuc 0 else if ltb d c then pos 1 else rest

unfoldable pub key : Considered → Text
key d = d.node_name ++ codes "|" ++ d.outcome ++ codes "|" ++ d.reason

abbrev pub same_texts : Text → Text → Bool
same_texts [] [] = true
same_texts [] (d ∷ u) = false
same_texts (c ∷ t) [] = false
same_texts (c ∷ t) (d ∷ u) = c == d && same_texts t u

abbrev pub same_lists : List Text → List Text → Bool
same_lists [] [] = true
same_lists [] (u ∷ us) = false
same_lists (t ∷ ts) [] = false
same_lists (t ∷ ts) (u ∷ us) = same_texts t u && same_lists ts us

unfoldable pub keys : List Considered → List Text
unfolding key compare_texts
keys ds = sort_by compare_texts (map key ds)

unfoldable pub same_verdict : List Considered → List Considered → Bool
unfolding keys
same_verdict previous current = same_lists (keys previous) (keys current)

-- The newest pass of the job, if it has one, is counted once more.
unfoldable pub repeat_pass : ℕ → ℕ → List Pass → List Pass
repeat_pass now id [] = []
repeat_pass now id (p ∷ ps) =
    let rest = repeat_pass now id ps in
    if p.job == id
    then record p { repeat_count = p.repeat_count + 1; last_seen_at = now } ∷ ps
    else p ∷ rest

unfoldable pub newest_pass : ℕ → List Pass → Option Pass
newest_pass id = find (λ p. p.job == id)

unfoldable pub new_pass : ℕ → ℕ → ℕ → List Considered → Pass
new_pass now id attempt decisions = record {
  job = id;
  attempt = attempt;
  decisions = decisions;
  repeat_count = 1;
  last_seen_at = now;
}

unfoldable pub repeats : List Considered → Option Pass → Bool
unfolding same_verdict
repeats decisions none = false
repeats decisions (some p) = same_verdict p.decisions decisions

unfoldable pub logged : ℕ → ℕ → ℕ → List Considered → List Pass → List Pass
unfolding repeat_pass newest_pass new_pass repeats
logged now id attempt [] passes = passes
logged now id attempt (d ∷ ds) passes =
    if repeats (d ∷ ds) (newest_pass id passes)
    then repeat_pass now id passes
    else new_pass now id attempt (d ∷ ds) ∷ passes

unfoldable pub record_decisions : ℕ → ℕ → ℕ → List Considered → M (Unit {0})
unfolding logged
record_decisions now id attempt decisions db =
    ok (tt, record db { passes = logged now id attempt decisions db.passes })
