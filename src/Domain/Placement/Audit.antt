-- ===== src/Domain/Placement/Audit.antt =====
-- The rows by which `placeJob` explains itself.
use Prim.Native.String.{String}
use text.Mathlib.Text.{◌==◌ as str_eq}
use text.Mathlib.TextEquality.{eq_iff}
use mathlib.Core.List.{Perm}
use mathlib.Core.List.Perm
use ash_ml.Base.{
  ℕ, ◌≡◌, ◌≢◌, refl, sym, ap, inl, inr, false, not, Option, none, some, List, [], ◌∷◌, map, keep,
  In, here, there, All, All-In, arith, Bool-cases, ℤ, sum_by, suc, ◌+◌, sum_by-sort_by, sub_ℕ,
}
use ash_ml.Domain.Quota.{Request}
use ash_ml.Domain.Placement.Capacity.{Node}
use ash_ml.Domain.Placement.Evaluate.{Evaluation, fits, rejected, evaluate_node, Reject, code}
use ash_ml.Domain.Placement.Place.{
  selected, Entry, Candidate, Row, evaluated, fitting, row_of, decision_row, rank, conclude,
  place_job, Blocker, count_code, count_one, count_all, summarise,
}
use ash_ml.Domain.Placement.Best.{fitting-In, sorted-head, Evaluation-cases}

abbrev pub DistinctNames : List Node → Type 0
DistinctNames [] = Unit
DistinctNames (n ∷ ns) = All (λ m. m.name ≢ n.name) ns × DistinctNames ns

abbrev nodes_of : List Row → List Node
nodes_of = map (λ r. r.node)

abbrev other_nodes : Node → List Node → List Node
other_nodes w = keep (λ n. not (str_eq n.name w.name))

not-same : (a b : String) → a ≢ b → str_eq a b ≡ false
not-same a b h = elim (Bool-cases (str_eq a b)) [
  | inl e ↦ absurd (h ((eq_iff a b).0 e))
  | inr e ↦ e
]

keep-All : (w : Node) (ns : List Node) → All (λ m. m.name ≢ w.name) ns → other_nodes w ns ≡ ns
keep-All w [] h = refl
keep-All w (n ∷ ns) h = rw (not-same n.name w.name h.0) (ap (λ l. n ∷ l) (keep-All w ns h.1))

-- Distinct names: taking one node out by its name takes out that node alone.
take_out : {w : Node} {ns : List Node} → In w ns → DistinctNames ns → Perm ns (w ∷ other_nodes w ns)
take_out {w} (here {xs}) d =
    rw ((eq_iff w.name w.name).1 refl, keep-All w xs d.0) (Perm.refl (w ∷ xs))
take_out {w} (there {x} {xs} m) d =
    rw (not-same x.name w.name (λ e. All-In (λ y. y.name ≢ x.name) xs d.0 m (sym e)))
      (Perm.trans (Perm.cons x (take_out m d.1)) (Perm.swap w x (other_nodes w xs)))

row-node :
    (w : Option Node) (request : Request) (n : Node) (e : Evaluation)
    → (row_of w request n e).node ≡ n
unfolding row_of
row-node w request n (fits f) = refl
row-node w request n (rejected r) = refl

row-outcome :
    (w : Option Node) (request : Request) (n : Node) (e : Evaluation)
    → (row_of w request n e).outcome ≢ selected
unfolding row_of
row-outcome w request n (fits f) h = cc
row-outcome w request n (rejected r) h = cc

rows-nodes :
    (w : Option Node) (request : Request) (ns : List Node)
    → nodes_of (map (decision_row w request) (evaluated request ns)) ≡ ns
unfolding evaluated decision_row
rows-nodes w request [] = refl
rows-nodes w request (n ∷ ns) =
    rw (row-node w request n (evaluate_node n request)) (ap (λ l. n ∷ l) (rows-nodes w request ns))

kept-nodes :
    (w : Node) (request : Request) (ns : List Node)
    → nodes_of (
        map
          (decision_row (some w) request)
          (keep (λ e. not (str_eq e.node.name w.name)) (evaluated request ns)))
      ≡ other_nodes w ns
unfolding evaluated decision_row
kept-nodes w request [] = refl
kept-nodes w request (n ∷ ns) = elim (Bool-cases (str_eq n.name w.name)) [
  | inl e ↦ rw e (kept-nodes w request ns)
  | inr e ↦
      rw (e, row-node (some w) request n (evaluate_node n request))
        (ap (λ l. n ∷ l) (kept-nodes w request ns))
]

module _ (locale_compare : String → String → ℤ) where
  conclude-rows :
      (request : Request) (ns : List Node) (cs : List Candidate)
      → ((w : Candidate) (rest : List Candidate) → cs ≡ w ∷ rest → In w.node ns)
      → DistinctNames ns
      → Perm ns (nodes_of (conclude locale_compare request (evaluated request ns) cs).decisions)
  unfolding conclude
  conclude-rows request ns [] from d = rw (rows-nodes none request ns) (Perm.refl ns)
  conclude-rows request ns (w ∷ rest) from d =
      rw (kept-nodes w.node request ns) (take_out (from w rest refl) d)

  -- Where no two nodes share a name, the rows that explain a decision name every node once.
  pub place_job-rows :
      (request : Request) (nodes : List Node)
      → DistinctNames nodes
      → Perm nodes (map (λ r. r.node) (place_job locale_compare request nodes).decisions)
  unfolding place_job rank
  place_job-rows request [] d = Perm.refl []
  place_job-rows request (n ∷ ns) d =
      conclude-rows request (n ∷ ns)
        (rank locale_compare (fitting (evaluated request (n ∷ ns))) request)
        (λ w rest e.
          (fitting-In request (n ∷ ns)
            (sorted-head locale_compare request (fitting (evaluated request (n ∷ ns))) w rest e)).0)
        d

-- `summarise` counts every rejected node under one code.
count_code-total :
    (c : Reject) (bs : List Blocker)
    → sum_by (λ b. b.count) (count_code c bs) ≡ suc (sum_by (λ b. b.count) bs)
unfolding count_code
count_code-total c [] = refl
count_code-total c (b ∷ bs) = ground (arith, count_code-total c bs)

abbrev is_rejected : Evaluation → ℕ
is_rejected (fits f) = 0
is_rejected (rejected r) = 1

-- How many entries were rejected.
abbrev pub rejections : List Entry → ℕ
rejections [] = 0
rejections (e ∷ es) = is_rejected e.evaluation + rejections es

count_all-total :
    (bs : List Blocker) (es : List Entry)
    → sum_by (λ b. b.count) (count_all bs es) ≡ sum_by (λ b. b.count) bs + rejections es
unfolding count_all count_one
count_all-total bs [] = omega arith
count_all-total bs (e ∷ es) = elim (Evaluation-cases e.evaluation) [
  | inl (f, h) ↦ rw (h, count_one) (omega (arith, count_all-total bs es))
  | inr (r, h) ↦
      rw (h, count_one)
        (omega (arith, count_all-total (count_code (code r) bs) es, count_code-total (code r) bs))
]

-- The counts that `summarise` shows add up to the number of nodes that were rejected.
pub summarise-total : (es : List Entry) → sum_by (λ b. b.count) (summarise es) ≡ rejections es
unfolding summarise
summarise-total es = omega (
  arith,
  sum_by-sort_by (λ a b. sub_ℕ b.count a.count) (λ b. b.count) (count_all [] es),
  count_all-total [] es,
)
