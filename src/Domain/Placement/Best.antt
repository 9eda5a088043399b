-- ===== src/Domain/Placement/Best.antt =====
-- Which node `placeJob` chooses.
use Prim.Native.String.{String}
use ash_ml.Base.{
  ◌≡◌, ◌⊎◌, ◌↔◌, refl, sym, ap, subst, ◌∙◌, inl, inr, none, some, some-eq, List, [], ◌∷◌, In, here,
  there, In-cons, In-cons_of, not-In-nil, All, All-In, Bool-cases, Option-cases, ℤ, is_positive,
  sort_by, sort_by-In, sort_by-All, In-All, IsComparator, IsLeast, sort_by-IsLeast, Before,
}
use ash_ml.Domain.Quota.{Request}
use ash_ml.Domain.Placement.Capacity.{Node, Free, free_capacity}
use ash_ml.Domain.Placement.Evaluate.{Evaluation, Rejection, fits, rejected, evaluate_node}
use ash_ml.Domain.Placement.Fit.{Fits, evaluate_node-fits_iff, evaluate_node-free}
use ash_ml.Domain.Placement.Ranking.{Prefers, Before-Prefers, compare_candidates-IsComparator}
use ash_ml.Domain.Placement.Place.{
  Entry, Candidate, evaluated, fitting, add_fitting, compare_candidates, rank, conclude, place_job,
}

pub Evaluation-cases :
    (e : Evaluation) → ((f : Free) × (e ≡ fits f)) ⊎ ((r : Rejection) × (e ≡ rejected r))
Evaluation-cases (fits f) = inl (f, refl)
Evaluation-cases (rejected r) = inr (r, refl)

-- The candidates are the nodes that fit, with their free capacity.
pub fitting-In :
    (request : Request) (nodes : List Node) {c : Candidate}
    → In c (fitting (evaluated request nodes))
    → In c.node nodes × (evaluate_node c.node request ≡ fits c.free)
unfolding fitting evaluated
fitting-In request [] m = absurd (not-In-nil m)
fitting-In request (n ∷ ns) {c} m = elim (Evaluation-cases (evaluate_node n request)) [
  | inl (f, e) ↦ elim (In-cons (rw e at m)) [
    | inl h ↦
        let at_node : c.node ≡ n = ap (λ (d : Candidate). d.node) h in
        let with_free : c.free ≡ f = ap (λ (d : Candidate). d.free) h in
        (In-cons_of (inl at_node), rw (at_node, with_free) e)
    | inr k ↦ let (i, q) = fitting-In request ns k in (there i, q)
  ]
  | inr (r, e) ↦ let (i, q) = fitting-In request ns (rw e at m) in (there i, q)
]

add_fitting-In :
    (n : Node) (e : Evaluation) {c : Candidate} {rest : List Candidate}
    → In c rest
    → In c (add_fitting n e rest)
unfolding add_fitting
add_fitting-In n (fits f) m = there m
add_fitting-In n (rejected r) m = m

pub In-fitting :
    (request : Request) {n : Node} {nodes : List Node} (f : Free)
    → In n nodes
    → evaluate_node n request ≡ fits f
    → In (record { node = n; free = f }) (fitting (evaluated request nodes))
unfolding fitting evaluated
In-fitting request f here e = rw e here
In-fitting request f (there {x} {xs} m) e =
    add_fitting-In x (evaluate_node x request) (In-fitting request f m e)

module _ (locale_compare : String → String → ℤ) where
  abbrev pub candidate : Node → Candidate
  candidate n = record { node = n; free = free_capacity n }

  winner_of :
      (request : Request) (es : List Entry) (cs : List Candidate) {n : Node}
      → (conclude locale_compare request es cs).node ≡ some n
      → (w : Candidate) × (rest : List Candidate) × (cs ≡ w ∷ rest) × (w.node ≡ n)
  unfolding conclude
  winner_of request es [] h = absurd (cc h)
  winner_of request es (w ∷ rest) h = (w, rest, refl, some-eq h)

  Before-refl {ℓ} : {A : Type ℓ} {f : A → A → ℤ} → IsComparator f → (a : A) → Before f a a
  Before-refl {f} order a = elim (Bool-cases (is_positive (f a a))) [
    | inl e ↦ order.asym a a e
    | inr e ↦ e
  ]

  Fits-candidate :
      (request : Request) (nodes : List Node) (w : Candidate)
      → In w (fitting (evaluated request nodes))
      → In w.node nodes × Fits w.node request × (w ≡ candidate w.node)
  Fits-candidate request nodes w m =
      let (found, e) = fitting-In request nodes m in
      let free = evaluate_node-free w.node request e in
      (
        found,
        (evaluate_node-fits_iff w.node request).0 (e ∙ ap fits free),
        λ i. record { node = w.node; free = free i },
      )

  pub sorted-head :
      (request : Request) (cs : List Candidate) (w : Candidate) (rest : List Candidate)
      → sort_by (compare_candidates locale_compare request) cs ≡ w ∷ rest
      → In w cs
  sorted-head request cs w rest sorted =
      let compare_by = compare_candidates locale_compare request in
      All-In (λ c. In c cs) (sort_by compare_by cs)
        (sort_by-All compare_by (λ c. In c cs) cs (In-All (λ c. In c cs) cs (λ c m. m)))
        (subst (In w) (sym sorted) here)

  -- Whatever the order of names, the node that is chosen is one of the nodes and fits.
  pub place_job-Fits :
      (request : Request) (nodes : List Node) (n : Node)
      → (place_job locale_compare request nodes).node ≡ some n
      → In n nodes × Fits n request
  unfolding place_job rank
  place_job-Fits request [] n h = absurd (cc h)
  place_job-Fits request (x ∷ ns) n h =
      let cs = fitting (evaluated request (x ∷ ns)) in
      let (w, rest, sorted, e) =
        winner_of request (evaluated request (x ∷ ns)) (rank locale_compare cs request) h in
      let (found, fit, whole) =
        Fits-candidate request (x ∷ ns) w (sorted-head request cs w rest sorted) in
      subst (λ m. In m (x ∷ ns) × Fits m request) e (found, fit)

  module _ (order : IsComparator locale_compare) where
    best_of :
        (request : Request) (nodes : List Node) (w : Candidate) (rest : List Candidate)
        → rank locale_compare (fitting (evaluated request nodes)) request ≡ w ∷ rest
        → In w.node nodes
          × Fits w.node request
          × ((m : Node)
              → In m nodes
              → Fits m request
              → Prefers locale_compare request (candidate w.node) (candidate m))
    unfolding rank
    best_of request nodes w rest sorted =
        let compare_by = compare_candidates locale_compare request in
        let cs = fitting (evaluated request nodes) in
        let total = compare_candidates-IsComparator locale_compare request order in
        let least : All (Before compare_by w) rest =
          subst (IsLeast compare_by) sorted (sort_by-IsLeast compare_by total cs) in
        let from_cs : In w cs = sorted-head request cs w rest sorted in
        let (found, fit, whole) = Fits-candidate request nodes w from_cs in
        (
          found,
          fit,
          λ m i f.
              let ready = (evaluate_node-fits_iff m request).1 f in
              let there_too : In (candidate m) (w ∷ rest) =
                subst (In (candidate m)) sorted
                  (sort_by-In compare_by cs (In-fitting request (free_capacity m) i ready)) in
              Before-Prefers locale_compare request (candidate w.node) (candidate m) (
                subst (λ x. Before compare_by x (candidate m)) whole
                  (elim (In-cons there_too) [
                    | inl e ↦ subst (Before compare_by w) (sym e) (Before-refl total w)
                    | inr k ↦ All-In (Before compare_by w) rest least k
                  ])),
        )

    -- The node that `placeJob` chooses is one of the nodes, fits the job, and is preferred to every
    -- node that fits.
    pub place_job-best :
        (request : Request) (nodes : List Node) (n : Node)
        → (place_job locale_compare request nodes).node ≡ some n
        → In n nodes
          × Fits n request
          × ((m : Node)
              → In m nodes
              → Fits m request
              → Prefers locale_compare request (candidate n) (candidate m))
    unfolding place_job
    place_job-best request [] n h = absurd (cc h)
    place_job-best request (x ∷ ns) n h =
        let (w, rest, sorted, e) =
          winner_of request (evaluated request (x ∷ ns))
            (rank locale_compare (fitting (evaluated request (x ∷ ns))) request) h in
        subst
          (λ n.
            In n (x ∷ ns)
            × Fits n request
            × ((m : Node)
                → In m (x ∷ ns)
                → Fits m request
                → Prefers locale_compare request (candidate n) (candidate m)))
          e (best_of request (x ∷ ns) w rest sorted)

  none_of :
      (request : Request) (es : List Entry) (cs : List Candidate)
      → (conclude locale_compare request es cs).node ≡ none
      → cs ≡ []
  unfolding conclude
  none_of request es [] h = refl
  none_of request es (w ∷ rest) h = absurd (cc h)

  -- No node is chosen exactly when none of them fits the job.
  pub place_job-none_iff :
      (request : Request) (nodes : List Node)
      → ((place_job locale_compare request nodes).node ≡ none)
        ↔ ((m : Node) → In m nodes → ¬ Fits m request)
  unfolding place_job rank
  place_job-none_iff request [] = ((λ h m i f. not-In-nil i), λ h. refl)
  place_job-none_iff request (x ∷ ns) = (none_fits, none_chosen)
    where
      es : List Entry
      es = evaluated request (x ∷ ns)

      compare_by : Candidate → Candidate → ℤ
      compare_by = compare_candidates locale_compare request

      sorted : List Candidate
      sorted = sort_by compare_by (fitting es)

      none_fits :
          (conclude locale_compare request es sorted).node ≡ none
          → (m : Node) → In m (x ∷ ns)
          → ¬ Fits m request
      none_fits h m i f = not-In-nil (
          subst (In (candidate m)) (none_of request es sorted h) (
            sort_by-In compare_by (fitting es)
              (In-fitting request (free_capacity m) i ((evaluate_node-fits_iff m request).1 f))))

      none_chosen :
          ((m : Node) → In m (x ∷ ns) → ¬ Fits m request)
          → (conclude locale_compare request es sorted).node ≡ none
      none_chosen h = elim (Option-cases (conclude locale_compare request es sorted).node) [
        | inl e ↦ e
        | inr (n, e) ↦
            let (w, rest, split, same) = winner_of request es sorted e in
            let from_cs : In w (fitting es) = sorted-head request (fitting es) w rest split in
            let (found, fit, whole) = Fits-candidate request (x ∷ ns) w from_cs in
            absurd (h w.node found fit)
      ]
