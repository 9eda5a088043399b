-- ===== src/Domain/Placement/Place.antt =====
-- `rank`, `placeJob` and the rows that they explain themselves by, of placement.js. `locale_compare`
-- is `String.prototype.localeCompare`, whose order is the host's.
use Prim.Native.String.{String}
use text.Mathlib.Text.{◌==◌ as str_eq}
use ash_ml.Base.{
  ℕ, ◌+◌, Bool, true, false, not, Option, none, some, List, [], ◌∷◌, map, length, keep, ltb, ◌==◌,
  if◌then◌else◌, ℤ, pos, ◌-ℤ◌, sub_ℕ, or_next, sort_by,
}
use ash_ml.Domain.Quota.{Request}
use ash_ml.Domain.Placement.Capacity.{Node, Free, schedulable_gpus, free_capacity}
use ash_ml.Domain.Placement.Evaluate.{
  Reject, Rejection, Evaluation, fits, rejected, code, evaluate_node,
}

pub data Outcome : Type 0 where
  selected viable refused no_capacity : Outcome

-- A node with its evaluation, and one that fits with its free capacity.
pub record Entry : Type 0 where
  pub node : Node
  pub evaluation : Evaluation

pub record Candidate : Type 0 where
  pub node : Node
  pub free : Free

unfoldable pub evaluated : Request → List Node → List Entry
evaluated request = map (λ node. record { node = node; evaluation = evaluate_node node request })

unfoldable pub add_fitting : Node → Evaluation → List Candidate → List Candidate
add_fitting node (fits free) rest = record { node = node; free = free } ∷ rest
add_fitting node (rejected r) rest = rest

-- `evaluated.filter(fits)`.
unfoldable pub fitting : List Entry → List Candidate
unfolding add_fitting
fitting [] = []
fitting (e ∷ es) = add_fitting e.node e.evaluation (fitting es)

-- What `selectionReason` shows.
pub record Selection : Type 0 where
  pub winner : Node
  pub free : Free
  pub leaving : Option ℤ
  pub kept_off_gpus : Bool
  pub candidates : Option ℕ

unfoldable pub selection_reason : Candidate → Request → ℕ → Selection
selection_reason winner request alternatives = record {
  winner = winner.node;
  free = winner.free;
  leaving = if ltb 0 request.gpu then some (winner.free.gpu -ℤ pos request.gpu) else none;
  kept_off_gpus = if ltb 0 request.gpu then false else schedulable_gpus winner.node == 0;
  candidates = if ltb 0 alternatives then some (alternatives + 1) else none;
}

-- The `reason` of a row.
pub data RowReason : Type 0 where
  why_not : Rejection → RowReason
  fits_but : Option Node → RowReason
  chosen : Selection → RowReason

pub record Row : Type 0 where
  pub node : Node
  pub outcome : Outcome
  pub reason : RowReason
  pub code : Option Reject
  pub requested : Request
  pub free : Free

unfoldable pub row_of : Option Node → Request → Node → Evaluation → Row
unfolding code
row_of winner request node (fits free) = record {
  node = node;
  outcome = viable;
  reason = fits_but winner;
  code = none;
  requested = request;
  free = free;
}
row_of winner request node (rejected r) = record {
  node = node;
  outcome = refused;
  reason = why_not r;
  code = some (code r);
  requested = request;
  free = free_capacity node;
}

unfoldable pub decision_row : Option Node → Request → Entry → Row
unfolding row_of
decision_row winner request e = row_of winner request e.node e.evaluation

-- `summarise`: how many nodes each code blocked, the commonest first.
pub record Blocker : Type 0 where
  pub code : Reject
  pub count : ℕ

Reject-discrete : Discrete Reject
Reject-discrete = hlevel

unfoldable pub same_code : Reject → Reject → Bool
unfolding Reject-discrete
same_code a b = elim (Reject-discrete a b) [ yes _ ↦ true | no _ ↦ false ]

-- `byCode.set(code, (byCode.get(code) ?? 0) + 1)`, on a map that keeps the order of insertion.
unfoldable pub count_code : Reject → List Blocker → List Blocker
unfolding same_code
count_code c [] = record { code = c; count = 1 } ∷ []
count_code c (b ∷ bs) =
    if same_code b.code c
    then record { code = c; count = b.count + 1 } ∷ bs
    else b ∷ count_code c bs

unfoldable pub count_one : Evaluation → List Blocker → List Blocker
count_one (fits free) by_code = by_code
count_one (rejected r) by_code = count_code (code r) by_code

unfoldable pub count_all : List Blocker → List Entry → List Blocker
unfolding count_one
count_all by_code [] = by_code
count_all by_code (e ∷ es) = count_all (count_one e.evaluation by_code) es

unfoldable pub summarise : List Entry → List Blocker
unfolding count_code count_all code
summarise es = sort_by (λ a b. sub_ℕ b.count a.count) (count_all [] es)

-- The `reason` of a decision.
pub data Reason : Type 0 where
  no_nodes : Reason
  blocked : Request → List Blocker → Reason
  picked : Selection → Reason

pub record Decision : Type 0 where
  pub outcome : Outcome
  pub node : Option Node
  pub reason : Reason
  pub decisions : List Row

module _ (locale_compare : String → String → ℤ) where
  -- The comparator of `rank`: what is left over decides, then the CPUs, then the names.
  unfoldable pub compare_candidates : Request → Candidate → Candidate → ℤ
  compare_candidates request a b =
      let by_name = locale_compare a.node.name b.node.name in
      let by_cpu =
        or_next ((a.free.cpu -ℤ pos request.cpu) -ℤ (b.free.cpu -ℤ pos request.cpu)) by_name in
      if ltb 0 request.gpu
      then or_next ((a.free.gpu -ℤ pos request.gpu) -ℤ (b.free.gpu -ℤ pos request.gpu)) by_cpu
      else or_next (sub_ℕ (schedulable_gpus a.node) (schedulable_gpus b.node)) by_cpu

  unfoldable pub rank : List Candidate → Request → List Candidate
  unfolding compare_candidates
  rank candidates request = sort_by (compare_candidates request) candidates

  -- `placeJob` behind the ranking.
  unfoldable pub conclude : Request → List Entry → List Candidate → Decision
  unfolding selection_reason decision_row summarise
  conclude request es [] = record {
    outcome = no_capacity;
    node = none;
    reason = blocked request (summarise es);
    decisions = map (decision_row none request) es;
  }
  conclude request es (winner ∷ runners_up) =
      let why = selection_reason winner request (length runners_up) in
      record {
        outcome = selected;
        node = some winner.node;
        reason = picked why;
        decisions =
            record {
              node = winner.node;
              outcome = selected;
              reason = chosen why;
              code = none;
              requested = request;
              free = winner.free;
            }
            ∷ map (decision_row (some winner.node) request)
                (keep (λ e. not (str_eq e.node.name winner.node.name)) es);
      }

  unfoldable pub place_job : Request → List Node → Decision
  unfolding conclude evaluated fitting
  place_job request [] = record {
    outcome = no_capacity;
    node = none;
    reason = no_nodes;
    decisions = [];
  }
  place_job request (n ∷ ns) =
      let es = evaluated request (n ∷ ns) in conclude request es (rank (fitting es) request)
