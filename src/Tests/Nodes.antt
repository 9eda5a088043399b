-- ===== src/Tests/Nodes.antt =====
-- Placement at concrete nodes.
use Prim.Native.String.{String}
use mathlib.Core.List.{Perm}
use ash_ml.Base.{
  ℕ, ◌≡◌, ◌≢◌, ◌↔◌, refl, true, false, none, some, [], ◌∷◌, map, length, In, arith, ℤ, sub_ℕ,
  sub_ℕ_parts, sort_by, ◌-ℤ◌, is_positive, sum_by, IsComparator,
}
use ash_ml.Domain.Quota.{Request}
use ash_ml.Domain.Retry.{codes}
use ash_ml.Domain.Placement.Capacity.{
  Node, Gpu, ok, degraded, advertised, devices, healthy_gpus, free_capacity,
}
use ash_ml.Domain.Placement.Evaluate.{fits, evaluate_gpu, evaluate_node}
use ash_ml.Domain.Placement.Fit.{Fits, evaluate_node-fits_iff}
use ash_ml.Domain.Placement.Place.{evaluated, rank, place_job, summarise}
use ash_ml.Domain.Placement.Ranking.{Prefers}
use ash_ml.Domain.Placement.Best.{candidate, place_job-best, place_job-none_iff}
use ash_ml.Domain.Placement.Audit.{place_job-rows, rejections, summarise-total}

abbrev device : Gpu
device = record { health = ok; memory_total_bytes = 80 }

abbrev sick : Gpu
sick = record { health = degraded; memory_total_bytes = 80 }

abbrev small : Node
small = record {
  id = 1;
  name = "a";
  ready = true;
  cpu_cores = 16;
  memory_bytes = 64;
  reserved_cpu = some 1;
  reserved_memory = some 4;
  gpu_capacity = some 2;
  gpus = some (device ∷ device ∷ []);
  allocated = none;
}

abbrev large : Node
large = record {
  id = 2;
  name = "bb";
  ready = true;
  cpu_cores = 32;
  memory_bytes = 128;
  reserved_cpu = none;
  reserved_memory = none;
  gpu_capacity = some 4;
  gpus = some (device ∷ device ∷ sick ∷ device ∷ []);
  allocated = none;
}

abbrev one_gpu : Request
one_gpu = record { cpu = 4; memory_bytes = 16; gpu = 1; gpu_memory_min_bytes = 40 }

-- A host that orders names by their length.
abbrev by_length : String → String → ℤ
by_length a b = sub_ℕ (length (codes a)) (length (codes b))

asym_counts : (m n : ℕ) → is_positive (sub_ℕ m n) ≡ true → is_positive (sub_ℕ n m) ≡ false
asym_counts m n h = ground (arith, sub_ℕ_parts m n, sub_ℕ_parts n m)

trans_counts :
    (m n o : ℕ)
    → is_positive (sub_ℕ m n) ≡ false
    → is_positive (sub_ℕ n o) ≡ false
    → is_positive (sub_ℕ m o) ≡ false
trans_counts m n o h k = ground (arith, sub_ℕ_parts m n, sub_ℕ_parts n o, sub_ℕ_parts m o)

by_length-IsComparator : IsComparator by_length
by_length-IsComparator = record {
  asym = λ a b. asym_counts (length (codes a)) (length (codes b));
  trans = λ a b c. trans_counts (length (codes a)) (length (codes b)) (length (codes c));
}

evaluate_node-fits_iff_example :
    (evaluate_node large one_gpu ≡ fits (free_capacity large)) ↔ Fits large one_gpu
evaluate_node-fits_iff_example = evaluate_node-fits_iff large one_gpu

place_job-best_example :
    In small (large ∷ small ∷ [])
    × Fits small one_gpu
    × ((m : Node)
        → In m (large ∷ small ∷ [])
        → Fits m one_gpu
        → Prefers by_length one_gpu (candidate by_length small) (candidate by_length m))
unfolding place_job rank sort_by evaluate_node evaluate_gpu advertised devices healthy_gpus
    free_capacity sub_ℕ ◌-ℤ◌
place_job-best_example =
    place_job-best by_length by_length-IsComparator one_gpu (large ∷ small ∷ []) small refl

place_job-none_iff_example :
    ((place_job by_length one_gpu (large ∷ [])).node ≡ none)
    ↔ ((m : Node) → In m (large ∷ []) → ¬ Fits m one_gpu)
place_job-none_iff_example = place_job-none_iff by_length one_gpu (large ∷ [])

a_not_bb : ◌≢◌ {A = String} "a" "bb"
a_not_bb = cc

place_job-rows_example :
    Perm
      (large ∷ small ∷ [])
      (map (λ r. r.node) (place_job by_length one_gpu (large ∷ small ∷ [])).decisions)
place_job-rows_example =
    place_job-rows by_length one_gpu (large ∷ small ∷ []) ((a_not_bb, tt), (tt, tt))

summarise-total_example :
    sum_by (λ b. b.count) (summarise (evaluated one_gpu (large ∷ [])))
    ≡ rejections (evaluated one_gpu (large ∷ []))
summarise-total_example = summarise-total (evaluated one_gpu (large ∷ []))
