-- ===== src/Services/Cluster.antt =====
-- `clusterView`, `projectUsage` and `projectQuota` of packages/server/src/repos/nodes.js: what the
-- jobs that occupy capacity hold of each node and of each project's quota.
pub mod Sums
use Prim.Native.String.{String}
use ash_ml.Base.{
  ℕ, Bool, true, false, ◌&&◌, Option, none, some, List, [], ◌∷◌, map, any, sum_by, keep, length,
  ◌==◌, pos,
}
use ash_ml.Domain.JobState.{JobState, scheduling, starting, running, cancelling, same}
use ash_ml.Domain.Quota.{Quota, Usage}
use ash_ml.Domain.Placement.Capacity.{Gpu, Node}
use ash_ml.Services.Store.{Job}

-- A row of compute_nodes with its rows of gpu_devices. The table is listed by name.
pub record NodeRow : Type 0 where
  pub id : ℕ
  pub name : String
  pub ready : Bool
  pub cpu_cores : ℕ
  pub memory_bytes : ℕ
  pub gpu_capacity : ℕ
  pub reserved_cpu : ℕ
  pub reserved_memory : ℕ
  pub devices : List Gpu

unfoldable pub occupying_states : List JobState
occupying_states = scheduling ∷ starting ∷ running ∷ cancelling ∷ []

unfoldable pub occupies : JobState → Bool
unfolding occupying_states same
occupies s = any (same s) occupying_states

unfoldable pub is_at : Option ℕ → ℕ → Bool
is_at none node = false
is_at (some n) node = n == node

-- `j.scheduled_node_id = n.id AND j.state = ANY(…)`.
unfoldable pub holds : ℕ → Job → Bool
unfolding is_at
holds node j = is_at j.node node && occupies j.state

-- `COALESCE(SUM(…), 0)` over the jobs that hold the node.
unfoldable pub allocated : (Job → ℕ) → ℕ → List Job → ℕ
unfolding holds
allocated amount node jobs = sum_by amount (keep (holds node) jobs)

unfoldable pub to_node : List Job → NodeRow → Node
unfolding allocated
to_node jobs n = record {
  id = n.id;
  name = n.name;
  ready = n.ready;
  cpu_cores = n.cpu_cores;
  memory_bytes = n.memory_bytes;
  reserved_cpu = some n.reserved_cpu;
  reserved_memory = some n.reserved_memory;
  gpu_capacity = some n.gpu_capacity;
  gpus = some n.devices;
  allocated = some (record {
    cpu = some (allocated (λ j. j.resources.cpu) n.id jobs);
    memory_bytes = some (allocated (λ j. j.resources.memory_bytes) n.id jobs);
    gpu = some (allocated (λ j. j.resources.gpu) n.id jobs);
  });
}

unfoldable pub cluster_view : List NodeRow → List Job → List Node
unfolding to_node
cluster_view nodes jobs = map (to_node jobs) nodes

unfoldable pub charged : ℕ → Job → Bool
unfolding occupies
charged project j = j.project == project && occupies j.state

unfoldable pub project_usage : ℕ → List Job → Usage
unfolding charged
project_usage project jobs =
    let held = keep (charged project) jobs in
    record {
      gpu = pos (sum_by (λ (j : Job). j.resources.gpu) held);
      cpu = pos (sum_by (λ (j : Job). j.resources.cpu) held);
      memory_bytes = pos (sum_by (λ (j : Job). j.resources.memory_bytes) held);
      jobs = pos (length held);
    }

abbrev pub unlimited : Quota
unlimited = record { gpu_limit = 0; cpu_limit = 0; memory_bytes = 0; job_limit = 0 }

-- The project's row of resource_quotas, if it has one.
unfoldable pub project_quota : Option Quota → Quota
project_quota none = unlimited
project_quota (some quota) = quota
