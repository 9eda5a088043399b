-- ===== src/Domain/Placement/Capacity.antt =====
-- `freeCapacity`, `schedulableGpus` and `healthyGpus` of placement.js.
use Prim.Native.Nat.{min}
use Prim.Native.String.{String}
use ash_ml.Base.{
  ℕ, Bool, true, false, Option, some, List, [], length, keep, ◌==◌, if◌then◌else◌, ◌or_else◌, ℤ,
  pos, ◌-ℤ◌,
}

pub data Health : Type 0 where
  ok unknown degraded failed : Health

pub record Gpu : Type 0 where
  pub health : Health
  pub memory_total_bytes : ℕ

pub record Allocated : Type 0 where
  pub cpu : Option ℕ
  pub memory_bytes : Option ℕ
  pub gpu : Option ℕ

-- A field that the source reads by `??` is an option.
pub record Node : Type 0 where
  pub id : ℕ
  pub name : String
  pub ready : Bool
  pub cpu_cores : ℕ
  pub memory_bytes : ℕ
  pub reserved_cpu : Option ℕ
  pub reserved_memory : Option ℕ
  pub gpu_capacity : Option ℕ
  pub gpus : Option (List Gpu)
  pub allocated : Option Allocated

pub record Free : Type 0 where
  pub cpu : ℤ
  pub memory_bytes : ℤ
  pub gpu : ℤ

abbrev nothing_allocated : Allocated
nothing_allocated = record { cpu = some 0; memory_bytes = some 0; gpu = some 0 }

-- `node.allocated ?? …` and the fields of it.
unfoldable pub allocated_cpu : Node → ℕ
allocated_cpu node = (node.allocated or_else nothing_allocated).cpu or_else 0

unfoldable pub allocated_memory : Node → ℕ
allocated_memory node = (node.allocated or_else nothing_allocated).memory_bytes or_else 0

unfoldable pub allocated_gpu : Node → ℕ
allocated_gpu node = (node.allocated or_else nothing_allocated).gpu or_else 0

unfoldable pub reserved_cpu : Node → ℕ
reserved_cpu node = node.reserved_cpu or_else 0

unfoldable pub reserved_memory : Node → ℕ
reserved_memory node = node.reserved_memory or_else 0

unfoldable pub advertised : Node → ℕ
advertised node = node.gpu_capacity or_else 0

unfoldable pub devices : Node → List Gpu
devices node = node.gpus or_else []

unfoldable pub is_usable : Health → Bool
is_usable ok = true
is_usable unknown = true
is_usable degraded = false
is_usable failed = false

unfoldable pub healthy_gpus : Node → List Gpu
unfolding is_usable devices
healthy_gpus node = keep (λ g. is_usable g.health) (devices node)

unfoldable pub schedulable_gpus : Node → ℕ
unfolding advertised devices healthy_gpus
schedulable_gpus node =
    if length (devices node) == 0
    then advertised node
    else min (advertised node) (length (healthy_gpus node))

unfoldable pub free_capacity : Node → Free
unfolding reserved_cpu allocated_cpu reserved_memory allocated_memory schedulable_gpus allocated_gpu
free_capacity node = record {
  cpu = pos node.cpu_cores -ℤ pos (reserved_cpu node) -ℤ pos (allocated_cpu node);
  memory_bytes = pos node.memory_bytes -ℤ pos (reserved_memory node) -ℤ pos (allocated_memory node);
  gpu = pos (schedulable_gpus node) -ℤ pos (allocated_gpu node);
}
