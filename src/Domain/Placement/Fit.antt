-- ===== src/Domain/Placement/Fit.antt =====
-- A node fits exactly when it can take the job's whole request on top of what it holds.
use ash_ml.Base.{
  ℕ, ◌+◌, ◌≤◌, ◌<◌, ◌≡◌, ◌↔◌, true, false, length, arith, ltb, ltb_ℤ, pos, ◌-ℤ◌, -ℤ_parts,
  Bool-cases, ltb→lt, inl, inr,
}
use ash_ml.Domain.Quota.{Request}
use ash_ml.Domain.Placement.Capacity.{
  Node, Free, allocated_cpu, allocated_memory, allocated_gpu, reserved_cpu, reserved_memory,
  advertised, devices, healthy_gpus, schedulable_gpus, free_capacity,
}
use ash_ml.Domain.Placement.Evaluate.{
  fits, big_enough, available_big_enough, evaluate_rest, evaluate_gpu_memory, evaluate_gpu,
  evaluate_node,
}

-- What is promised on the node, with the request on top, is within what the node has.
pub record Fits (node : Node) (request : Request) : Type 0 where
  pub is_ready : node.ready ≡ true
  pub gpus : 0 < request.gpu → allocated_gpu node + request.gpu ≤ schedulable_gpus node
  pub gpu_memory :
      0 < request.gpu
      → 0 < request.gpu_memory_min_bytes
      → allocated_gpu node + request.gpu ≤ length (big_enough node request)
  pub cpus : reserved_cpu node + allocated_cpu node + request.cpu ≤ node.cpu_cores
  pub bytes :
      0 < request.memory_bytes
      → reserved_memory node + allocated_memory node + request.memory_bytes ≤ node.memory_bytes

-- `a - b - c < d` fails where the sum fits.
room3 : (a b c d : ℕ) → (ltb_ℤ (pos a -ℤ pos b -ℤ pos c) (pos d) ≡ false) ↔ (b + c + d ≤ a)
room3 a b c d =
    let laws = -ℤ_parts (pos a -ℤ pos b) (pos c) in
    let first = -ℤ_parts (pos a) (pos b) in
    ((λ h. ground (arith, laws, first, h)), λ h. ground (arith, laws, first, h))

room2 : (a b d : ℕ) → (ltb_ℤ (pos a -ℤ pos b) (pos d) ≡ false) ↔ (b + d ≤ a)
room2 a b d =
    let laws = -ℤ_parts (pos a) (pos b) in
    ((λ h. ground (arith, laws, h)), λ h. ground (arith, laws, h))

cpu_room :
    (node : Node) (request : Request)
    → (ltb_ℤ (free_capacity node).cpu (pos request.cpu) ≡ false)
      ↔ (reserved_cpu node + allocated_cpu node + request.cpu ≤ node.cpu_cores)
unfolding free_capacity
cpu_room node request = room3 node.cpu_cores (reserved_cpu node) (allocated_cpu node) request.cpu

memory_room :
    (node : Node) (request : Request)
    → (ltb_ℤ (free_capacity node).memory_bytes (pos request.memory_bytes) ≡ false)
      ↔ (reserved_memory node + allocated_memory node + request.memory_bytes ≤ node.memory_bytes)
unfolding free_capacity
memory_room node request =
    room3 node.memory_bytes (reserved_memory node) (allocated_memory node) request.memory_bytes

gpu_room :
    (node : Node) (request : Request)
    → (ltb_ℤ (free_capacity node).gpu (pos request.gpu) ≡ false)
      ↔ (allocated_gpu node + request.gpu ≤ schedulable_gpus node)
unfolding free_capacity
gpu_room node request = room2 (schedulable_gpus node) (allocated_gpu node) request.gpu

-- Where GPUs can be scheduled, they are advertised, and one is healthy if any was discovered.
schedulable_bounds :
    (node : Node)
    → (schedulable_gpus node ≤ advertised node)
      × (0 < length (devices node) → schedulable_gpus node ≤ length (healthy_gpus node))
unfolding schedulable_gpus
schedulable_bounds node = (ground arith, λ h. ground arith)

abbrev RestFits : Node → Request → Type 0
RestFits node request =
    (reserved_cpu node + allocated_cpu node + request.cpu ≤ node.cpu_cores)
    × (0 < request.memory_bytes
        → reserved_memory node + allocated_memory node + request.memory_bytes ≤ node.memory_bytes)

rest-fits :
    (node : Node) (request : Request) {free : Free}
    → evaluate_rest node request (free_capacity node) ≡ fits free
    → RestFits node request
unfolding evaluate_rest
rest-fits node request h = (
  ground (arith, cpu_room node request, h),
  λ p. ground (arith, memory_room node request, cpu_room node request, h, p),
)

fits-rest :
    (node : Node) (request : Request)
    → RestFits node request
    → evaluate_rest node request (free_capacity node) ≡ fits (free_capacity node)
unfolding evaluate_rest
fits-rest node request h = ground (arith, cpu_room node request, memory_room node request, h.0, h.1)

abbrev GpuFits : Node → Request → Type 0
GpuFits node request =
    (allocated_gpu node + request.gpu ≤ schedulable_gpus node)
    × (0 < request.gpu_memory_min_bytes
        → allocated_gpu node + request.gpu ≤ length (big_enough node request))

gpu-fits :
    (node : Node) (request : Request) {free : Free}
    → 0 < request.gpu
    → evaluate_gpu node request (free_capacity node) ≡ fits free
    → GpuFits node request × RestFits node request
unfolding evaluate_gpu evaluate_gpu_memory available_big_enough
gpu-fits node request {free} p h = (
  (ground (arith, gpu_room node request, h), λ q. ground (arith, gpu_room node request, h, p, q)),
  rest-fits node request {free = free} (ground (arith, h)),
)

fits-gpu :
    (node : Node) (request : Request)
    → 0 < request.gpu
    → GpuFits node request
    → RestFits node request
    → evaluate_gpu node request (free_capacity node) ≡ fits (free_capacity node)
unfolding evaluate_gpu evaluate_gpu_memory available_big_enough
fits-gpu node request p g r =
    ground (arith, gpu_room node request, schedulable_bounds node, fits-rest node request r, p, g)

-- `evaluateNode` accepts a node exactly when it is ready and the request, on top of what is reserved
-- and allocated, is within its cores, its bytes (where bytes are asked for), and, where GPUs are asked
-- for, within its schedulable GPUs and those with the memory asked for.
pub evaluate_node-fits_iff :
    (node : Node) (request : Request)
    → (evaluate_node node request ≡ fits (free_capacity node)) ↔ Fits node request
unfolding evaluate_node
evaluate_node-fits_iff node request = (accepted, accepts)
  where
    assemble :
        node.ready ≡ true
        → (0 < request.gpu → GpuFits node request)
        → RestFits node request
        → Fits node request
    assemble ready g r = record {
      is_ready = ready;
      gpus = λ p. (g p).0;
      gpu_memory = λ p. (g p).1;
      cpus = r.0;
      bytes = r.1;
    }

    accepted : evaluate_node node request ≡ fits (free_capacity node) → Fits node request
    accepted h = elim (Bool-cases (ltb 0 request.gpu)) [
      | inl e ↦
          let g =
            gpu-fits node request {free = free_capacity node} (ltb→lt 0 request.gpu e)
              (ground (arith, h, e)) in
          assemble (ground (arith, h)) (λ _. g.0) g.1
      | inr e ↦
          assemble (ground (arith, h)) (λ p. absurd (ground (arith, e, p)))
            (rest-fits node request {free = free_capacity node} (ground (arith, h, e)))
    ]

    accepts : Fits node request → evaluate_node node request ≡ fits (free_capacity node)
    accepts f = elim (Bool-cases (ltb 0 request.gpu)) [
      | inl e ↦
          let p = ltb→lt 0 request.gpu e in
          ground (
            arith,
            f.is_ready,
            e,
            fits-gpu node request p (f.gpus p, f.gpu_memory p) (f.cpus, f.bytes),
          )
      | inr e ↦ ground (arith, f.is_ready, e, fits-rest node request (f.cpus, f.bytes))
    ]

-- An evaluation that accepts carries the node's own free capacity.
pub evaluate_node-free :
    (node : Node) (request : Request) {free : Free}
    → evaluate_node node request ≡ fits free
    → free ≡ free_capacity node
unfolding evaluate_node evaluate_gpu evaluate_rest evaluate_gpu_memory
evaluate_node-free node request h = ground arith
