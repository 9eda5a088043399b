-- ===== src/Domain/Placement/Evaluate.antt =====
-- `evaluateNode` of placement.js: one node against one job's request.
use Prim.Native.Nat.{max}
use ash_ml.Base.{
  ℕ, ◌-◌, ◌&&◌, List, [], ◌∷◌, length, keep, ltb, leb, ◌==◌, if◌then◌else◌, ℤ, pos, ltb_ℤ,
}
use ash_ml.Domain.Quota.{Request}
use ash_ml.Domain.Placement.Capacity.{
  Gpu, Node, Free, allocated_gpu, advertised, devices, healthy_gpus, schedulable_gpus,
  free_capacity,
}

pub data Reject : Type 0 where
  node_not_ready insufficient_cpu insufficient_memory insufficient_gpus : Reject
  no_gpu_large_enough gpu_unhealthy gpu_not_schedulable : Reject

-- A rejection, with the numbers that it shows besides the request's and the node's own.
pub data Rejection : Type 0 where
  not_ready : Rejection
  not_schedulable : ℕ → Rejection
  unhealthy : ℕ → Rejection
  gpu_count : ℤ → ℕ → Rejection
  gpu_memory : ℕ → ℕ → Rejection
  cpu : ℤ → Rejection
  memory : ℤ → Rejection

unfoldable pub code : Rejection → Reject
code not_ready = node_not_ready
code (not_schedulable devices) = gpu_not_schedulable
code (unhealthy devices) = gpu_unhealthy
code (gpu_count free schedulable) = insufficient_gpus
code (gpu_memory available largest) = no_gpu_large_enough
code (cpu free) = insufficient_cpu
code (memory free) = insufficient_memory

pub data Evaluation : Type 0 where
  fits : Free → Evaluation
  rejected : Rejection → Evaluation

unfoldable pub big_enough : Node → Request → List Gpu
big_enough node request =
    keep (λ g. leb request.gpu_memory_min_bytes g.memory_total_bytes) (healthy_gpus node)

-- `Math.max(0, bigEnough.length - allocated)`, which is what `-` on ℕ gives.
unfoldable pub available_big_enough : Node → Request → ℕ
unfolding big_enough
available_big_enough node request = length (big_enough node request) - allocated_gpu node

unfoldable pub largest : List Gpu → ℕ
largest [] = 0
largest (g ∷ gs) = max g.memory_total_bytes (largest gs)

-- The tests behind the GPU ones.
unfoldable pub evaluate_rest : Node → Request → Free → Evaluation
evaluate_rest node request free =
    if ltb_ℤ free.cpu (pos request.cpu)
    then rejected (cpu free.cpu)
    else if ltb 0 request.memory_bytes && ltb_ℤ free.memory_bytes (pos request.memory_bytes)
    then rejected (memory free.memory_bytes)
    else fits free

unfoldable pub evaluate_gpu_memory : Node → Request → Free → Evaluation
unfolding available_big_enough largest evaluate_rest
evaluate_gpu_memory node request free =
    if ltb 0 request.gpu_memory_min_bytes && ltb (available_big_enough node request) request.gpu
    then rejected (gpu_memory (available_big_enough node request) (largest (healthy_gpus node)))
    else evaluate_rest node request free

-- The branch `request.gpu > 0`.
unfoldable pub evaluate_gpu : Node → Request → Free → Evaluation
unfolding evaluate_gpu_memory
evaluate_gpu node request free =
    if advertised node == 0
    then rejected (not_schedulable (length (devices node)))
    else if ltb 0 (length (devices node)) && length (healthy_gpus node) == 0
    then rejected (unhealthy (length (devices node)))
    else if ltb_ℤ free.gpu (pos request.gpu)
    then rejected (gpu_count free.gpu (schedulable_gpus node))
    else evaluate_gpu_memory node request free

unfoldable pub evaluate_node : Node → Request → Evaluation
evaluate_node node request =
    let free = free_capacity node in
    if node.ready
    then if ltb 0 request.gpu
      then evaluate_gpu node request free
      else evaluate_rest node request free
    else rejected not_ready
