-- ===== src/Services/Scheduler/Capacity.antt =====
-- A pass of the scheduler leaves no node with more promised than it has.
use ash_ml.Base.{
  ℕ, ◌+◌, ◌≤◌, ◌≡◌, ◌≢◌, refl, subst, inl, inr, false, some, List, In, arith, ◌==◌, ==_iff,
  Bool-cases, ltb, ltb→lt,
}
use ash_ml.Domain.Quota.{Request}
use ash_ml.Domain.Placement.Capacity.{
  Node, allocated_cpu, allocated_memory, allocated_gpu, reserved_cpu, reserved_memory,
  schedulable_gpus,
}
use ash_ml.Domain.Placement.Fit.{Fits}
use ash_ml.Services.Store.{Text, Job, get_job, update_jobs}
use ash_ml.Services.Cluster.{NodeRow, is_at, holds, allocated, to_node}
use ash_ml.Services.Cluster.Sums.{
  Distinct, weight, allocated-weight, sum_by-update_le, sum_by-update,
}

-- What is promised of a node is within what it has.
pub record Within (node : Node) : Type 0 where
  pub cpus : reserved_cpu node + allocated_cpu node ≤ node.cpu_cores
  pub bytes : reserved_memory node + allocated_memory node ≤ node.memory_bytes
  pub gpus : allocated_gpu node ≤ schedulable_gpus node

abbrev pub AllWithin : List NodeRow → List Job → Type 0
AllWithin nodes jobs = (n : NodeRow) → In n nodes → Within (to_node jobs n)

amount_le :
    (amount : Job → ℕ) (node : ℕ) (f : Job → Job) (id : ℕ) (js : List Job)
    → ((j : Job) → holds node (f j) ≡ false)
    → allocated amount node (update_jobs id f js) ≤ allocated amount node js
amount_le amount node f id js h =
    rw (allocated-weight amount node (update_jobs id f js), allocated-weight amount node js)
      (sum_by-update_le (weight amount node) f (λ j. rw (h j) (omega arith)) id js)

-- The rows keep their node where each of the three sums is at most what it was.
Within-le :
    (n : NodeRow) (js ks : List Job)
    → ((amount : Job → ℕ) → allocated amount n.id ks ≤ allocated amount n.id js)
    → Within (to_node js n)
    → Within (to_node ks n)
unfolding to_node allocated_cpu allocated_memory allocated_gpu reserved_cpu reserved_memory
    schedulable_gpus
Within-le n js ks h w = record {
  cpus = omega (arith, w.cpus, h (λ j. j.resources.cpu));
  bytes = omega (arith, w.bytes, h (λ j. j.resources.memory_bytes));
  gpus = omega (arith, w.gpus, h (λ j. j.resources.gpu));
}

Within-Fits :
    (n : NodeRow) (js ks : List Job) (request : Request)
    → allocated (λ j. j.resources.cpu) n.id ks
      ≤ allocated (λ j. j.resources.cpu) n.id js + request.cpu
    → allocated (λ j. j.resources.memory_bytes) n.id ks
      ≤ allocated (λ j. j.resources.memory_bytes) n.id js + request.memory_bytes
    → allocated (λ j. j.resources.gpu) n.id ks
      ≤ allocated (λ j. j.resources.gpu) n.id js + request.gpu
    → Fits (to_node js n) request
    → Within (to_node js n)
    → Within (to_node ks n)
unfolding to_node allocated_cpu allocated_memory allocated_gpu reserved_cpu reserved_memory
    schedulable_gpus
Within-Fits n js ks request cpu bytes gpu f w = record {
  cpus = omega (arith, f.cpus, cpu);
  bytes = elim (Bool-cases (ltb 0 request.memory_bytes)) [
    | inl e ↦ omega (arith, f.bytes (ltb→lt 0 request.memory_bytes e), bytes)
    | inr e ↦ ground (arith, e, w.bytes, bytes)
  ];
  gpus = elim (Bool-cases (ltb 0 request.gpu)) [
    | inl e ↦ omega (arith, f.gpus (ltb→lt 0 request.gpu e), gpu)
    | inr e ↦ ground (arith, e, w.gpus, gpu)
  ];
}

-- The update that binds a job.
abbrev pub placed : ℕ → Text → Job → Job
placed node reason j = record j { node = some node; placement_reason = reason }

placed_le :
    (amount : Job → ℕ) (node : ℕ) (reason : Text) (id : ℕ) (js : List Job) (j : Job)
    → amount (placed node reason j) ≡ amount j
    → Distinct js
    → get_job id js ≡ some j
    → allocated amount node (update_jobs id (placed node reason) js)
      ≤ allocated amount node js + amount j
placed_le amount node reason id js j same d found =
    let w = weight amount node in
    let f = placed node reason in
    let change = sum_by-update w f id js j d found in
    let bound : w (f j) ≤ amount j = ground (arith, same) in
    rw (allocated-weight amount node (update_jobs id f js), allocated-weight amount node js)
      (omega (arith, change, bound))

elsewhere : (n k : ℕ) (reason : Text) → n ≢ k → (j : Job) → holds k (placed n reason j) ≡ false
unfolding holds is_at
elsewhere n k reason h j = ground (arith, h)

-- The ids of the nodes are a primary key.
abbrev pub Keyed : List NodeRow → Type 0
Keyed nodes = (a b : NodeRow) → In a nodes → In b nodes → a.id ≡ b.id → a ≡ b

pub placed-AllWithin :
    (nodes : List NodeRow) (js : List Job) (r : NodeRow) (reason : Text) (j : Job)
    → Keyed nodes
    → Distinct js
    → get_job j.id js ≡ some j
    → In r nodes
    → Fits (to_node js r) j.resources
    → AllWithin nodes js
    → AllWithin nodes (update_jobs j.id (placed r.id reason) js)
placed-AllWithin nodes js r reason j keyed d found inside fit h n m =
    elim (Bool-cases (r.id == n.id)) [
      | inl e ↦
          let same : r ≡ n = keyed r n inside m ((==_iff r.id n.id).0 e) in
          subst (λ x. Within (to_node (update_jobs j.id (placed r.id reason) js) x)) same
            (Within-Fits r js (update_jobs j.id (placed r.id reason) js) j.resources
              (placed_le (λ k. k.resources.cpu) r.id reason j.id js j refl d found)
              (placed_le (λ k. k.resources.memory_bytes) r.id reason j.id js j refl d found)
              (placed_le (λ k. k.resources.gpu) r.id reason j.id js j refl d found) fit
              (h r inside))
      | inr e ↦
          let other : r.id ≢ n.id = λ q. ground (arith, e, q) in
          Within-le n js (update_jobs j.id (placed r.id reason) js)
            (λ amount.
              amount_le amount n.id (placed r.id reason) j.id js (elsewhere r.id n.id reason other))
            (h n m)
    ]

-- An update after which a job holds no node.
pub off-AllWithin :
    (nodes : List NodeRow) (f : Job → Job) (id : ℕ) (js : List Job)
    → ((n : ℕ) (j : Job) → holds n (f j) ≡ false)
    → AllWithin nodes js
    → AllWithin nodes (update_jobs id f js)
off-AllWithin nodes f id js off h n m =
    Within-le n js (update_jobs id f js) (λ amount. amount_le amount n.id f id js (off n.id))
      (h n m)
