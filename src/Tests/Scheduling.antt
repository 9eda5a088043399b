-- ===== src/Tests/Scheduling.antt =====
-- A pass of the scheduler over one waiting job, at a cluster of two nodes.
use Prim.Native.String.{String}
use ash_ml.Base.{
  ℕ, ◌≡◌, ◌↔◌, refl, true, Option, none, some, List, [], ◌∷◌, keep, length, arith, ℤ, sub_ℕ, inl,
  inr, not-In-nil, In-cons, ap, subst, sym, sum_by,
}
use ash_ml.Domain.JobState.{scheduling, running, same}
use ash_ml.Domain.Quota.{Quota}
use ash_ml.Domain.Retry.{codes}
use ash_ml.Domain.Placement.Capacity.{
  Gpu, ok, allocated_cpu, allocated_memory, allocated_gpu, reserved_cpu, reserved_memory,
  schedulable_gpus, advertised, devices, healthy_gpus, is_usable,
}
use ash_ml.Services.Store.{Job, Db, get_job, high}
use ash_ml.Services.Store
use ash_ml.Tests.Rows.{job}
use ash_ml.Services.Store.Keeps.{Leaves}
use ash_ml.Services.Cluster.{
  NodeRow, to_node, holds, is_at, occupies, occupying_states, charged, project_quota,
}
use ash_ml.Services.Scheduler.{Placement, Wording, schedule_job, affordable}
use ash_ml.Services.Scheduler.Capacity.{Within, AllWithin, Keyed}
use ash_ml.Services.Scheduler.Pass.{schedule_job-AllWithin}
use ash_ml.Services.Scheduler.Settled.{Settled, schedule_job-Settled}
use ash_ml.Services.Scheduler.Gate.{Room, affordable_iff}

abbrev gpu : Gpu
gpu = record { health = ok; memory_total_bytes = 80 }

abbrev one : NodeRow
one = record {
  id = 1;
  name = "a";
  ready = true;
  cpu_cores = 16;
  memory_bytes = 64;
  gpu_capacity = 1;
  reserved_cpu = 1;
  reserved_memory = 4;
  devices = gpu ∷ [];
}

abbrev two : NodeRow
two = record {
  id = 2;
  name = "bb";
  ready = true;
  cpu_cores = 32;
  memory_bytes = 128;
  gpu_capacity = 2;
  reserved_cpu = 0;
  reserved_memory = 0;
  devices = gpu ∷ gpu ∷ [];
}

abbrev nodes : List NodeRow
nodes = one ∷ two ∷ []

-- A job runs on the first node, and another waits.
abbrev busy : Db
busy = record {
  jobs = job 1 running (some 1) ∷ job 2 scheduling none ∷ [];
  events = [];
  checkpoints = [];
  passes = [];
}

abbrev wording : Wording
wording = record { refusal = λ c. codes "quota"; decision = λ r. codes "fits"; row = λ r. [] }

abbrev by_length : String → String → ℤ
by_length a b = sub_ℕ (length (codes a)) (length (codes b))

abbrev quotas : ℕ → Option Quota
quotas p = some (record { gpu_limit = 2; cpu_limit = 0; memory_bytes = 0; job_limit = 0 })

nodes-Keyed : Keyed nodes
nodes-Keyed a b m n e = elim (In-cons m) [
  | inl p ↦ elim (In-cons n) [
    | inl q ↦ cc (p, q)
    | inr k ↦ elim (In-cons k) [
      | inl q ↦ absurd (cc (p, q, e, ap (λ (x : NodeRow). x.id) p, ap (λ (x : NodeRow). x.id) q))
      | inr z ↦ absurd (not-In-nil z)
    ]
  ]
  | inr h ↦ elim (In-cons h) [
    | inl p ↦ elim (In-cons n) [
      | inl q ↦ absurd (cc (p, q, e, ap (λ (x : NodeRow). x.id) p, ap (λ (x : NodeRow). x.id) q))
      | inr k ↦ elim (In-cons k) [ inl q ↦ cc (p, q) | inr z ↦ absurd (not-In-nil z) ]
    ]
    | inr z ↦ absurd (not-In-nil z)
  ]
]

one-Within : Within (to_node busy.jobs one)
unfolding to_node holds is_at occupies occupying_states same allocated_cpu allocated_memory
    allocated_gpu reserved_cpu reserved_memory schedulable_gpus advertised devices healthy_gpus
    is_usable
one-Within = record { cpus = omega arith; bytes = omega arith; gpus = omega arith }

two-Within : Within (to_node busy.jobs two)
unfolding to_node holds is_at occupies occupying_states same allocated_cpu allocated_memory
    allocated_gpu reserved_cpu reserved_memory schedulable_gpus advertised devices healthy_gpus
    is_usable
two-Within = record { cpus = omega arith; bytes = omega arith; gpus = omega arith }

busy-AllWithin : AllWithin nodes busy.jobs
busy-AllWithin n m = elim (In-cons m) [
  | inl p ↦ subst (λ x. Within (to_node busy.jobs x)) (sym p) one-Within
  | inr h ↦ elim (In-cons h) [
    | inl p ↦ subst (λ x. Within (to_node busy.jobs x)) (sym p) two-Within
    | inr z ↦ absurd (not-In-nil z)
  ]
]

schedule_job-AllWithin_example :
    Leaves
      (λ after. AllWithin nodes after.jobs)
      (schedule_job by_length wording 9 nodes quotas 2 busy)
schedule_job-AllWithin_example =
    schedule_job-AllWithin nodes by_length wording 9 quotas 2 busy nodes-Keyed
      ((λ (e : 2 ≡ 1). omega (arith, e), tt), (tt, tt)) busy-AllWithin

schedule_job-Settled_example :
    (p : Placement) × (after : Db) × (schedule_job by_length wording 9 nodes quotas 2 busy
      ≡ Store.ok (p, after))
    × Settled by_length wording nodes quotas (job 2 scheduling none) busy after p
unfolding get_job
schedule_job-Settled_example =
    schedule_job-Settled by_length wording nodes quotas 9 2 busy (job 2 scheduling none) refl refl

affordable_iff_example :
    (affordable by_length wording quotas (job 2 scheduling none) busy.jobs ≡ none) ↔ (
      let held = keep (charged 5) busy.jobs in
      Room 0 1 (length held)
      × Room 2 1 (sum_by (λ (k : Job). k.resources.gpu) held)
      × Room 0 4 (sum_by (λ (k : Job). k.resources.cpu) held)
      × Room 0 16 (sum_by (λ (k : Job). k.resources.memory_bytes) held))
unfolding project_quota
affordable_iff_example = affordable_iff by_length wording quotas (job 2 scheduling none) busy.jobs
