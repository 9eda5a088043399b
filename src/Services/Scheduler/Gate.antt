-- ===== src/Services/Scheduler/Gate.antt =====
-- What the first gate asks of the project's quota.
use Prim.Native.String.{String}
use ash_ml.Base.{
  ℕ, ◌≤◌, ◌≡◌, ◌⊎◌, ◌↔◌, inl, inr, none, Option, List, keep, length, sum_by, arith, ℤ, pos, ◌-ℤ◌,
  -ℤ_parts, +ℤ_parts,
}
use ash_ml.Domain.Quota.{Quota}
use ash_ml.Domain.Quota.Order.{Affords, check_quota-allowed_iff}
use ash_ml.Services.Store.{Job}
use ash_ml.Services.Cluster.{charged, project_usage, project_quota}
use ash_ml.Services.Scheduler.{Wording, usage_excluding_this, affordable}

-- What is used is within a limit that is set and is asked of.
abbrev pub Room : ℕ → ℕ → ℕ → Type 0
Room limit wanted used = (limit ≡ 0) ⊎ (wanted ≡ 0) ⊎ (used ≤ limit)

-- Taking a request off and adding it again changes nothing, also where the rest is negative.
Room-iff :
    (limit wanted used : ℕ) → Affords limit (pos used -ℤ pos wanted) wanted ↔ Room limit wanted used
Room-iff limit wanted used =
    let off = -ℤ_parts (pos used) (pos wanted) in
    let on = +ℤ_parts (pos used -ℤ pos wanted) (pos wanted) in
    (
      λ h. elim h [
        | inl e ↦ inl e
        | inr (inl e) ↦ inr (inl e)
        | inr (inr e) ↦ inr (inr (omega (arith, off, on, e)))
      ],
      λ h. elim h [
        | inl e ↦ inl e
        | inr (inl e) ↦ inr (inl e)
        | inr (inr e) ↦ inr (inr (omega (arith, off, on, e)))
      ],
    )

-- The first gate lets a job through exactly when what the project's jobs hold that occupy capacity,
-- their number, GPUs, CPUs and bytes, is within each limit that is set and that the job asks of. The
-- job's own request, which is among what they hold once it is SCHEDULING, is charged once.
pub affordable_iff :
    (locale_compare : String → String → ℤ) (wording : Wording) (quotas : ℕ → Option Quota) (j : Job)
    (jobs : List Job)
    → let quota = project_quota (quotas j.project) in
      let held = keep (charged j.project) jobs in
      (affordable locale_compare wording quotas j jobs ≡ none) ↔ (
        Room quota.job_limit 1 (length held)
        × Room quota.gpu_limit j.resources.gpu (sum_by (λ (k : Job). k.resources.gpu) held)
        × Room quota.cpu_limit j.resources.cpu (sum_by (λ (k : Job). k.resources.cpu) held)
        × Room quota.memory_bytes j.resources.memory_bytes
            (sum_by (λ (k : Job). k.resources.memory_bytes) held))
unfolding affordable project_usage usage_excluding_this
affordable_iff locale_compare wording quotas j jobs =
    let quota = project_quota (quotas j.project) in
    let usage = usage_excluding_this j.resources (project_usage j.project jobs) in
    let gate = check_quota-allowed_iff j.resources quota usage in
    (
      (λ h.
          let (a, b, c, d) = gate.0 h in
          ((Room-iff _ _ _).0 a, (Room-iff _ _ _).0 b, (Room-iff _ _ _).0 c, (Room-iff _ _ _).0 d)),
      λ h. gate.1 (
        (Room-iff _ _ _).1 h.0,
        (Room-iff _ _ _).1 h.1,
        (Room-iff _ _ _).1 h.2,
        (Room-iff _ _ _).1 h.3,
      ),
    )
