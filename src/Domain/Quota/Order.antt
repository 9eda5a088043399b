-- ===== src/Domain/Quota/Order.antt =====
-- When a quota refuses, and which of its limits it names.
use ash_ml.Base.{
  ap, sym, ◌∙◌, ℕ, ℤ, pos, ◌+ℤ◌, ◌≤ℤ◌, ◌≡◌, ◌⊎◌, ◌↔◌, refl, inl, inr, true, false, none, some, List,
  [], ◌∷◌, ◌++◌, All, arith, Bool-cases, some-eq,
}
use ash_ml.Domain.Quota.{Request, Quota, Usage, Check, checks, breaks, first_breach, check_quota}

-- A project can pay for `wanted` more.
abbrev pub Affords : ℕ → ℤ → ℕ → Type 0
Affords limit used wanted = (limit ≡ 0) ⊎ (wanted ≡ 0) ⊎ (used +ℤ pos wanted ≤ℤ pos limit)

abbrev pub IsMet : Check → Type 0
IsMet c = Affords c.limit c.used c.wanted

breaks-false : (c : Check) → breaks c ≡ false → IsMet c
unfolding breaks
breaks-false c h = ground arith

breaks-true : (c : Check) → breaks c ≡ true → ¬ IsMet c
unfolding breaks
breaks-true c h = ground arith

met-breaks : (c : Check) → IsMet c → breaks c ≡ false
unfolding breaks
met-breaks c h = ground arith

first_breach-none : (cs : List Check) → first_breach cs ≡ none → All IsMet cs
unfolding first_breach
first_breach-none [] h = tt
first_breach-none (c ∷ cs) h = elim (Bool-cases (breaks c)) [
  | inl e ↦ absurd (cc (rw e at h))
  | inr e ↦ (breaks-false c e, first_breach-none cs (rw e at h))
]

All-met : (cs : List Check) → All IsMet cs → first_breach cs ≡ none
unfolding first_breach
All-met [] h = refl
All-met (c ∷ cs) h = rw (met-breaks c h.0) (All-met cs h.1)

first_breach-some :
    (cs : List Check) (c : Check)
    → first_breach cs ≡ some c
    → (before after : List Check) × (cs ≡ before ++ c ∷ after) × All IsMet before × (¬ IsMet c)
unfolding first_breach
first_breach-some [] c h = absurd (cc h)
first_breach-some (d ∷ cs) c h = elim (Bool-cases (breaks d)) [
  | inl e ↦
      let same : d ≡ c = some-eq (rw e at h) in
      ([], cs, ap (λ x. x ∷ cs) same, tt, breaks-true c (ap breaks (sym same) ∙ e))
  | inr e ↦
      let (before, after, split, met, broken) = first_breach-some cs c (rw e at h) in
      (d ∷ before, after, ap (λ l. d ∷ l) split, (breaks-false d e, met), broken)
]

-- A project may start a job exactly when each limit, of jobs, GPUs, CPUs and bytes, is absent, not
-- asked of, or leaves room for what is in use and what is asked.
pub check_quota-allowed_iff :
    (request : Request) (quota : Quota) (usage : Usage)
    → (check_quota request quota usage ≡ none) ↔ (
        Affords quota.job_limit usage.jobs 1
        × Affords quota.gpu_limit usage.gpu request.gpu
        × Affords quota.cpu_limit usage.cpu request.cpu
        × Affords quota.memory_bytes usage.memory_bytes request.memory_bytes)
unfolding check_quota
check_quota-allowed_iff request quota usage = (
  λ h.
      let met = first_breach-none (checks request quota usage) h in
      (met.0, met.1.0, met.1.1.0, met.1.1.1.0),
  λ h. All-met (checks request quota usage) (h.0, (h.1, (h.2, (h.3, tt)))),
)

-- A refusal names the first limit, in the order jobs, GPUs, CPUs, bytes, that has no room: every
-- limit before it is met, and it is not.
check_quota-first :
    (request : Request) (quota : Quota) (usage : Usage) (c : Check)
    → check_quota request quota usage ≡ some c
    → (before after : List Check) × (checks request quota usage ≡ before ++ c ∷ after)
      × All IsMet before
      × (¬ IsMet c)
unfolding check_quota
check_quota-first request quota usage c h = first_breach-some (checks request quota usage) c h
