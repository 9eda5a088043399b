-- ===== src/Domain/Roles/Workloads.antt =====
-- What a run token and a serving token are good for.
use Prim.Native.String.{String}
use text.Mathlib.TextEquality.{eq_iff}
use ash_ml.Base.{◌≡◌, ◌↔◌, ◌⊎◌, refl, sym, ◌∙◌, inl, inr, ap, true, Option, none, some, some-eq}
use ash_ml.Domain.Roles.{
  Permission, run_report, artifact_fetch, routing_read, run, serving, Scope, is_own,
  is_own_experiment, may_report, can,
}

is_own_iff : (asked : Option String) (own : String) → (is_own asked own ≡ true) ↔ (asked ≡ some own)
unfolding is_own
is_own_iff none own = ((λ h. cc), λ h. cc)
is_own_iff (some a) own =
    (λ h. ap some (sym ((eq_iff own a).0 h)), λ h. (eq_iff own a).1 (sym (some-eq h)))

own_experiment_iff :
    (own : Option String) (asked : String)
    → (is_own_experiment own asked ≡ true) ↔ (own ≡ some asked)
unfolding is_own_experiment
own_experiment_iff none asked = ((λ h. cc), λ h. cc)
own_experiment_iff (some own) asked =
    (λ h. ap some ((eq_iff own asked).0 h), λ h. (eq_iff own asked).1 (some-eq h))

-- A report is addressed to the run's own job, or to no job and the run's own experiment.
abbrev pub OwnReport : String → Option String → Scope → Type 0
OwnReport job experiment scope =
    (scope.job_id ≡ some job)
    ⊎ ((e : String) × (scope.job_id ≡ none)
        × (scope.experiment_id ≡ some e)
        × (experiment ≡ some e))

may_report_iff :
    (job : String) (experiment asked_job asked_experiment : Option String)
    → (may_report job experiment asked_job asked_experiment ≡ true) ↔ (
        (asked_job ≡ some job)
        ⊎ ((e : String) × (asked_job ≡ none) × (asked_experiment ≡ some e) × (experiment ≡ some e)))
unfolding may_report
may_report_iff job experiment (some j) asked = (
  λ h. inl (ap some (sym ((eq_iff job j).0 h))),
  λ h. elim h [ inl e ↦ (eq_iff job j).1 (sym (some-eq e)) | inr (e, f, g, k) ↦ absurd (cc f) ],
)
may_report_iff job experiment none (some a) = (
  λ h. inr (a, refl, refl, (own_experiment_iff experiment a).0 h),
  λ h. elim h [
    | inl e ↦ absurd (cc e)
    | inr (e, f, g, k) ↦ (own_experiment_iff experiment a).1 (k ∙ sym g)
  ],
)
may_report_iff job experiment none none =
    (λ h. cc, λ h. elim h [ inl e ↦ absurd (cc e) | inr (e, f, g, k) ↦ absurd (cc g) ])

-- A run token reports for its own job or experiment and fetches artifacts of its own project. It
-- does nothing else.
pub run-can_iff :
    (job project : String) (experiment : Option String) (permission : Permission) (scope : Scope)
    → (can (some (run job project experiment)) permission scope ≡ true) ↔ (
        ((permission ≡ run_report) × OwnReport job experiment scope)
        ⊎ ((permission ≡ artifact_fetch) × (scope.project_id ≡ some project)))
unfolding can
run-can_iff job project experiment run_report scope = (
  λ h. inl (refl, (may_report_iff job experiment scope.job_id scope.experiment_id).0 h),
  λ h. elim h [
    | inl (p, q) ↦ (may_report_iff job experiment scope.job_id scope.experiment_id).1 q
    | inr (p, q) ↦ cc
  ],
)
run-can_iff job project experiment artifact_fetch scope = (
  λ h. inr (refl, (is_own_iff scope.project_id project).0 h),
  λ h. elim h [ inl (p, q) ↦ cc | inr (p, q) ↦ (is_own_iff scope.project_id project).1 q ],
)
run-can_iff job project experiment _ scope =
    ((λ h. cc), λ h. elim h [ inl (p, q) ↦ cc | inr (p, q) ↦ cc ])

-- A serving token fetches artifacts of its own project and reads the routing of its own deployment.
-- It does nothing else.
pub serving-can_iff :
    (deployment project : String) (permission : Permission) (scope : Scope)
    → (can (some (serving deployment project)) permission scope ≡ true) ↔ (
        ((permission ≡ artifact_fetch) × (scope.project_id ≡ some project))
        ⊎ ((permission ≡ routing_read) × (scope.deployment_id ≡ some deployment)))
unfolding can
serving-can_iff deployment project artifact_fetch scope = (
  λ h. inl (refl, (is_own_iff scope.project_id project).0 h),
  λ h. elim h [ inl (p, q) ↦ (is_own_iff scope.project_id project).1 q | inr (p, q) ↦ cc ],
)
serving-can_iff deployment project routing_read scope = (
  λ h. inr (refl, (is_own_iff scope.deployment_id deployment).0 h),
  λ h. elim h [ inl (p, q) ↦ cc | inr (p, q) ↦ (is_own_iff scope.deployment_id deployment).1 q ],
)
serving-can_iff deployment project _ scope =
    ((λ h. cc), λ h. elim h [ inl (p, q) ↦ cc | inr (p, q) ↦ cc ])
