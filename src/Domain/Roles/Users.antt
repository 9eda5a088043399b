-- ===== src/Domain/Roles/Users.antt =====
-- What a person may do.
use Prim.Native.String.{String}
use ash_ml.Base.{
  ◌≤◌, ◌≡◌, ◌≢◌, ◌↔◌, ◌⊎◌, refl, inl, inr, Option-cases, Bool, true, false, Option, none, some,
  some-eq, List, arith,
}
use ash_ml.Domain.Roles.{
  Role, rank, parse_role, Permission, platform_admin, run_report, required_role, covers, at_least,
  user, Scope, get, member_can, can,
}

-- The membership in the project asked about holds a role at or above the required one.
abbrev pub Holds : List (String × String) → Permission → Scope → Type 0
Holds memberships permission scope =
    (project : String) × (text : String) × (held : Role) × (required : Role) × (scope.project_id
      ≡ some project)
    × (get memberships project ≡ some text)
    × (parse_role text ≡ some held)
    × (required_role permission ≡ some required)
    × (rank required ≤ rank held)

covers_iff :
    (held : Option Role) (minimum : Role)
    → (covers held minimum ≡ true) ↔ ((r : Role) × (held ≡ some r) × (rank minimum ≤ rank r))
unfolding covers
covers_iff none minimum = ((λ h. absurd (cc h)), λ (r, e, q). absurd (cc e))
covers_iff (some r) minimum = (
  λ h. (r, refl, ground (arith, h)),
  λ (s, e, q). let same = some-eq e in ground (arith, same, q),
)

member_can_iff :
    (required : Option Role) (memberships : List (String × String)) (project : Option String)
    → (member_can required memberships project ≡ true) ↔ (
        (p : String) × (text : String) × (held : Role) × (minimum : Role) × (project ≡ some p)
        × (get memberships p ≡ some text)
        × (parse_role text ≡ some held)
        × (required ≡ some minimum)
        × (rank minimum ≤ rank held))
unfolding member_can
member_can_iff required memberships project = (forth required project, back required project)
  where
    forth :
        (required : Option Role) (project : Option String)
        → member_can required memberships project ≡ true
        → (p : String) × (text : String) × (held : Role) × (minimum : Role) × (project ≡ some p)
          × (get memberships p ≡ some text)
          × (parse_role text ≡ some held)
          × (required ≡ some minimum)
          × (rank minimum ≤ rank held)
    forth none project h = absurd (cc h)
    forth (some m) none h = absurd (cc h)
    forth (some m) (some p) h = elim (Option-cases (get memberships p)) [
      | inl e ↦ absurd (cc (rw (e, at_least) at h))
      | inr (text, e) ↦
          let (r, f, q) = (covers_iff (parse_role text) m).0 (rw (e, at_least) at h) in
          (p, text, r, m, refl, e, f, refl, q)
    ]

    back :
        (required : Option Role) (project : Option String)
        → (p : String) × (text : String) × (held : Role) × (minimum : Role) × (project ≡ some p)
          × (get memberships p ≡ some text)
          × (parse_role text ≡ some held)
          × (required ≡ some minimum)
          × (rank minimum ≤ rank held)
        → member_can required memberships project ≡ true
    back required project (p, text, held, m, e, g, f, r, q) =
        rw (r, e, g, f) ((covers_iff (some held) m).1 (held, refl, q))

-- A person may do what is not a report: anything as an administrator, and otherwise what a role of
-- the ladder is required for, where the membership in the project asked about is at or above it. A
-- permission that no role carries, PLATFORM_ADMIN or an unknown text, is an administrator's alone.
pub user_can_iff :
    (is_admin : Bool) (memberships : List (String × String)) (permission : Permission)
    (scope : Scope)
    → (can (some (user is_admin memberships)) permission scope ≡ true)
      ↔ ((permission ≢ run_report) × ((is_admin ≡ true) ⊎ Holds memberships permission scope))
unfolding can
user_can_iff true memberships run_report scope = ((λ h. cc), λ (n, h). absurd (n refl))
user_can_iff true memberships _ scope = ((λ h. ((λ e. cc), inl refl)), λ h. refl)
user_can_iff false memberships run_report scope = ((λ h. cc), λ (n, h). absurd (n refl))
user_can_iff false memberships platform_admin scope =
    (λ h. cc, λ (n, h). elim h [ inl e ↦ e | inr (p, text, held, m, e, g, f, r, q) ↦ cc ])
user_can_iff false memberships permission scope = (
  λ h. (
    (λ e. cc),
    inr ((member_can_iff (required_role permission) memberships scope.project_id).0 h),
  ),
  λ (n, h). elim h [
    | inl e ↦ absurd (cc e)
    | inr k ↦ (member_can_iff (required_role permission) memberships scope.project_id).1 k
  ],
)
