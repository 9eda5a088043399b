-- ===== src/Services/Store/Queue.antt =====
-- What the ordered queries of repos/jobs.js pick.
use ash_ml.Base.{
  ℕ, ◌≤◌, ◌≢◌, ap, any, All, ltb, ◌≡◌, ◌⊎◌, refl, inl, inr, Bool, true, false, ◌&&◌, Option, none,
  some, List, [], ◌∷◌, keep, In, there, arith, ◌==◌, Bool-cases, Option-cases, In-cons, In-cons_of,
  not-In-nil, keep-In, In-keep, some-eq, subst, sym,
}
use ash_ml.Domain.JobState.{
  JobState, created, queued, scheduling, starting, running, succeeded, failed, retrying, cancelling,
  cancelled, same,
}
use ash_ml.Services.Store.{Priority, high, medium, low, Job, Checkpoint}
use ash_ml.Services.Store.Order.{
  first_by, priority_rank, sooner, queued_before, is_claimable, lock_next_queued_job, further,
  resumes_before, latest_resumable_checkpoint,
}

-- A test that orders rows by something, where rows may be equal.
abbrev pub IsWeakOrder {ℓ} : {A : Type ℓ} → (A → A → Bool) → Type ℓ
IsWeakOrder {A = A} before =
    ((a b c : A) → before a c ≡ true → (before a b ≡ true) ⊎ (before b c ≡ true))
    × ((a b : A) → before a b ≡ true → before b a ≡ false)

module _ {ℓ} {A : Type ℓ} (before : A → A → Bool) where
  pub first_by-none : (xs : List A) → first_by before xs ≡ none → xs ≡ []
  unfolding first_by
  first_by-none [] h = refl
  first_by-none (x ∷ xs) h = elim (Option-cases (first_by before xs)) [
    | inl e ↦ absurd (cc (rw e at h))
    | inr (y, e) ↦ elim (Bool-cases (before y x)) [
      | inl f ↦ absurd (cc (rw (e, f) at h))
      | inr f ↦ absurd (cc (rw (e, f) at h))
    ]
  ]

  -- The row that is picked is one of them, and none of them comes before it.
  pub first_by-first :
      IsWeakOrder before
      → (xs : List A) (a : A) → first_by before xs ≡ some a
      → In a xs × ((b : A) → In b xs → before b a ≡ false)
  unfolding first_by
  first_by-first order [] a h = absurd (cc h)
  first_by-first order (x ∷ xs) a h = elim (Option-cases (first_by before xs)) [
    | inl e ↦
        let same : x ≡ a = some-eq (rw e at h) in
        let empty : xs ≡ [] = first_by-none xs e in
        (
          In-cons_of (inl (sym same)),
          λ b m. elim (In-cons m) [
            | inl p ↦ rw (p, sym same) (irreflexive x)
            | inr k ↦ absurd (not-In-nil (subst (In b) empty k))
          ],
        )
    | inr (y, e) ↦
        let (inside, least) = first_by-first order xs y e in
        elim (Bool-cases (before y x)) [
          | inl f ↦
              let same : y ≡ a = some-eq (rw (e, f) at h) in
              (
                subst (λ z. In z (x ∷ xs)) same (there inside),
                λ b m. elim (In-cons m) [
                  | inl p ↦ rw (p, sym same) (order.1 y x f)
                  | inr k ↦ subst (λ z. before b z ≡ false) same (least b k)
                ],
              )
          | inr f ↦
              let same : x ≡ a = some-eq (rw (e, f) at h) in
              (
                In-cons_of (inl (sym same)),
                λ b m.
                    subst (λ z. before b z ≡ false) same
                      (elim (In-cons m) [
                        | inl p ↦ rw p (irreflexive x)
                        | inr k ↦ elim (Bool-cases (before b x)) [
                          | inr g ↦ g
                          | inl g ↦ elim (order.0 b y x g) [
                            | inl u ↦ absurd (cc (u, least b k))
                            | inr u ↦ absurd (cc (u, f))
                          ]
                        ]
                      ]),
              )
        ]
  ]
    where
      irreflexive : (x : A) → before x x ≡ false
      irreflexive x = elim (Bool-cases (before x x)) [ inl e ↦ order.1 x x e | inr e ↦ e ]

sooner-weak : (a b c : Option ℕ) → sooner a c ≡ true → (sooner a b ≡ true) ⊎ (sooner b c ≡ true)
unfolding sooner
sooner-weak none b c h = absurd (cc h)
sooner-weak (some a) none c h = inl refl
sooner-weak (some a) (some b) none h = inr refl
sooner-weak (some a) (some b) (some c) h = ground (arith, h)

sooner-asym : (a b : Option ℕ) → sooner a b ≡ true → sooner b a ≡ false
unfolding sooner
sooner-asym none b h = absurd (cc h)
sooner-asym (some a) none h = refl
sooner-asym (some a) (some b) h = ground (arith, h)

pub queued_before-IsWeakOrder : IsWeakOrder queued_before
unfolding queued_before
queued_before-IsWeakOrder = (
  λ a b c h.
      let times = sooner-weak a.queued_at b.queued_at c.queued_at in ground (arith, h, times),
  λ a b h. ground (arith, h, sooner-asym a.queued_at b.queued_at),
)

further-weak : (a b c : Option ℕ) → further a c ≡ true → (further a b ≡ true) ⊎ (further b c ≡ true)
unfolding further
further-weak none b c h = absurd (cc h)
further-weak (some a) none c h = inl refl
further-weak (some a) (some b) none h = inr refl
further-weak (some a) (some b) (some c) h = ground (arith, h)

further-asym : (a b : Option ℕ) → further a b ≡ true → further b a ≡ false
unfolding further
further-asym none b h = absurd (cc h)
further-asym (some a) none h = refl
further-asym (some a) (some b) h = ground (arith, h)

pub resumes_before-IsWeakOrder : IsWeakOrder resumes_before
unfolding resumes_before
resumes_before-IsWeakOrder = (
  λ a b c h. ground (
    arith,
    h,
    further-weak a.step b.step c.step,
    further-weak c.step b.step a.step,
    further-weak c.step a.step b.step,
    further-weak b.step c.step a.step,
  ),
  λ a b h. ground (arith, h, further-asym a.step b.step),
)

further-false :
    (a b : Option ℕ) (m : ℕ) → further a b ≡ false → a ≡ some m → (n : ℕ) × (b ≡ some n) × (m ≤ n)
unfolding further
further-false none b m h e = absurd (cc e)
further-false (some a) none m h e = absurd (cc h)
further-false (some a) (some b) m h e = (b, refl, ground (arith, h, some-eq e))

further-same : (a b : Option ℕ) → a ≡ b → further b a ≡ false
further-same a b e = elim (Bool-cases (further b a)) [
  | inr f ↦ f
  | inl f ↦
      let swapped : further a b ≡ true =
        subst (λ x. further x b ≡ true) (sym e) (subst (λ x. further b x ≡ true) e f) in
      absurd (cc (swapped, further-asym b a f))
]

-- Where a checkpoint with a step stands against another one: not further, and where the steps are the
-- same, not newer.
abbrev pub IsNoFurther : Checkpoint → Checkpoint → Type 0
IsNoFurther d c =
    ((m : ℕ) → d.step ≡ some m → (n : ℕ) × (c.step ≡ some n) × (m ≤ n))
    × (d.step ≡ c.step → d.created_at ≤ c.created_at)

resumes_before-IsNoFurther : (d c : Checkpoint) → resumes_before d c ≡ false → IsNoFurther d c
unfolding resumes_before
resumes_before-IsNoFurther d c h = (
  λ m e. further-false d.step c.step m (ground (arith, h)) e,
  λ e. ground (arith, h, further-same d.step c.step e),
)

-- What the WHERE clause asks of a job.
abbrev pub Waits : List ℕ → List ℕ → Job → Type 0
Waits exclude locked j =
    (j.state ≡ queued) × All (λ id. id ≢ j.id) exclude × All (λ id. id ≢ j.id) locked

same_queued : (s : JobState) → same s queued ≡ true → s ≡ queued
unfolding same
same_queued created h = absurd (cc h)
same_queued queued h = refl
same_queued scheduling h = absurd (cc h)
same_queued starting h = absurd (cc h)
same_queued running h = absurd (cc h)
same_queued succeeded h = absurd (cc h)
same_queued failed h = absurd (cc h)
same_queued retrying h = absurd (cc h)
same_queued cancelling h = absurd (cc h)
same_queued cancelled h = absurd (cc h)

any-none : (v : ℕ) (ids : List ℕ) → any (λ id. id == v) ids ≡ false → All (λ id. id ≢ v) ids
any-none v [] h = tt
any-none v (id ∷ ids) h = (λ e. ground (arith, h, e), any-none v ids (ground (arith, h)))

none-any : (v : ℕ) (ids : List ℕ) → All (λ id. id ≢ v) ids → any (λ id. id == v) ids ≡ false
none-any v [] h = refl
none-any v (id ∷ ids) h = ground (arith, h.0, none-any v ids h.1)

is_claimable-Waits :
    (exclude locked : List ℕ) (j : Job)
    → is_claimable exclude locked j ≡ true
    → Waits exclude locked j
unfolding is_claimable
is_claimable-Waits exclude locked j h = (
  same_queued j.state (ground (arith, h)),
  any-none j.id exclude (ground (arith, h)),
  any-none j.id locked (ground (arith, h)),
)

Waits-is_claimable :
    (exclude locked : List ℕ) (j : Job)
    → Waits exclude locked j
    → is_claimable exclude locked j ≡ true
unfolding is_claimable same
Waits-is_claimable exclude locked j h =
    rw (h.0, none-any j.id exclude h.1, none-any j.id locked h.2) refl

-- HIGH before MEDIUM before LOW.
abbrev pub Outranks : Priority → Priority → Type 0
Outranks high high = ⊥
Outranks high medium = Unit
Outranks high low = Unit
Outranks medium high = ⊥
Outranks medium medium = ⊥
Outranks medium low = Unit
Outranks low p = ⊥

-- A job that does not go before another one: it does not outrank it, and where the two are of one
-- priority, it has not waited longer.
abbrev pub IsNoSooner : Job → Job → Type 0
IsNoSooner k j =
    (¬ Outranks k.priority j.priority)
    × (k.priority ≡ j.priority
        → (t : ℕ) → k.queued_at ≡ some t
        → (u : ℕ) × (j.queued_at ≡ some u) × (u ≤ t))

Outranks-rank : (p q : Priority) → Outranks p q → ltb (priority_rank p) (priority_rank q) ≡ true
unfolding priority_rank
Outranks-rank high high h = absurd h
Outranks-rank high medium h = refl
Outranks-rank high low h = refl
Outranks-rank medium high h = absurd h
Outranks-rank medium medium h = absurd h
Outranks-rank medium low h = refl
Outranks-rank low q h = absurd h

sooner-false :
    (a b : Option ℕ) (t : ℕ) → sooner a b ≡ false → a ≡ some t → (u : ℕ) × (b ≡ some u) × (u ≤ t)
unfolding sooner
sooner-false none b t h e = absurd (cc e)
sooner-false (some a) none t h e = absurd (cc h)
sooner-false (some a) (some b) t h e = (b, refl, ground (arith, h, some-eq e))

queued_before-IsNoSooner : (k j : Job) → queued_before k j ≡ false → IsNoSooner k j
unfolding queued_before
queued_before-IsNoSooner k j h = (
  λ o. ground (arith, h, Outranks-rank k.priority j.priority o),
  λ same t e. sooner-false k.queued_at j.queued_at t (ground (arith, h, ap priority_rank same)) e,
)

-- The job that is locked is QUEUED, not excluded and not locked by another transaction, and no such
-- job has a higher priority, or the same priority and an earlier time in the queue.
pub lock_next_queued_job-first :
    (exclude locked : List ℕ) (jobs : List Job) (j : Job)
    → lock_next_queued_job exclude locked jobs ≡ some j
    → In j jobs
      × Waits exclude locked j
      × ((k : Job) → In k jobs → Waits exclude locked k → IsNoSooner k j)
unfolding lock_next_queued_job
lock_next_queued_job-first exclude locked jobs j h =
    let p = is_claimable exclude locked in
    let (inside, least) =
      first_by-first queued_before queued_before-IsWeakOrder (keep p jobs) j h in
    let (found, claimable) = keep-In p jobs inside in
    (
      found,
      is_claimable-Waits exclude locked j claimable,
      λ k m w.
          queued_before-IsNoSooner k j
            (least k (In-keep p m (Waits-is_claimable exclude locked k w))),
    )

-- Where no job is locked, there is none to claim.
pub lock_next_queued_job-none :
    (exclude locked : List ℕ) (jobs : List Job)
    → lock_next_queued_job exclude locked jobs ≡ none
    → (j : Job) → In j jobs
    → ¬ Waits exclude locked j
unfolding lock_next_queued_job
lock_next_queued_job-none exclude locked jobs h j m w =
    let p = is_claimable exclude locked in
    not-In-nil (
      subst (In j) (first_by-none queued_before (keep p jobs) h)
        (In-keep p m (Waits-is_claimable exclude locked j w)))

-- A retry resumes from a READY checkpoint of the job. No READY checkpoint of the job that has a
-- step is at a later one than the chosen one, which then has a step too, and none at the same
-- step, or as well without one, is newer.
pub latest_resumable_checkpoint-first :
    (job : ℕ) (checkpoints : List Checkpoint) (c : Checkpoint)
    → latest_resumable_checkpoint job checkpoints ≡ some c
    → In c checkpoints
      × (c.job ≡ job)
      × (c.ready ≡ true)
      × ((d : Checkpoint) → In d checkpoints → d.job ≡ job → d.ready ≡ true → IsNoFurther d c)
unfolding latest_resumable_checkpoint
latest_resumable_checkpoint-first job checkpoints c h =
    let p : Checkpoint → Bool = λ d. d.job == job && d.ready in
    let (inside, least) =
      first_by-first resumes_before resumes_before-IsWeakOrder (keep p checkpoints) c h in
    let (found, usable) = keep-In p checkpoints inside in
    (
      found,
      ground (arith, usable),
      ground (arith, usable),
      λ d m own ready.
          resumes_before-IsNoFurther d c (least d (In-keep p m (ground (arith, own, ready)))),
    )
