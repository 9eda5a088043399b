-- ===== src/Base/Lists.antt =====
-- Lists measured by native numbers, their Boolean filter and tests, and predicates by recursion.
use Prim.Native.Nat.{ℕ, suc, ◌+◌, ◌≤◌}
use mathlib.Core.Path.{◌≡◌, refl, ap, sym, subst, ◌∙◌}
use mathlib.Core.Logic.{◌⊎◌, inl, inr}
use mathlib.Core.Bool.{Bool, true, false, ◌||◌}
use mathlib.Core.List.{List, [], ◌∷◌, ◌++◌}
use mathlib.Core.Option.{Option, none, some}
use native.Mathlib.Omega.{arith}
use ash_ml.Base.Tests.{if◌then◌else◌, Bool-cases}

module _ {ℓ} {A : Type ℓ} where
  abbrev pub length : List A → ℕ
  length [] = 0
  length (x ∷ xs) = suc (length xs)

  -- `xs.filter(p)`.
  abbrev pub keep : (A → Bool) → List A → List A
  keep p [] = []
  keep p (x ∷ xs) = let rest = keep p xs in if p x then x ∷ rest else rest

  -- `xs.some(p)` and `xs.find(p)`.
  abbrev pub any : (A → Bool) → List A → Bool
  any p [] = false
  any p (x ∷ xs) = p x || any p xs

  abbrev pub find : (A → Bool) → List A → Option A
  find p [] = none
  find p (x ∷ xs) = let rest = find p xs in if p x then some x else rest

  -- `xs.reduce((sum, x) => sum + f(x), 0)`.
  abbrev pub sum_by : (A → ℕ) → List A → ℕ
  sum_by f [] = 0
  sum_by f (x ∷ xs) = f x + sum_by f xs

  abbrev pub All {κ} : (A → Type κ) → List A → Type κ
  All P [] = Unit
  All P (x ∷ xs) = P x × All P xs

  -- Membership, with its place in the list.
  pub data In (a : A) : List A → Type ℓ where
    here : {xs : List A} → In a (a ∷ xs)
    there : {x : A} {xs : List A} → In a xs → In a (x ∷ xs)

  pub length-append : (xs ys : List A) → length (xs ++ ys) ≡ length xs + length ys
  length-append [] ys = omega arith
  length-append (x ∷ xs) ys = omega (arith, length-append xs ys)

  pub length-keep-le : (p : A → Bool) (xs : List A) → length (keep p xs) ≤ length xs
  length-keep-le p [] = omega arith
  length-keep-le p (x ∷ xs) = ground (arith, length-keep-le p xs)

  pub sum_by-append : (f : A → ℕ) (xs ys : List A) → sum_by f (xs ++ ys) ≡ sum_by f xs + sum_by f ys
  sum_by-append f [] ys = omega arith
  sum_by-append f (x ∷ xs) ys = omega (arith, sum_by-append f xs ys)

  pub In-sum_by : {a : A} {xs : List A} (f : A → ℕ) → In a xs → f a ≤ sum_by f xs
  In-sum_by f (here {xs}) = omega arith
  In-sum_by f (there {x} {xs} m) = omega (arith, In-sum_by f m)

  pub In-keep : {a : A} {xs : List A} (p : A → Bool) → In a xs → p a ≡ true → In a (keep p xs)
  In-keep {a} p (here {xs}) h = kept (p a) h
    where
      kept : (b : Bool) → b ≡ true → In a (if b then a ∷ keep p xs else keep p xs)
      kept true e = here
      kept false e = cc
  In-keep {a} p (there {x} {xs} m) h = kept (p x) (In-keep p m h)
    where
      kept : (b : Bool) → In a (keep p xs) → In a (if b then x ∷ keep p xs else keep p xs)
      kept true i = there i
      kept false i = i

  pub In-cons : {a x : A} {xs : List A} → In a (x ∷ xs) → (a ≡ x) ⊎ In a xs
  In-cons here = inl refl
  In-cons (there m) = inr m

  pub In-cons_of : {a x : A} {xs : List A} → (a ≡ x) ⊎ In a xs → In a (x ∷ xs)
  In-cons_of {x} {xs} (inl e) = subst (λ b. In b (x ∷ xs)) (sym e) here
  In-cons_of (inr m) = there m

  pub not-In-nil : {a : A} → ¬ In a []
  not-In-nil = elim [ ]

  pub keep-In : {a : A} (p : A → Bool) (xs : List A) → In a (keep p xs) → In a xs × (p a ≡ true)
  keep-In p [] i = absurd (not-In-nil i)
  keep-In {a} p (x ∷ xs) i = elim (Bool-cases (p x)) [
    | inl e ↦ elim (In-cons (rw e at i)) [
      | inl h ↦ (subst (λ y. In y (x ∷ xs)) (sym h) here, ap p h ∙ e)
      | inr m ↦ (there (keep-In p xs m).0, (keep-In p xs m).1)
    ]
    | inr e ↦ (there (keep-In p xs (rw e at i)).0, (keep-In p xs (rw e at i)).1)
  ]

  pub All-In {κ} : (P : A → Type κ) {a : A} (xs : List A) → All P xs → In a xs → P a
  All-In P [] h m = absurd (not-In-nil m)
  All-In P (x ∷ xs) h m = elim (In-cons m) [
    | inl e ↦ subst P (sym e) h.0
    | inr k ↦ All-In P xs h.1 k
  ]

  pub In-All {κ} : (P : A → Type κ) (xs : List A) → ((a : A) → In a xs → P a) → All P xs
  In-All P [] f = tt
  In-All P (x ∷ xs) f = (f x here, In-All P xs (λ a m. f a (there m)))

  -- What `find` returns passes the test and is in the list.
  pub find-some : (p : A → Bool) (xs : List A) {a : A} → find p xs ≡ some a → (p a ≡ true) × In a xs
  find-some p [] h = cc
  find-some p (x ∷ xs) {a} h = elim (Bool-cases (p x)) [
    | inl e ↦
        let same : x ≡ a = cc (rw e at h) in
        (subst (λ y. p y ≡ true) same e, subst (λ y. In y (x ∷ xs)) same here)
    | inr e ↦ let later = find-some p xs (rw e at h) in (later.0, there later.1)
  ]

  -- What `find` passes over fails the test.
  pub find-In :
      (p : A → Bool) (xs : List A) {a : A} → In a xs → p a ≡ true → (b : A) × (find p xs ≡ some b)
  find-In p [] m h = absurd (not-In-nil m)
  find-In p (x ∷ xs) {a} m h = elim (Bool-cases (p x)) [
    | inl e ↦ (x, rw e)
    | inr e ↦ elim (In-cons m) [
      | inl q ↦ absurd (cc (e, h, ap p q))
      | inr k ↦ let (b, f) = find-In p xs k h in (b, rw e f)
    ]
  ]
