-- ===== src/Base/Sort.antt =====
-- `Array.prototype.sort` with a comparator: a stable insertion sort. An element goes before those
-- that it does not exceed, and equal ones keep their order.
use Prim.Native.Nat.{ℕ, suc, ◌+◌}
use mathlib.Core.Path.{◌≡◌, refl, sym, subst}
use mathlib.Core.Logic.{◌⊎◌, inl, inr}
use mathlib.Core.Bool.{true, false}
use mathlib.Core.List.{List, [], ◌∷◌}
use native.Mathlib.Omega.{arith}
use ash_ml.Base.Tests.{if◌then◌else◌, Bool-cases}
use ash_ml.Base.Lists.{length, sum_by, All, In, here, there, In-cons, In-cons_of}
use ash_ml.Base.Int.{ℤ, is_positive}

module _ {ℓ} {A : Type ℓ} (compare_by : A → A → ℤ) where
  unfoldable pub insert : A → List A → List A
  insert x [] = x ∷ []
  insert x (y ∷ ys) =
      let later = y ∷ insert x ys in if is_positive (compare_by x y) then later else x ∷ y ∷ ys

  unfoldable pub sort_by : List A → List A
  unfolding insert
  sort_by [] = []
  sort_by (x ∷ xs) = insert x (sort_by xs)

  pub insert-All {κ} : (P : A → Type κ) (x : A) (ys : List A) → P x → All P ys → All P (insert x ys)
  unfolding insert
  insert-All P x [] p h = (p, tt)
  insert-All P x (y ∷ ys) p h = elim (Bool-cases (is_positive (compare_by x y))) [
    | inl e ↦ rw e (h.0, insert-All P x ys p h.1)
    | inr e ↦ rw e (p, h)
  ]

  pub sort_by-All {κ} : (P : A → Type κ) (xs : List A) → All P xs → All P (sort_by xs)
  unfolding sort_by
  sort_by-All P [] h = tt
  sort_by-All P (x ∷ xs) h = insert-All P x (sort_by xs) h.0 (sort_by-All P xs h.1)

  length-insert : (x : A) (ys : List A) → length (insert x ys) ≡ suc (length ys)
  unfolding insert
  length-insert x [] = refl
  length-insert x (y ∷ ys) = ground (arith, length-insert x ys)

  pub length-sort_by : (xs : List A) → length (sort_by xs) ≡ length xs
  unfolding sort_by
  length-sort_by [] = refl
  length-sort_by (x ∷ xs) = omega (arith, length-insert x (sort_by xs), length-sort_by xs)

  sum_by-insert : (f : A → ℕ) (x : A) (ys : List A) → sum_by f (insert x ys) ≡ f x + sum_by f ys
  unfolding insert
  sum_by-insert f x [] = refl
  sum_by-insert f x (y ∷ ys) = ground (arith, sum_by-insert f x ys)

  pub sum_by-sort_by : (f : A → ℕ) (xs : List A) → sum_by f (sort_by xs) ≡ sum_by f xs
  unfolding sort_by
  sum_by-sort_by f [] = refl
  sum_by-sort_by f (x ∷ xs) = omega (arith, sum_by-insert f x (sort_by xs), sum_by-sort_by f xs)

  insert-In_later :
      {a : A} (x y : A) (ys : List A)
      → ((a ≡ x) ⊎ In a ys → In a (insert x ys))
      → (a ≡ x) ⊎ In a (y ∷ ys)
      → In a (y ∷ insert x ys)
  insert-In_later x y ys rest (inl h) = there (rest (inl h))
  insert-In_later {a} x y ys rest (inr k) = elim (In-cons k) [
    | inl h ↦ subst (λ b. In b (y ∷ insert x ys)) (sym h) here
    | inr j ↦ there (rest (inr j))
  ]

  insert-In : {a : A} (x : A) (ys : List A) → (a ≡ x) ⊎ In a ys → In a (insert x ys)
  unfolding insert
  insert-In x [] m = In-cons_of m
  insert-In {a} x (y ∷ ys) m = elim (Bool-cases (is_positive (compare_by x y))) [
    | inl e ↦ rw e (insert-In_later x y ys (insert-In x ys) m)
    | inr e ↦ rw e (In-cons_of m)
  ]

  pub sort_by-In : {a : A} (xs : List A) → In a xs → In a (sort_by xs)
  unfolding sort_by
  sort_by-In [] m = m
  sort_by-In {a} (x ∷ xs) m = elim (In-cons m) [
    | inl e ↦ insert-In x (sort_by xs) (inl e)
    | inr k ↦ insert-In x (sort_by xs) (inr (sort_by-In xs k))
  ]

  -- `a` does not come after `b`.
  abbrev pub Before : A → A → Type 0
  Before a b = is_positive (compare_by a b) ≡ false

  abbrev pub IsLeast : List A → Type 0
  IsLeast [] = Unit
  IsLeast (x ∷ xs) = All (Before x) xs

  -- A comparator by which the order makes sense.
  pub record IsComparator : Type ℓ where
    pub asym : (a b : A) → is_positive (compare_by a b) ≡ true → Before b a
    pub trans : (a b c : A) → Before a b → Before b c → Before a c

module _ {ℓ} {A : Type ℓ} (compare_by : A → A → ℤ) (order : IsComparator compare_by) where
  All-after :
      (x y : A) (ys : List A)
      → Before compare_by x y
      → All (Before compare_by y) ys
      → All (Before compare_by x) ys
  All-after x y [] h a = tt
  All-after x y (z ∷ ys) h a = (order.trans x y z h a.0, All-after x y ys h a.1)

  insert-IsLeast :
      (x : A) (ys : List A) → IsLeast compare_by ys → IsLeast compare_by (insert compare_by x ys)
  unfolding insert
  insert-IsLeast x [] h = tt
  insert-IsLeast x (y ∷ ys) h = elim (Bool-cases (is_positive (compare_by x y))) [
    | inl e ↦ rw e (insert-All compare_by (Before compare_by y) x ys (order.asym x y e) h)
    | inr e ↦ rw e (e, All-after x y ys e h)
  ]

  -- The first element of a sorted list comes after no other.
  pub sort_by-IsLeast : (xs : List A) → IsLeast compare_by (sort_by compare_by xs)
  unfolding sort_by
  sort_by-IsLeast [] = tt
  sort_by-IsLeast (x ∷ xs) = insert-IsLeast x (sort_by compare_by xs) (sort_by-IsLeast xs)
