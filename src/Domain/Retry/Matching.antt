-- ===== src/Domain/Retry/Matching.antt =====
-- How a reason is matched.
use ash_ml.Base.{
  In, here, there, In-cons, In-cons_of, not-In-nil, ◌⊎◌, inl, inr, Bool-cases, ℕ, ◌≡◌, refl, Bool,
  true, false, some, List, [], ◌∷◌, ◌++◌, map, any, arith, if◌then◌else◌, ==-self,
}
use ash_ml.Domain.Retry.{
  Pattern, fold_case, starts, contains, matches, categories, first_match, classify_failure,
}

fold_case_idem : (c : ℕ) → fold_case (fold_case c) ≡ fold_case c
unfolding fold_case
fold_case_idem c = ground arith

starts-fold : (p text : List ℕ) → starts p (map fold_case text) ≡ starts p text
unfolding starts
starts-fold [] text = refl
starts-fold (p ∷ ps) [] = refl
starts-fold (p ∷ ps) (c ∷ text) = rw (fold_case_idem c, starts-fold ps text)

contains-fold : (p text : List ℕ) → contains p (map fold_case text) ≡ contains p text
unfolding contains
contains-fold p [] = refl
contains-fold p (c ∷ text) = ground (arith, starts-fold p (c ∷ text), contains-fold p text)

matches-fold : (p : Pattern) (text : List ℕ) → matches p (map fold_case text) ≡ matches p text
unfolding matches
matches-fold p text = go p.alternatives
  where
    go :
        (texts : List (List ℕ))
        → any (λ a. contains a (map fold_case text)) texts ≡ any (λ a. contains a text) texts
    go [] = refl
    go (a ∷ texts) = rw (contains-fold a text, go texts)

first_match-fold :
    (ps : List Pattern) (text : List ℕ) → first_match ps (map fold_case text) ≡ first_match ps text
unfolding first_match
first_match-fold [] text = refl
first_match-fold (p ∷ ps) text = rw (matches-fold p text, first_match-fold ps text)

-- The case of the ASCII letters of a reason changes neither its category nor whether it is retried.
pub classify_failure-fold_case :
    (reason : List ℕ)
    → classify_failure (some (map fold_case reason)) ≡ classify_failure (some reason)
unfolding classify_failure
classify_failure-fold_case reason = first_match-fold categories reason

starts_self : (p rest : List ℕ) → starts p (p ++ rest) ≡ true
unfolding starts
starts_self [] rest = refl
starts_self (c ∷ p) rest = rw (==-self (fold_case c), starts_self p rest)

contains_start : (p after : List ℕ) → contains p (p ++ after) ≡ true
unfolding contains
contains_start [] [] = refl
contains_start [] (c ∷ after) = refl
contains_start (c ∷ p) after = ground (arith, starts_self (c ∷ p) after)

contains_inside : (before p after : List ℕ) → contains p (before ++ (p ++ after)) ≡ true
unfolding contains
contains_inside [] p after = contains_start p after
contains_inside (c ∷ before) p after = ground (arith, contains_inside before p after)

any-In {ℓ} :
    {A : Type ℓ} (f : A → Bool) {a : A} {xs : List A} → In a xs → f a ≡ true → any f xs ≡ true
any-In f (here {xs}) h = rw h
any-In f (there {x} {xs} m) h = ground (arith, any-In f m h)

-- The literal texts of the patterns that stand before the first retryable one.
abbrev pub hopeless : List Pattern → List (List ℕ)
hopeless [] = []
hopeless (p ∷ ps) = if p.retryable then [] else p.alternatives ++ hopeless ps

append-In {ℓ} :
    {A : Type ℓ} {a : A} (xs : List A) {ys : List A} → In a (xs ++ ys) → In a xs ⊎ In a ys
append-In [] m = inr m
append-In (x ∷ xs) m = elim (In-cons m) [
  | inl e ↦ inl (In-cons_of (inl e))
  | inr k ↦ elim (append-In xs k) [ inl j ↦ inl (there j) | inr j ↦ inr j ]
]

pub first_match-hopeless :
    (ps : List Pattern) (before a after : List ℕ)
    → In a (hopeless ps)
    → (first_match ps (before ++ (a ++ after))).retryable ≡ false
unfolding first_match matches
first_match-hopeless [] before a after m = absurd (not-In-nil m)
first_match-hopeless (p ∷ ps) before a after m = elim (Bool-cases p.retryable) [
  | inl e ↦ absurd (not-In-nil (rw e at m))
  | inr e ↦ elim (append-In p.alternatives (rw e at m)) [
    | inl j ↦
        rw (any-In (λ b. contains b (before ++ (a ++ after))) j (contains_inside before a after)) e
    | inr j ↦ ground (arith, e, first_match-hopeless ps before a after j)
  ]
]
