-- ===== src/Services/Deployments/Cluster/Runs.antt =====
-- What an action on the row and the cluster leaves, whether it throws or not, and the rules by which
-- its parts show it.
use ash_ml.Services.Deployments.Cluster.{World, Outcome, threw, did, Act, ◌>>=◌, pure}

module _ (E : World → Type 0) where
  -- What holds behind an action: `Q` of its result where it gives one, `E` where it throws.
  abbrev pub Ends : {A : Type 0} → (A → World → Type 0) → Outcome A → Type 0
  Ends Q (did a w) = Q a w
  Ends Q (threw e w) = E w

  pub record Runs {A : Type 0} (P : World → Type 0) (m : Act A) (Q : A → World → Type 0)
      : Type 0 where
    pub runs : (w : World) → P w → Ends Q (m w)

  pub pure-Runs :
      {A : Type 0} {P : World → Type 0} {Q : A → World → Type 0} (a : A)
      → ((w : World) → P w → Q a w)
      → Runs P (pure a) Q
  pure-Runs a h = record { runs = h }

  pub bind-Runs :
      {A B : Type 0} {P : World → Type 0} {Q : A → World → Type 0} {R : B → World → Type 0}
      {m : Act A} {k : A → Act B}
      → Runs P m Q
      → ((a : A) → Runs (Q a) (k a) R)
      → Runs P (m >>= k) R
  bind-Runs {Q} {R} {m} {k} h l = record { runs = λ w p. after (m w) (h.runs w p) }
    where
      after :
          (r : Outcome _)
          → Ends Q r
          → Ends R (elim r [ threw e w' ↦ threw e w' | did b w' ↦ k b w' ])
      after (did a w) q = (l a).runs w q
      after (threw e w) q = q
