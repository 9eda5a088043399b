-- ===== src/Services/Store/Keeps.antt =====
-- Properties of the store that an action keeps, and the rules by which its parts show it.
use ash_ml.Base.{◌≡◌, refl, Bool, true, false, if◌then◌else◌}
use ash_ml.Services.Store.{Db, Result, ok, err, M, pure, throw, ◌>>=◌, ◌>>◌}

-- What an action leaves where it succeeds.
abbrev pub Leaves {ℓ} : {A : Type 0} → (Db → Type ℓ) → Result (A × Db) → Type ℓ
Leaves P (ok (a, db)) = P db
Leaves P (err e) = Unit

pub record Keeps {ℓ} {A : Type 0} (P : Db → Type ℓ) (m : M A) : Type ℓ where
  pub keeps : (db : Db) → P db → Leaves P (m db)

module _ {ℓ} (P : Db → Type ℓ) where
  pub pure-Keeps : {A : Type 0} (a : A) → Keeps P (pure a)
  pure-Keeps a = record { keeps = λ db h. h }

  pub throw-Keeps : {A : Type 0} (e : ash_ml.Services.Store.Error) → Keeps P (throw {B = A} e)
  throw-Keeps e = record { keeps = λ db h. tt }

  pub bind-Keeps :
      {A B : Type 0} {m : M A} {f : A → M B}
      → Keeps P m
      → ((a : A) → Keeps P (f a))
      → Keeps P (m >>= f)
  bind-Keeps {A} {B} {m} {f} k l = record { keeps = λ db h. after (m db) (k.keeps db h) }
    where
      after :
          (r : Result (A × Db))
          → Leaves P r
          → Leaves P (elim r [ ok (a, db') ↦ f a db' | err e ↦ err e ])
      after (ok (a, db')) h = (l a).keeps db' h
      after (err e) h = tt

  pub then-Keeps :
      {B : Type 0} {m : M (Unit {0})} {k : M B} → Keeps P m → Keeps P k → Keeps P (m >> k)
  then-Keeps h l = bind-Keeps h (λ _. l)

  pub if-Keeps :
      {A : Type 0} (b : Bool) {m k : M A} → Keeps P m → Keeps P k → Keeps P (if b then m else k)
  if-Keeps true h l = h
  if-Keeps false h l = l

-- What follows an action is asked only at the store that the action leaves.
pub then-Leaves {ℓ} :
    {B : Type 0} (P : Db → Type ℓ) (m : M (Unit {0})) (k : M B) (db : Db)
    → ((db' : Db) → m db ≡ ok (tt, db') → Leaves P (k db'))
    → Leaves P ((m >> k) db)
then-Leaves P m k db h = after (m db) refl
  where
    after :
        (r : Result (Unit {0} × Db))
        → m db ≡ r
        → Leaves P (elim r [ ok (a, db') ↦ k db' | err e ↦ err e ])
    after (ok (a, db')) e = h db' e
    after (err x) e = tt

pub bind-Leaves {ℓ} :
    {A B : Type 0} (P : Db → Type ℓ) (m : M A) (f : A → M B) (db : Db)
    → ((a : A) (db' : Db) → m db ≡ ok (a, db') → Leaves P (f a db'))
    → Leaves P ((m >>= f) db)
bind-Leaves {A} P m f db h = after (m db) refl
  where
    after :
        (r : Result (A × Db))
        → m db ≡ r
        → Leaves P (elim r [ ok (a, db') ↦ f a db' | err e ↦ err e ])
    after (ok (a, db')) e = h a db' e
    after (err x) e = tt
