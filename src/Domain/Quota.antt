-- ===== src/Domain/Quota.antt =====
-- packages/server/src/domain/quota.js: may a project afford one more job? Amounts are whole numbers;
-- the text of a refusal is the check itself, whose numbers it shows.
pub mod Order
use ash_ml.Base.{
  ℕ, Bool, true, false, Option, none, some, List, [], ◌∷◌, ◌==◌, if◌then◌else◌, ℤ, pos, ltb_ℤ, ◌+ℤ◌,
}

pub data QuotaBreach : Type 0 where
  gpu cpu memory jobs : QuotaBreach

pub record Request : Type 0 where
  pub cpu : ℕ
  pub memory_bytes : ℕ
  pub gpu : ℕ
  pub gpu_memory_min_bytes : ℕ

pub record Quota : Type 0 where
  pub gpu_limit : ℕ
  pub cpu_limit : ℕ
  pub memory_bytes : ℕ
  pub job_limit : ℕ

-- What is in use: the scheduler takes a job's own request off it, so it is a signed number.
pub record Usage : Type 0 where
  pub gpu : ℤ
  pub cpu : ℤ
  pub memory_bytes : ℤ
  pub jobs : ℤ

pub record Check : Type 0 where
  pub code : QuotaBreach
  pub limit : ℕ
  pub used : ℤ
  pub wanted : ℕ

-- The array `checks`, in its order.
unfoldable pub checks : Request → Quota → Usage → List Check
checks request quota usage =
    record { code = jobs; limit = quota.job_limit; used = usage.jobs; wanted = 1 }
    ∷ record { code = gpu; limit = quota.gpu_limit; used = usage.gpu; wanted = request.gpu }
    ∷ record { code = cpu; limit = quota.cpu_limit; used = usage.cpu; wanted = request.cpu }
    ∷ record {
      code = memory;
      limit = quota.memory_bytes;
      used = usage.memory_bytes;
      wanted = request.memory_bytes;
    }
    ∷ []

-- The body of the loop: whether a check refuses. A limit of 0 is none.
unfoldable pub breaks : Check → Bool
breaks c =
    if c.limit == 0
    then false
    else if c.wanted == 0
    then false
    else ltb_ℤ (pos c.limit) (c.used +ℤ pos c.wanted)

unfoldable pub first_breach : List Check → Option Check
first_breach [] = none
first_breach (c ∷ cs) = let rest = first_breach cs in if breaks c then some c else rest

-- `none` is `allowed: true`; otherwise the check that refused, with its code and numbers.
unfoldable pub check_quota : Request → Quota → Usage → Option Check
unfolding checks first_breach breaks
check_quota request quota usage = first_breach (checks request quota usage)
