-- ===== src/Cli/Png/Chunks/Enough.antt =====
-- The loop over the chunks of packages/cli/src/png.js ends.
use ash_ml.Base.{
  ℕ, zero, suc, ◌+◌, ◌≤◌, ◌<◌, ◌≡◌, refl, ◌∙◌, ◌⊎◌, inl, inr, true, false, some, List, length, leb,
  Bool-cases, arith,
}
use ash_ml.Cli.Png.{Png, PngError, refused, decoded, Found}
use ash_ml.Cli.Png.Chunks.{Turn, stopped, turned, turn, data_end, read_chunks}

-- Each turn leaves at least its length, its name and its check sum behind.
data_end-past : (buffer : List ℕ) (offset : ℕ) → offset + 12 ≤ data_end buffer offset + 4
unfolding data_end
data_end-past buffer offset = omega arith

past-leb : (a b : ℕ) → b < a → leb a b ≡ false
past-leb a b h = ground arith

pub Turn-cases :
    (t : Png Turn)
    → ((e : PngError) × (t ≡ refused e))
      ⊎ ((f : Found) × (t ≡ decoded (stopped f)))
      ⊎ ((f : Found) × (t ≡ decoded (turned f)))
Turn-cases (refused e) = inl (e, refl)
Turn-cases (decoded (stopped f)) = inr (inl (f, refl))
Turn-cases (decoded (turned f)) = inr (inr (f, refl))

module _ (buffer : List ℕ) (offset : ℕ) (found : Found) where
  -- The four ways in which a turn of the loop goes.
  pub read_chunks-past :
      (fuel : ℕ)
      → 0 < fuel
      → length buffer < offset + 8
      → read_chunks fuel buffer offset found ≡ some (decoded found)
  unfolding read_chunks
  read_chunks-past zero g h = absurd (omega (arith, g))
  read_chunks-past (suc fuel) g h = ground (arith, h)

  pub read_chunks-refused :
      {e : PngError} (fuel : ℕ)
      → 0 < fuel
      → leb (offset + 8) (length buffer) ≡ true
      → turn buffer offset found ≡ refused e
      → read_chunks fuel buffer offset found ≡ some (refused e)
  unfolding read_chunks
  read_chunks-refused zero g h t = absurd (omega (arith, g))
  read_chunks-refused (suc fuel) g h t = ground (arith, h, t)

  pub read_chunks-stopped :
      {f : Found} (fuel : ℕ)
      → 0 < fuel
      → leb (offset + 8) (length buffer) ≡ true
      → turn buffer offset found ≡ decoded (stopped f)
      → read_chunks fuel buffer offset found ≡ some (decoded f)
  unfolding read_chunks
  read_chunks-stopped zero g h t = absurd (omega (arith, g))
  read_chunks-stopped (suc fuel) g h t = ground (arith, h, t)

  pub read_chunks-turned :
      {f : Found} (fuel : ℕ)
      → leb (offset + 8) (length buffer) ≡ true
      → turn buffer offset found ≡ decoded (turned f)
      → read_chunks (suc fuel) buffer offset found
        ≡ read_chunks fuel buffer (data_end buffer offset + 4) f
  unfolding read_chunks
  read_chunks-turned fuel h t = ground (arith, h, t)

-- A fuel above what is left of the buffer is enough, and more changes nothing.
pub read_chunks-enough :
    (buffer : List ℕ) (least offset : ℕ) (found : Found)
    → length buffer < offset + 8 + least
    → (result : Png Found) × ((fuel : ℕ)
        → least < fuel
        → read_chunks fuel buffer offset found ≡ some result)
read_chunks-enough buffer zero offset found h =
    (decoded found, λ fuel g. read_chunks-past buffer offset found fuel g (omega (arith, h)))
read_chunks-enough buffer (suc least) offset found h =
    elim (Bool-cases (leb (offset + 8) (length buffer))) [
      | inr past ↦
          let over : length buffer < offset + 8 = ground (arith, past) in
          (
            decoded found,
            λ fuel g. read_chunks-past buffer offset found fuel (omega (arith, g)) over,
          )
      | inl inside ↦ elim (Turn-cases (turn buffer offset found)) [
        | inl (e, t) ↦ (
          refused e,
          λ fuel g. read_chunks-refused buffer offset found fuel (omega (arith, g)) inside t,
        )
        | inr (inl (f, t)) ↦ (
          decoded f,
          λ fuel g. read_chunks-stopped buffer offset found fuel (omega (arith, g)) inside t,
        )
        | inr (inr (f, t)) ↦
            let next = data_end buffer offset + 4 in
            let further = data_end-past buffer offset in
            let (result, same) =
              read_chunks-enough buffer least next f (omega (arith, h, further)) in
            (result, later f inside t result same)
      ]
    ]
  where
    later :
        (f : Found)
        → leb (offset + 8) (length buffer) ≡ true
        → turn buffer offset found ≡ decoded (turned f)
        → (result : Png Found)
        → ((fuel : ℕ)
            → least < fuel
            → read_chunks fuel buffer (data_end buffer offset + 4) f ≡ some result)
        → (fuel : ℕ) → suc least < fuel
        → read_chunks fuel buffer offset found ≡ some result
    later f inside t result same zero g = absurd (omega (arith, g))
    later f inside t result same (suc fuel) g =
        read_chunks-turned buffer offset found fuel inside t ∙ same fuel (omega (arith, g))
