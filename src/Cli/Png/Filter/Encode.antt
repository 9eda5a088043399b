-- ===== src/Cli/Png/Filter/Encode.antt =====
-- The filters of the PNG specification, which packages/cli/src/png.js reverses: what an encoder
-- writes for an image whose bytes are known.
use ash_ml.Base.{
  ℕ, zero, suc, ◌+◌, ◌-◌, ◌*◌, ◌/◌, ◌%◌, ◌<◌, ◌≡◌, refl, ap, ◌∙◌, List, [], ◌∷◌, ◌++◌, length, ltb,
  if◌then◌else◌, arith, length-append,
}
use ash_ml.Cli.Bytes.{byte_at, byte_at-left, byte_at-right}

-- How far apart two numbers are.
abbrev gap : ℕ → ℕ → ℕ
gap m n = (m - n) + (n - m)

-- The Paeth predictor: of the bytes to the left, above, and above and to the left, the first that is
-- nearest to left + above - corner.
unfoldable pub predictor : (left upper corner : ℕ) → ℕ
predictor left upper corner =
    let off : ℕ → ℕ = λ v. gap (left + upper) (v + corner) in
    let best = if ltb (off upper) (off left) then upper else left in
    if ltb (off corner) (off best) then corner else best

-- What each of the five filters takes away from the byte.
unfoldable pub prediction : (filter left upper corner : ℕ) → ℕ
prediction zero left upper corner = 0
prediction (suc zero) left upper corner = left
prediction (suc (suc zero)) left upper corner = upper
prediction (suc (suc (suc zero))) left upper corner = (left + upper) / 2
prediction _ left upper corner = predictor left upper corner

module _ (stride bpp : ℕ) (filters : ℕ → ℕ) (image : List ℕ) where
  -- The byte of the pixel to the left, and 0 before the first.
  unfoldable pub left_byte : (y x : ℕ) → ℕ
  left_byte y x = if ltb x bpp then 0 else byte_at image (y * stride + (x - bpp))

  -- The byte above, and 0 above the first line.
  unfoldable pub upper_byte : (y x : ℕ) → ℕ
  upper_byte zero x = 0
  upper_byte (suc y) x = byte_at image (y * stride + x)

  -- The byte to the left of the one above.
  unfoldable pub corner_byte : (y x : ℕ) → ℕ
  corner_byte zero x = 0
  corner_byte (suc y) x = if ltb x bpp then 0 else byte_at image (y * stride + (x - bpp))

  unfoldable pub filtered : ℕ → ℕ → ℕ
  filtered y x =
      (byte_at image (y * stride + x)
        + 256
        - prediction (filters y) (left_byte y x) (upper_byte y x) (corner_byte y x))
      % 256

  unfoldable pub encode_line : ℕ → (k x : ℕ) → List ℕ
  encode_line y zero x = []
  encode_line y (suc k) x = filtered y x ∷ encode_line y k (suc x)

  unfoldable pub encode_lines : (k y : ℕ) → List ℕ
  encode_lines zero y = []
  encode_lines (suc k) y = (filters y ∷ encode_line y stride 0) ++ encode_lines k (suc y)

  length-encode_line : (y k x : ℕ) → length (encode_line y k x) ≡ k
  unfolding encode_line
  length-encode_line y zero x = refl
  length-encode_line y (suc k) x = ap suc (length-encode_line y k (suc x))

  byte_at-encode_line : (y k x i : ℕ) → i < k → byte_at (encode_line y k x) i ≡ filtered y (x + i)
  unfolding encode_line
  byte_at-encode_line y zero x i h = absurd (omega (arith, h))
  byte_at-encode_line y (suc k) x zero h = ap (filtered y) (omega arith)
  byte_at-encode_line y (suc k) x (suc i) h =
      let shift : suc x + i ≡ x + suc i = omega arith in
      byte_at-encode_line y k (suc x) i (omega (arith, h)) ∙ ap (filtered y) shift

  -- Where each line begins: at its filter, behind the lines before it.
  line_at :
      (k y j i : ℕ)
      → byte_at (encode_lines (suc k) y) (suc j * (stride + 1) + i)
        ≡ byte_at (encode_lines k (suc y)) (j * (stride + 1) + i)
  unfolding encode_lines
  line_at k y j i =
      let line = filters y ∷ encode_line y stride 0 in
      let size = length-encode_line y stride 0 in
      let shift : suc j * (stride + 1) + i ≡ length line + (j * (stride + 1) + i) =
        omega (arith, size) in
      ap (byte_at (line ++ encode_lines k (suc y))) shift
      ∙ byte_at-right line (encode_lines k (suc y)) (j * (stride + 1) + i)

  pub filter_at :
      (k y j : ℕ) → j < k → byte_at (encode_lines k y) (j * (stride + 1)) ≡ filters (y + j)
  filter_at zero y j h = absurd (omega (arith, h))
  filter_at (suc k) y zero h =
      unfold encode_lines in
      let shift : 0 * (stride + 1) ≡ 0 = omega arith in
      let same_line : y ≡ y + 0 = omega arith in
      ap (byte_at ((filters y ∷ encode_line y stride 0) ++ encode_lines k (suc y))) shift
      ∙ ap filters same_line
  filter_at (suc k) y (suc j) h =
      let shift : suc j * (stride + 1) ≡ suc j * (stride + 1) + 0 = omega arith in
      let unshift : j * (stride + 1) + 0 ≡ j * (stride + 1) = omega arith in
      let next : suc y + j ≡ y + suc j = omega arith in
      ap (byte_at (encode_lines (suc k) y)) shift
      ∙ line_at k y j 0
      ∙ ap (byte_at (encode_lines k (suc y))) unshift
      ∙ filter_at k (suc y) j (omega (arith, h))
      ∙ ap filters next

  pub filtered_at :
      (k y j x : ℕ)
      → j < k
      → x < stride
      → byte_at (encode_lines k y) (j * (stride + 1) + suc x) ≡ filtered (y + j) x
  filtered_at zero y j x h g = absurd (omega (arith, h))
  filtered_at (suc k) y zero x h g =
      unfold encode_lines in
      let line = encode_line y stride 0 in
      let size = length-encode_line y stride 0 in
      let shift : 0 * (stride + 1) + suc x ≡ suc x = omega arith in
      let same_line : y ≡ y + 0 = omega arith in
      let same_place : 0 + x ≡ x = omega arith in
      ap (byte_at ((filters y ∷ line) ++ encode_lines k (suc y))) shift
      ∙ byte_at-left line (encode_lines k (suc y)) x (omega (arith, size, g))
      ∙ byte_at-encode_line y stride 0 x g
      ∙ ap (filtered y) same_place
      ∙ ap (λ n. filtered n x) same_line
  filtered_at (suc k) y (suc j) x h g =
      let next : suc y + j ≡ y + suc j = omega arith in
      line_at k y j (suc x)
      ∙ filtered_at k (suc y) j x (omega (arith, h)) g
      ∙ ap (λ n. filtered n x) next

  pub length-encode_lines : (k y : ℕ) → length (encode_lines k y) ≡ (stride + 1) * k
  unfolding encode_lines
  length-encode_lines zero y = omega arith
  length-encode_lines (suc k) y =
      let line = filters y ∷ encode_line y stride 0 in
      omega (
        arith,
        length-append line (encode_lines k (suc y)),
        length-encode_line y stride 0,
        length-encode_lines k (suc y),
      )
