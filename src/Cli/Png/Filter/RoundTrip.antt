-- ===== src/Cli/Png/Filter/RoundTrip.antt =====
-- `unfilter` of packages/cli/src/png.js against the filters of the specification.
use ash_ml.Base.{
  ℕ, zero, suc, refl, inl, inr, ◌&&◌, ◌==◌, ◌/◌, if◌then◌else◌, leb, ltb, Bool-cases, ◌+◌, ◌-◌, ◌*◌,
  ◌%◌, ◌≤◌, ◌<◌, ◌≡◌, ap, sym, ◌∙◌, List, length, All, arith,
}
use ash_ml.Cli.Bytes.{
  IsByte, byte_at, take, drop, subarray, byte_at-take, byte_at-drop, byte_at-IsByte, take-suc,
  take-length,
}
use ash_ml.Cli.Png.{decoded}
use ash_ml.Cli.Png.Filter.{
  distance, paeth, reconstruct, left_of, above, above_left, unfilter_line, unfilter_lines, unfilter,
}
use ash_ml.Cli.Png.Filter.Encode.{
  predictor, prediction, left_byte, upper_byte, corner_byte, filtered, encode_lines, filter_at,
  filtered_at,
}

paeth-IsByte : (a b c : ℕ) → a < 256 → b < 256 → c < 256 → paeth a b c < 256
unfolding paeth
paeth-IsByte a b c ha hb hc = ground arith

-- What the decoder adds.
abbrev predicted : ℕ → ℕ → ℕ → ℕ → ℕ
predicted filter a b c =
    if filter == 0
    then 0
    else if filter == 1
    then a
    else if filter == 2
    then b
    else if filter == 3
    then (a + b) / 2
    else paeth a b c

-- The first of three with the least distance, found by two comparisons or by three.
first_nearest :
    (f : ℕ → ℕ) (a b c : ℕ)
    → (let best = if ltb (f b) (f a) then b else a in if ltb (f c) (f best) then c else best)
      ≡ (if leb (f a) (f b) && leb (f a) (f c) then a else if leb (f b) (f c) then b else c)
first_nearest f a b c = elim (Bool-cases (ltb (f b) (f a))) [
  | inl e ↦ rw e (ground (arith, e))
  | inr e ↦ rw e (ground (arith, e))
]

paeth-predictor : (a b c : ℕ) → predictor a b c ≡ paeth a b c
unfolding predictor paeth
paeth-predictor a b c = first_nearest (λ v. distance (a + b) (v + c)) a b c

prediction-predicted : (filter a b c : ℕ) → prediction filter a b c ≡ predicted filter a b c
unfolding prediction
prediction-predicted zero a b c = refl
prediction-predicted (suc zero) a b c = refl
prediction-predicted (suc (suc zero)) a b c = refl
prediction-predicted (suc (suc (suc zero))) a b c = refl
prediction-predicted (suc (suc (suc (suc n)))) a b c = ground (arith, paeth-predictor a b c)

module _ (stride bpp : ℕ) (filters : ℕ → ℕ) (image : List ℕ) where
  left_byte-left_of :
      (y x : ℕ) → left_byte stride bpp filters image y x ≡ left_of stride bpp image y x
  unfolding left_byte left_of
  left_byte-left_of y x = elim (Bool-cases (leb bpp x)) [
    | inl e ↦
        let place : y * stride + (x - bpp) ≡ y * stride + x - bpp = ground (arith, e) in
        ground (arith, e, ap (byte_at image) place)
    | inr e ↦ ground (arith, e)
  ]

  upper_byte-above : (y x : ℕ) → upper_byte stride bpp filters image y x ≡ above stride image y x
  unfolding upper_byte above
  upper_byte-above zero x = ground arith
  upper_byte-above (suc y) x =
      let place : y * stride + x ≡ suc y * stride - stride + x = omega arith in
      ground (arith, ap (byte_at image) place)

  corner_byte-above_left :
      (y x : ℕ) → corner_byte stride bpp filters image y x ≡ above_left stride bpp image y x
  unfolding corner_byte above_left
  corner_byte-above_left zero x = ground arith
  corner_byte-above_left (suc y) x = elim (Bool-cases (leb bpp x)) [
    | inl e ↦
        let place : y * stride + (x - bpp) ≡ suc y * stride - stride + x - bpp =
          ground (arith, e) in
        ground (arith, e, ap (byte_at image) place)
    | inr e ↦ ground (arith, e)
  ]

predicted-IsByte : (filter a b c : ℕ) → a < 256 → b < 256 → c < 256 → predicted filter a b c < 256
predicted-IsByte filter a b c ha hb hc = ground (arith, paeth-IsByte a b c ha hb hc)

reconstruct-adds :
    (filter y v a b c : ℕ)
    → filter ≤ 4
    → reconstruct filter y v a b c ≡ decoded (v + predicted filter a b c)
unfolding reconstruct
reconstruct-adds filter y v a b c h = ground arith

row_above : (stride y : ℕ) → 0 < y → stride ≤ y * stride
row_above stride zero h = absurd (omega (arith, h))
row_above stride (suc y) h = omega arith

row_below : (stride y height : ℕ) → y < height → y * stride + stride ≤ height * stride
row_below stride y zero h = absurd (omega (arith, h))
row_below stride zero (suc height) h = omega arith
row_below stride (suc y) (suc height) h =
    omega (arith, row_below stride y height (omega (arith, h)))

-- What a filter takes away, its reversal adds again, up to a multiple of 256.
restored : (v p : ℕ) → v < 256 → p < 256 → ((v + 256 - p) % 256 + p) % 256 ≡ v
restored v p hv hp = omega (arith, hv, hp)

module _ (stride bpp : ℕ) (positive : 0 < bpp) (image : List ℕ) (y : ℕ) where
  -- The neighbours of a byte are among those in front of it.
  left_of-take :
      (x : ℕ) → left_of stride bpp (take (y * stride + x) image) y x ≡ left_of stride bpp image y x
  unfolding left_of
  left_of-take x =
      ground (arith, positive, byte_at-take (y * stride + x) (y * stride + x - bpp) image)

  above-take :
      (x : ℕ) → x < stride → above stride (take (y * stride + x) image) y x ≡ above stride image y x
  unfolding above
  above-take x h =
      ground (
        arith,
        h,
        row_above stride y,
        byte_at-take (y * stride + x) (y * stride - stride + x) image,
      )

  above_left-take :
      (x : ℕ)
      → x < stride
      → above_left stride bpp (take (y * stride + x) image) y x ≡ above_left stride bpp image y x
  unfolding above_left
  above_left-take x h = ground (
    arith,
    h,
    row_above stride y,
    byte_at-take (y * stride + x) (y * stride - stride + x - bpp) image,
  )

  module _ (bytes : All IsByte image) (filters : ℕ → ℕ) (known : filters y ≤ 4) where
    left_of-IsByte : (x : ℕ) → left_of stride bpp image y x < 256
    unfolding left_of
    left_of-IsByte x = ground (arith, byte_at-IsByte image (y * stride + x - bpp) bytes)

    above-IsByte : (x : ℕ) → above stride image y x < 256
    unfolding above
    above-IsByte x = ground (arith, byte_at-IsByte image (y * stride - stride + x) bytes)

    above_left-IsByte : (x : ℕ) → above_left stride bpp image y x < 256
    unfolding above_left
    above_left-IsByte x = ground (arith, byte_at-IsByte image (y * stride - stride + x - bpp) bytes)

    filtered-restored :
        (x : ℕ)
        → (filtered stride bpp filters image y x
              + predicted
                  (filters y)
                  (left_of stride bpp image y x)
                  (above stride image y x)
                  (above_left stride bpp image y x))
            % 256
          ≡ byte_at image (y * stride + x)
    unfolding filtered
    filtered-restored x =
        rw
          (
            left_byte-left_of stride bpp filters image y x,
            upper_byte-above stride bpp filters image y x,
            corner_byte-above_left stride bpp filters image y x,
            prediction-predicted (filters y) (left_of stride bpp image y x) (above stride image y x)
                (above_left stride bpp image y x),
          )
          (restored _ _ (byte_at-IsByte image (y * stride + x) bytes) (
            predicted-IsByte (filters y) _ _ _ (left_of-IsByte x) (above-IsByte x)
              (above_left-IsByte x)))

    -- The rest of a line, behind what is reconstructed already.
    unfilter_line-filtered :
        (line : List ℕ)
        → ((x : ℕ) → x < stride → byte_at line x ≡ filtered stride bpp filters image y x)
        → (k x : ℕ) → k + x ≡ stride
        → y * stride + stride ≤ length image
        → unfilter_line stride bpp y (filters y) line k x (take (y * stride + x) image)
          ≡ decoded (take (y * stride + stride) image)
    unfolding unfilter_line
    unfilter_line-filtered line same zero x e h =
        ap (λ n. decoded (take n image)) (omega (arith, e))
    unfilter_line-filtered line same (suc k) x e h =
        let inside : x < stride = omega (arith, e) in
        let within : y * stride + x < length image = omega (arith, inside, h) in
        let shift : suc (y * stride + x) ≡ y * stride + suc x = omega arith in
        rw
          (
            left_of-take x,
            above-take x inside,
            above_left-take x inside,
            same x inside,
            reconstruct-adds (filters y) y (filtered stride bpp filters image y x)
                (left_of stride bpp image y x) (above stride image y x)
                (above_left stride bpp image y x) known,
            filtered-restored x,
            take-suc (y * stride + x) image within,
            shift,
          )
          (unfilter_line-filtered line same k (suc x) (omega (arith, e)) h)

module _ (stride bpp : ℕ) (positive : 0 < bpp) (height : ℕ) (filters : ℕ → ℕ)
    (known : (y : ℕ) → y < height → filters y ≤ 4) (image : List ℕ) (bytes : All IsByte image)
    (full : length image ≡ height * stride) where
  raw : List ℕ
  raw = encode_lines stride bpp filters image height 0

  line : ℕ → List ℕ
  line y = subarray raw (y * (stride + 1) + 1) ((y + 1) * (stride + 1))

  line-filtered :
      (y x : ℕ)
      → y < height
      → x < stride
      → byte_at (line y) x ≡ filtered stride bpp filters image y x
  unfolding raw line
  line-filtered y x h g =
      let start = y * (stride + 1) + 1 in
      let size : (y + 1) * (stride + 1) - start ≡ stride = omega arith in
      let shift : start + x ≡ y * (stride + 1) + suc x = omega arith in
      let same_line : 0 + y ≡ y = omega arith in
      byte_at-take ((y + 1) * (stride + 1) - start) x (drop start raw) (omega (arith, size, g))
      ∙ byte_at-drop start x raw
      ∙ ap (byte_at raw) shift
      ∙ filtered_at stride bpp filters image height 0 y x h g
      ∙ ap (λ n. filtered stride bpp filters image n x) same_line

  filter-known : (y : ℕ) → y < height → byte_at raw (y * (stride + 1)) ≡ filters y
  unfolding raw
  filter-known y h =
      let same_line : 0 + y ≡ y = omega arith in
      filter_at stride bpp filters image height 0 y h ∙ ap filters same_line

  below : (y : ℕ) → y < height → y * stride + stride ≤ length image
  below y h = rw full (row_below stride y height h)

  line-unfiltered :
      (y : ℕ)
      → y < height
      → unfilter_line stride bpp y (filters y) (line y) stride 0 (take (y * stride) image)
        ≡ decoded (take (suc y * stride) image)
  line-unfiltered y h =
      let begin : y * stride ≡ y * stride + 0 = omega arith in
      let end : y * stride + stride ≡ suc y * stride = omega arith in
      ap (λ n. unfilter_line stride bpp y (filters y) (line y) stride 0 (take n image)) begin
      ∙ unfilter_line-filtered stride bpp positive image y bytes filters (known y h) (line y)
          (λ x g. line-filtered y x h g) stride 0 (omega arith) (below y h)
      ∙ ap (λ n. decoded (take n image)) end

  -- The rest of the lines, behind those that are reconstructed already.
  unfilter_lines-encode_lines :
      (k y : ℕ)
      → k + y ≡ height
      → unfilter_lines stride bpp raw k y (take (y * stride) image) ≡ decoded image
  unfolding unfilter_lines line
  unfilter_lines-encode_lines zero y e =
      let all : y * stride ≡ length image = ap (λ n. n * stride) (omega (arith, e)) ∙ sym full in
      ap (λ n. decoded (take n image)) all ∙ ap decoded (take-length image)
  unfilter_lines-encode_lines (suc k) y e =
      let h : y < height = omega (arith, e) in
      rw (filter-known y h, line-unfiltered y h)
        (unfilter_lines-encode_lines k (suc y) (omega (arith, e)))

  -- `unfilter` gives back the bytes of an image whose lines went through the filters of the
  -- PNG specification (None, Sub, Up, Average, Paeth), whichever each line has, where a pixel
  -- takes at least one byte.
  pub unfilter-encode_lines :
      unfilter height stride bpp (encode_lines stride bpp filters image height 0) ≡ decoded image
  unfolding unfilter raw
  unfilter-encode_lines =
      let begin : 0 ≡ 0 * stride = omega arith in
      ap (λ n. unfilter_lines stride bpp raw height 0 (take n image)) begin
      ∙ unfilter_lines-encode_lines height 0 (omega arith)
