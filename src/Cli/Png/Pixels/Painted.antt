-- ===== src/Cli/Png/Pixels/Painted.antt =====
-- What colour `toRgb` of packages/cli/src/png.js gives each pixel, in the words of the PNG
-- specification: where its samples stand, what a palette makes of them, and alpha over white.
use ash_ml.Base.{
  ℕ, zero, suc, ◌+◌, ◌-◌, ◌*◌, ◌≤◌, ◌<◌, ◌≡◌, ◌≢◌, refl, ap, sym, ◌∙◌, ◌⊎◌, inl, inr, true, false,
  Option, none, some, List, [], ◌∷◌, length, ltb, ◌==◌, if◌then◌else◌, All, Bool-cases, ◌||◌, arith,
}
use ash_ml.Cli.Bytes.{IsByte, byte_at, byte_at-IsByte}
use ash_ml.Cli.Png.{decoded}
use ash_ml.Cli.Png.Pixels.{
  Layout, Pixel, alpha_of, channel, onto_white, sample, indexed_pixel, pixel_at, to_rgb,
}
use ash_ml.Cli.Png.Pixels.Shown.{onto_white-between, to_rgb-Filled}

-- The sample `i` of the pixel in line `y` and column `x`: of 16 bits, the higher byte.
unfoldable pub sample_of : List ℕ → Layout → (y x i : ℕ) → ℕ
sample_of lines l y x i = byte_at lines (y * l.stride + (x * l.channels + i) * l.bytes_per_sample)

-- The alpha of a palette's colour: 255 behind the end of tRNS.
abbrev pub opacity_in : List ℕ → ℕ → ℕ
opacity_in [] index = 255
opacity_in (a ∷ alphas) zero = a
opacity_in (a ∷ alphas) (suc index) = opacity_in alphas index

abbrev pub opacity : Option (List ℕ) → ℕ → ℕ
opacity none index = 255
opacity (some alphas) index = opacity_in alphas index

-- What the colour types 0, 2, 3, 4 and 6 make of the samples of a pixel.
pub record IsColour (l : Layout) (s : ℕ → ℕ) (p : Pixel) : Type 0 where
  pub grey : (l.colour_type ≡ 0) ⊎ (l.colour_type ≡ 4) → (p.r ≡ s 0) × (p.g ≡ s 0) × (p.b ≡ s 0)
  pub direct : (l.colour_type ≡ 2) ⊎ (l.colour_type ≡ 6) → (p.r ≡ s 0) × (p.g ≡ s 1) × (p.b ≡ s 2)
  pub indexed :
      l.colour_type ≡ 3
      → (p.r ≡ byte_at l.palette (3 * s 0))
        × (p.g ≡ byte_at l.palette (3 * s 0 + 1))
        × (p.b ≡ byte_at l.palette (3 * s 0 + 2))
  pub opaque : (l.colour_type ≡ 0) ⊎ (l.colour_type ≡ 2) → p.alpha ≡ 255
  pub grey_alpha : l.colour_type ≡ 4 → p.alpha ≡ s 1
  pub rgb_alpha : l.colour_type ≡ 6 → p.alpha ≡ s 3
  pub indexed_alpha : l.colour_type ≡ 3 → p.alpha ≡ opacity l.transparency (s 0)

-- The whole number nearest to a channel of the pixel over white, with `alpha` parts of 255.
abbrev pub IsBlend : (v alpha w : ℕ) → Type 0
IsBlend v alpha w =
    (510 * w ≤ 2 * (v * alpha + 255 * (255 - alpha)) + 255)
    × (2 * (v * alpha + 255 * (255 - alpha)) + 255 < 510 * w + 510)

onto_white-IsBlend : (v alpha : ℕ) → IsBlend v alpha (onto_white v alpha)
unfolding onto_white
onto_white-IsBlend v alpha = (omega arith, omega arith)

channel-onto_white :
    (v alpha : ℕ) → v ≤ 255 → alpha ≤ 255 → alpha ≢ 255 → channel v alpha ≡ onto_white v alpha
unfolding channel
channel-onto_white v alpha hv ha n = ground (arith, n, onto_white-between v alpha hv ha)

channel-IsBlend : (v alpha : ℕ) → v ≤ 255 → alpha ≤ 255 → IsBlend v alpha (channel v alpha)
channel-IsBlend v alpha hv ha = elim (Bool-cases (alpha == 255)) [
  | inl e ↦
      let strong : alpha ≡ 255 = ground (arith, e) in
      let whole : channel v 255 ≡ v = unfold channel in ground (arith, hv) in
      rw (strong, whole) (omega arith, omega arith)
  | inr e ↦
      let weak = channel-onto_white v alpha hv ha (λ q. ground (arith, e, q)) in
      rw weak (onto_white-IsBlend v alpha)
]

decoded-eq : {A : Type 0} {a b : A} → decoded a ≡ decoded b → a ≡ b
decoded-eq h = cc

alpha_of-opacity : (t : Option (List ℕ)) (i : ℕ) → alpha_of t i ≡ opacity t i
unfolding alpha_of
alpha_of-opacity none i = refl
alpha_of-opacity (some alphas) i = at alphas i
  where
    at : (bs : List ℕ) (j : ℕ) → (if ltb j (length bs) then byte_at bs j else 255) ≡ opacity_in bs j
    at [] j = ground arith
    at (a ∷ bs) zero = ground arith
    at (a ∷ bs) (suc j) = ground (arith, at bs j)

module _ (lines : List ℕ) (l : Layout) where
  sample-sample_of : (y x i : ℕ) → sample lines l y (x * l.channels + i) ≡ sample_of lines l y x i
  unfolding sample sample_of
  sample-sample_of y x i = refl

  -- The three branches on the colour type.
  grey_at :
      (y x : ℕ) (p : Pixel)
      → (l.colour_type ≡ 0) ⊎ (l.colour_type ≡ 4)
      → pixel_at lines l y x ≡ decoded p
      → record {
        r = sample lines l y (x * l.channels);
        g = sample lines l y (x * l.channels);
        b = sample lines l y (x * l.channels);
        alpha = if l.colour_type == 4 then sample lines l y (x * l.channels + 1) else 255;
      }
        ≡ p
  unfolding pixel_at
  grey_at y x p t h =
      let other : (l.colour_type == 3) ≡ false = ground (arith, t) in
      let this : ((l.colour_type == 0) || (l.colour_type == 4)) ≡ true = ground (arith, t) in
      decoded-eq (rw (pixel_at, other, this) at h)

  direct_at :
      (y x : ℕ) (p : Pixel)
      → (l.colour_type ≡ 2) ⊎ (l.colour_type ≡ 6)
      → pixel_at lines l y x ≡ decoded p
      → record {
        r = sample lines l y (x * l.channels);
        g = sample lines l y (x * l.channels + 1);
        b = sample lines l y (x * l.channels + 2);
        alpha = if l.colour_type == 6 then sample lines l y (x * l.channels + 3) else 255;
      }
        ≡ p
  unfolding pixel_at
  direct_at y x p t h =
      let other : (l.colour_type == 3) ≡ false = ground (arith, t) in
      let neither : ((l.colour_type == 0) || (l.colour_type == 4)) ≡ false = ground (arith, t) in
      decoded-eq (rw (pixel_at, other, neither) at h)

  indexed_at :
      (y x : ℕ) (p : Pixel)
      → l.colour_type ≡ 3
      → pixel_at lines l y x ≡ decoded p
      → let index = sample lines l y (x * l.channels) in
        record {
          r = byte_at l.palette (index * 3);
          g = byte_at l.palette (index * 3 + 1);
          b = byte_at l.palette (index * 3 + 2);
          alpha = alpha_of l.transparency index;
        }
        ≡ p
  unfolding pixel_at indexed_pixel
  indexed_at y x p t h =
      let this : (l.colour_type == 3) ≡ true = ground (arith, t) in
      let index = sample lines l y (x * l.channels) in
      elim (Bool-cases (ltb (length l.palette) ((index + 1) * 3))) [
        | inl e ↦ absurd (cc (rw (pixel_at, this, indexed_pixel, e) at h))
        | inr e ↦ decoded-eq (rw (pixel_at, this, indexed_pixel, e) at h)
      ]

  first-sample_of : (y x : ℕ) → sample lines l y (x * l.channels) ≡ sample_of lines l y x 0
  unfolding sample sample_of
  first-sample_of y x =
      ap (λ n. byte_at lines (y * l.stride + n * l.bytes_per_sample)) (omega arith)

  pixel_at-IsColour :
      (y x : ℕ) (p : Pixel)
      → pixel_at lines l y x ≡ decoded p
      → IsColour l (sample_of lines l y x) p
  unfolding sample sample_of
  pixel_at-IsColour y x p h =
      let first = first-sample_of y x in
      record {
        grey = λ t.
            let e = grey_at y x p t h in
            (
              ap (λ (q : Pixel). q.r) (sym e) ∙ first,
              ap (λ (q : Pixel). q.g) (sym e) ∙ first,
              ap (λ (q : Pixel). q.b) (sym e) ∙ first,
            );
        direct = λ t.
            let e = direct_at y x p t h in
            (
              ap (λ (q : Pixel). q.r) (sym e) ∙ first,
              ap (λ (q : Pixel). q.g) (sym e),
              ap (λ (q : Pixel). q.b) (sym e),
            );
        indexed = λ t.
            let e = indexed_at y x p t h in
            (
              ap (λ (q : Pixel). q.r) (sym e)
                  ∙ ap (λ n. byte_at l.palette n) (three (sample lines l y (x * l.channels)))
                  ∙ ap (λ n. byte_at l.palette (3 * n)) first,
              ap (λ (q : Pixel). q.g) (sym e)
                  ∙ ap (λ n. byte_at l.palette (n + 1)) (three (sample lines l y (x * l.channels)))
                  ∙ ap (λ n. byte_at l.palette (3 * n + 1)) first,
              ap (λ (q : Pixel). q.b) (sym e)
                  ∙ ap (λ n. byte_at l.palette (n + 2)) (three (sample lines l y (x * l.channels)))
                  ∙ ap (λ n. byte_at l.palette (3 * n + 2)) first,
            );
        opaque = λ t. elim t [
          | inl z ↦ ap (λ (q : Pixel). q.alpha) (sym (grey_at y x p (inl z) h)) ∙ rw z refl
          | inr z ↦ ap (λ (q : Pixel). q.alpha) (sym (direct_at y x p (inl z) h)) ∙ rw z refl
        ];
        grey_alpha = λ t. ap (λ (q : Pixel). q.alpha) (sym (grey_at y x p (inr t) h)) ∙ rw t refl;
        rgb_alpha = λ t. ap (λ (q : Pixel). q.alpha) (sym (direct_at y x p (inr t) h)) ∙ rw t refl;
        indexed_alpha = λ t.
            ap (λ (q : Pixel). q.alpha) (sym (indexed_at y x p t h))
            ∙ alpha_of-opacity l.transparency (sample lines l y (x * l.channels))
            ∙ ap (opacity l.transparency) first;
      }
    where
      three : (n : ℕ) → n * 3 ≡ 3 * n
      three n = omega arith

abbrev pub AlphaBytes : Option (List ℕ) → Type 0
AlphaBytes none = Unit
AlphaBytes (some alphas) = All IsByte alphas

opacity_in-IsByte : (alphas : List ℕ) (i : ℕ) → All IsByte alphas → opacity_in alphas i ≤ 255
opacity_in-IsByte [] i h = omega arith
opacity_in-IsByte (a ∷ alphas) zero h = omega (arith, h.0)
opacity_in-IsByte (a ∷ alphas) (suc i) h = opacity_in-IsByte alphas i h.1

opacity-IsByte : (t : Option (List ℕ)) (i : ℕ) → AlphaBytes t → opacity t i ≤ 255
opacity-IsByte none i h = omega arith
opacity-IsByte (some alphas) i h = opacity_in-IsByte alphas i h

-- The colour types of the format.
pub data IsKind (t : ℕ) : Type 0 where
  is_grey : (t ≡ 0) ⊎ (t ≡ 4) → IsKind t
  is_direct : (t ≡ 2) ⊎ (t ≡ 6) → IsKind t
  is_indexed : t ≡ 3 → IsKind t

-- A pixel that is painted: its colour, and each channel of it over white.
pub record IsPainted (lines : List ℕ) (l : Layout) (rgb : List ℕ) (y x : ℕ) : Type 0 where
  pub pixel : Pixel
  pub coloured : IsColour l (sample_of lines l y x) pixel
  pub r_blended : IsBlend pixel.r pixel.alpha (byte_at rgb ((y * l.width + x) * 3))
  pub g_blended : IsBlend pixel.g pixel.alpha (byte_at rgb ((y * l.width + x) * 3 + 1))
  pub b_blended : IsBlend pixel.b pixel.alpha (byte_at rgb ((y * l.width + x) * 3 + 2))

module _ (lines : List ℕ) (l : Layout) (kind : IsKind l.colour_type) (bytes : All IsByte lines)
    (colours : All IsByte l.palette) (alphas : AlphaBytes l.transparency) where
  sample_of-IsByte : (y x i : ℕ) → sample_of lines l y x i ≤ 255
  unfolding sample_of
  sample_of-IsByte y x i = omega (arith, byte_at-IsByte lines _ bytes)

  palette_byte : (i : ℕ) → byte_at l.palette i ≤ 255
  palette_byte i = omega (arith, byte_at-IsByte l.palette i colours)

  colour-bytes :
      (y x : ℕ) (p : Pixel)
      → IsColour l (sample_of lines l y x) p
      → (p.r ≤ 255) × (p.g ≤ 255) × (p.b ≤ 255) × (p.alpha ≤ 255)
  colour-bytes y x p c =
      let s = sample_of-IsByte y x in
      elim kind [
        | is_grey t ↦
            let (r, g, b) = c.grey t in
            (
              omega (arith, r, s 0),
              omega (arith, g, s 0),
              omega (arith, b, s 0),
              elim t [
                | inl z ↦ omega (arith, c.opaque (inl z))
                | inr z ↦ omega (arith, c.grey_alpha z, s 1)
              ],
            )
        | is_direct t ↦
            let (r, g, b) = c.direct t in
            (
              omega (arith, r, s 0),
              omega (arith, g, s 1),
              omega (arith, b, s 2),
              elim t [
                | inl z ↦ omega (arith, c.opaque (inr z))
                | inr z ↦ omega (arith, c.rgb_alpha z, s 3)
              ],
            )
        | is_indexed t ↦
            let (r, g, b) = c.indexed t in
            let first = sample_of lines l y x 0 in
            (
              omega (arith, r, palette_byte (3 * first)),
              omega (arith, g, palette_byte (3 * first + 1)),
              omega (arith, b, palette_byte (3 * first + 2)),
              omega (arith, c.indexed_alpha t, opacity-IsByte l.transparency first alphas),
            )
      ]

  -- Where `toRgb` gives bytes of samples, a palette and alphas that are bytes, of a colour
  -- type of the format, they are three for each pixel, in rows: the whole numbers nearest to
  -- its red, green and blue over white, with the colour and alpha that its samples, the
  -- palette and tRNS give it by that type.
  pub to_rgb-IsPainted :
      (rgb : List ℕ)
      → to_rgb lines l ≡ decoded rgb
      → (length rgb ≡ l.height * l.width * 3)
        × ((y x : ℕ) → y < l.height → x < l.width → IsPainted lines l rgb y x)
  to_rgb-IsPainted rgb h =
      let whole = to_rgb-Filled lines l rgb h in
      (
        whole.filled,
        λ y x below within.
            let (p, same, shown) = whole.pixels y x below within in
            let colour = pixel_at-IsColour lines l y x p same in
            let (r, g, b, a) = colour-bytes y x p colour in
            record {
              pixel = p;
              coloured = colour;
              r_blended = rw (shown.r_shown) (channel-IsBlend p.r p.alpha r a);
              g_blended = rw (shown.g_shown) (channel-IsBlend p.g p.alpha g a);
              b_blended = rw (shown.b_shown) (channel-IsBlend p.b p.alpha b a);
            },
      )
