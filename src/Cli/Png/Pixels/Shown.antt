-- ===== src/Cli/Png/Pixels/Shown.antt =====
-- What `toRgb` of packages/cli/src/png.js writes, pixel by pixel.
use mathlib.Core.List.{append_assoc, append-nil}
use ash_ml.Base.{
  ℕ, zero, suc, ◌+◌, ◌-◌, ◌*◌, ◌≤◌, ◌<◌, ◌≡◌, refl, ap, sym, subst, ◌∙◌, ◌⊎◌, inl, inr, List, [],
  ◌++◌, length, length-append, arith,
}
use ash_ml.Cli.Bytes.{byte_at, byte_at-left, byte_at-right}
use ash_ml.Cli.Png.{Png, PngError, refused, decoded}
use ash_ml.Cli.Png.Pixels.{
  Layout, Pixel, channel, onto_white, shown, pixel_at, rgb_row, rgb_rows, to_rgb,
}

times-le : (v i : ℕ) → v ≤ 255 → v * i ≤ 255 * i
times-le v zero h = omega arith
times-le v (suc i) h = omega (arith, times-le v i h)

-- A colour and an alpha that are bytes give, over white, a value from the colour up to 255.
pub onto_white-between :
    (v alpha : ℕ) → v ≤ 255 → alpha ≤ 255 → (v ≤ onto_white v alpha) × (onto_white v alpha ≤ 255)
unfolding onto_white
onto_white-between v alpha hv ha =
    let i = 255 - alpha in
    let whole : v * (alpha + i) ≡ v * 255 = ap (λ n. v * n) (omega (arith, ha)) in
    let split : v * (alpha + i) ≡ v * alpha + v * i = omega arith in
    let faint = times-le v i hv in
    let strong = times-le v alpha hv in
    (omega (arith, whole, split, faint), omega (arith, ha, strong))

-- The three bytes of a pixel.
pub record Shows (rgb : List ℕ) (place : ℕ) (p : Pixel) : Type 0 where
  pub r_shown : byte_at rgb place ≡ channel p.r p.alpha
  pub g_shown : byte_at rgb (place + 1) ≡ channel p.g p.alpha
  pub b_shown : byte_at rgb (place + 2) ≡ channel p.b p.alpha

Shows-right :
    (xs ys : List ℕ) (place : ℕ) (p : Pixel)
    → Shows ys place p
    → Shows (xs ++ ys) (length xs + place) p
Shows-right xs ys place p h =
    let second : length xs + place + 1 ≡ length xs + (place + 1) = omega arith in
    let third : length xs + place + 2 ≡ length xs + (place + 2) = omega arith in
    record {
      r_shown = byte_at-right xs ys place ∙ h.r_shown;
      g_shown = ap (byte_at (xs ++ ys)) second ∙ byte_at-right xs ys (place + 1) ∙ h.g_shown;
      b_shown = ap (byte_at (xs ++ ys)) third ∙ byte_at-right xs ys (place + 2) ∙ h.b_shown;
    }

Shows-left :
    (xs ys : List ℕ) (place : ℕ) (p : Pixel)
    → place + 2 < length xs
    → Shows xs place p
    → Shows (xs ++ ys) place p
Shows-left xs ys place p g h = record {
  r_shown = byte_at-left xs ys place (omega (arith, g)) ∙ h.r_shown;
  g_shown = byte_at-left xs ys (place + 1) (omega (arith, g)) ∙ h.g_shown;
  b_shown = byte_at-left xs ys (place + 2) g ∙ h.b_shown;
}

Shows-shown : (p : Pixel) (ys : List ℕ) → Shows (shown p ++ ys) 0 p
unfolding shown
Shows-shown p ys = record { r_shown = refl; g_shown = refl; b_shown = refl }

Png-cases {ℓ} :
    {A : Type ℓ} (t : Png A) → ((e : PngError) × (t ≡ refused e)) ⊎ ((a : A) × (t ≡ decoded a))
Png-cases (refused e) = inl (e, refl)
Png-cases (decoded a) = inr (a, refl)

decoded-eq {ℓ} : {A : Type ℓ} {a b : A} → decoded a ≡ decoded b → a ≡ b
decoded-eq h = cc

-- `count` pixels written behind `rgb`, three bytes for each.
record Written (rgb res : List ℕ) (count : ℕ) (pixel_of : ℕ → Png Pixel) : Type 0 where
  bytes : List ℕ
  behind : res ≡ rgb ++ bytes
  sized : length bytes ≡ count * 3
  shows : (i : ℕ) → i < count → (p : Pixel) × (pixel_of i ≡ decoded p) × Shows bytes (i * 3) p

Written-first :
    {rgb res : List ℕ} (k : ℕ) (pixel_of : ℕ → Png Pixel) (p : Pixel)
    → pixel_of 0 ≡ decoded p
    → Written (rgb ++ shown p) res k (λ i. pixel_of (suc i))
    → Written rgb res (suc k) pixel_of
Written-first {rgb} k pixel_of p t w = record {
  bytes = shown p ++ w.bytes;
  behind = w.behind ∙ append_assoc rgb (shown p) w.bytes;
  sized = unfold shown in omega (arith, w.sized);
  shows = shows;
}
  where
    shows :
        (i : ℕ)
        → i < suc k
        → (q : Pixel) × (pixel_of i ≡ decoded q) × Shows (shown p ++ w.bytes) (i * 3) q
    shows zero g =
        let begin : 0 ≡ 0 * 3 = omega arith in
        (p, t, subst (λ n. Shows (shown p ++ w.bytes) n p) begin (Shows-shown p w.bytes))
    shows (suc i) g =
        unfold shown in
        let (q, u, s) = w.shows i (omega (arith, g)) in
        let shift : 3 + i * 3 ≡ suc i * 3 = omega arith in
        (
          q,
          u,
          subst (λ n. Shows (shown p ++ w.bytes) n q) shift
              (Shows-right (shown p) w.bytes (i * 3) q s),
        )

-- `rows` rows of `width` pixels.
pub record Filled (width rows : ℕ) (bytes : List ℕ) (pixel_of : ℕ → ℕ → Png Pixel) : Type 0 where
  pub filled : length bytes ≡ rows * width * 3
  pub pixels :
      (y x : ℕ)
      → y < rows
      → x < width
      → (p : Pixel) × (pixel_of y x ≡ decoded p) × Shows bytes ((y * width + x) * 3) p

Filled-first :
    {rgb mid : List ℕ} (width rows : ℕ) (bytes : List ℕ) (pixel_of : ℕ → ℕ → Png Pixel)
    (w : Written rgb mid width (pixel_of 0))
    → Filled width rows bytes (λ y. pixel_of (suc y))
    → Filled width (suc rows) (w.bytes ++ bytes) pixel_of
Filled-first width rows bytes pixel_of w f = record {
  filled = omega (arith, length-append w.bytes bytes, w.sized, f.filled);
  pixels = pixels;
}
  where
    pixels :
        (y x : ℕ)
        → y < suc rows
        → x < width
        → (p : Pixel) × (pixel_of y x ≡ decoded p)
          × Shows (w.bytes ++ bytes) ((y * width + x) * 3) p
    pixels zero x g h =
        let (p, t, s) = w.shows x h in
        let shift : x * 3 ≡ (0 * width + x) * 3 = omega arith in
        (
          p,
          t,
          subst (λ n. Shows (w.bytes ++ bytes) n p) shift
              (Shows-left w.bytes bytes (x * 3) p (omega (arith, w.sized, h)) s),
        )
    pixels (suc y) x g h =
        let (p, t, s) = f.pixels y x (omega (arith, g)) h in
        let shift : length w.bytes + (y * width + x) * 3 ≡ (suc y * width + x) * 3 =
          omega (arith, w.sized) in
        (
          p,
          t,
          subst (λ n. Shows (w.bytes ++ bytes) n p) shift
              (Shows-right w.bytes bytes ((y * width + x) * 3) p s),
        )

module _ (scanlines : List ℕ) (layout : Layout) where
  rgb_row-Written :
      (k y x : ℕ) (rgb res : List ℕ) (pixel_of : ℕ → Png Pixel)
      → ((i : ℕ) → pixel_of i ≡ pixel_at scanlines layout y (x + i))
      → rgb_row scanlines layout k y x rgb ≡ decoded res
      → Written rgb res k pixel_of
  unfolding rgb_row
  rgb_row-Written zero y x rgb res pixel_of same h = record {
    bytes = [];
    behind = sym (decoded-eq h) ∙ sym (append-nil rgb);
    sized = refl;
    shows = λ i g. absurd (omega (arith, g));
  }
  rgb_row-Written (suc k) y x rgb res pixel_of same h =
      elim (Png-cases (pixel_at scanlines layout y x)) [
        | inl (e, t) ↦ absurd (cc (rw t at h))
        | inr (p, t) ↦
            let here : x + 0 ≡ x = omega arith in
            Written-first k pixel_of p (same 0 ∙ ap (pixel_at scanlines layout y) here ∙ t) (
              rgb_row-Written k y (suc x) (rgb ++ shown p) res (λ i. pixel_of (suc i))
                (λ i. same (suc i) ∙ ap (pixel_at scanlines layout y) (omega arith)) (rw t at h))
      ]

  rgb_rows-Filled :
      (k y : ℕ) (rgb res : List ℕ) (pixel_of : ℕ → ℕ → Png Pixel)
      → ((j : ℕ) (x : ℕ) → pixel_of j x ≡ pixel_at scanlines layout (y + j) x)
      → rgb_rows scanlines layout k y rgb ≡ decoded res
      → (bytes : List ℕ) × (res ≡ rgb ++ bytes) × Filled layout.width k bytes pixel_of
  unfolding rgb_rows
  rgb_rows-Filled zero y rgb res pixel_of same h = (
    [],
    sym (decoded-eq h) ∙ sym (append-nil rgb),
    record { filled = omega arith; pixels = λ j x g. absurd (omega (arith, g)) },
  )
  rgb_rows-Filled (suc k) y rgb res pixel_of same h =
      elim (Png-cases (rgb_row scanlines layout layout.width y 0 rgb)) [
        | inl (e, t) ↦ absurd (cc (rw t at h))
        | inr (mid, t) ↦
            let here : y + 0 ≡ y = omega arith in
            let line =
              rgb_row-Written layout.width y 0 rgb mid (pixel_of 0)
                (λ i. same 0 i ∙ ap2_at y i here) t in
            let (bytes, behind, f) =
              rgb_rows-Filled k (suc y) mid res (λ j. pixel_of (suc j))
                (λ j x. same (suc j) x ∙ ap (λ n. pixel_at scanlines layout n x) (omega arith))
                (rw t at h) in
            (
              line.bytes ++ bytes,
              behind ∙ ap (λ r. r ++ bytes) line.behind ∙ append_assoc rgb line.bytes bytes,
              Filled-first layout.width k bytes pixel_of line f,
            )
      ]
    where
      ap2_at :
          (y i : ℕ)
          → y + 0 ≡ y
          → pixel_at scanlines layout (y + 0) i ≡ pixel_at scanlines layout y (0 + i)
      ap2_at y i e =
          let there : i ≡ 0 + i = omega arith in
          ap (λ n. pixel_at scanlines layout n i) e ∙ ap (pixel_at scanlines layout y) there

  -- Where `toRgb` gives bytes, they are three for each pixel, and each pixel of the image is
  -- shown at its place.
  pub to_rgb-Filled :
      (rgb : List ℕ)
      → to_rgb scanlines layout ≡ decoded rgb
      → Filled layout.width layout.height rgb (pixel_at scanlines layout)
  unfolding to_rgb
  to_rgb-Filled rgb h =
      let same : (j x : ℕ) → pixel_at scanlines layout j x ≡ pixel_at scanlines layout (0 + j) x =
        λ j x. ap (λ n. pixel_at scanlines layout n x) (omega arith) in
      let (bytes, behind, f) =
        rgb_rows-Filled layout.height 0 [] rgb (pixel_at scanlines layout) same h in
      subst (λ r. Filled layout.width layout.height r (pixel_at scanlines layout)) (sym behind) f
