-- ===== src/Cli/Png/Crop/Centred.antt =====
-- What `centreCrop` of packages/cli/src/png.js keeps of an image.
use ash_ml.Base.{
  ℕ, zero, suc, ◌+◌, ◌-◌, ◌*◌, ◌/◌, ◌≤◌, ◌<◌, ◌≡◌, refl, ap, sym, ◌∙◌, inl, inr, ◌&&◌, List, ◌++◌,
  length, ◌==◌, Bool-cases, &&-true, ==_iff, arith,
}
use ash_ml.Cli.Bytes.{byte_at, byte_at-left, byte_at-right}
use ash_ml.Cli.Png.Crop.{Image, min, copied, crop_rows, centre_crop}

length-copied : (pixels : List ℕ) (count from : ℕ) → length (copied pixels count from) ≡ count
unfolding copied
length-copied pixels zero from = refl
length-copied pixels (suc count) from = ap suc (length-copied pixels count (suc from))

byte_at-copied :
    (pixels : List ℕ) (count from i : ℕ)
    → i < count
    → byte_at (copied pixels count from) i ≡ byte_at pixels (from + i)
unfolding copied
byte_at-copied pixels zero from i h = absurd (omega (arith, h))
byte_at-copied pixels (suc count) from zero h = ap (byte_at pixels) (omega arith)
byte_at-copied pixels (suc count) from (suc i) h =
    let shift : suc from + i ≡ from + suc i = omega arith in
    byte_at-copied pixels count (suc from) i (omega (arith, h)) ∙ ap (byte_at pixels) shift

module _ (image : Image) (side left top : ℕ) where
  source : (y i : ℕ) → ℕ
  source y i = ((top + y) * image.width + left) * 3 + i

  byte_at-crop_rows :
      (k y j i : ℕ)
      → j < k
      → i < side * 3
      → byte_at (crop_rows image side left top k y) (j * (side * 3) + i)
        ≡ byte_at image.pixels (source (y + j) i)
  unfolding crop_rows source
  byte_at-crop_rows zero y j i h g = absurd (omega (arith, h))
  byte_at-crop_rows (suc k) y zero i h g =
      let line = copied image.pixels (side * 3) (((top + y) * image.width + left) * 3) in
      let size = length-copied image.pixels (side * 3) (((top + y) * image.width + left) * 3) in
      let shift : 0 * (side * 3) + i ≡ i = omega arith in
      let same : y ≡ y + 0 = omega arith in
      ap (byte_at (line ++ crop_rows image side left top k (suc y))) shift
      ∙ byte_at-left line (crop_rows image side left top k (suc y)) i (omega (arith, size, g))
      ∙ byte_at-copied image.pixels (side * 3) _ i g
      ∙ ap (λ n. byte_at image.pixels (((top + n) * image.width + left) * 3 + i)) same
  byte_at-crop_rows (suc k) y (suc j) i h g =
      let line = copied image.pixels (side * 3) (((top + y) * image.width + left) * 3) in
      let size = length-copied image.pixels (side * 3) (((top + y) * image.width + left) * 3) in
      let shift : suc j * (side * 3) + i ≡ length line + (j * (side * 3) + i) =
        omega (arith, size) in
      let same : suc y + j ≡ y + suc j = omega arith in
      ap (byte_at (line ++ crop_rows image side left top k (suc y))) shift
      ∙ byte_at-right line (crop_rows image side left top k (suc y)) (j * (side * 3) + i)
      ∙ byte_at-crop_rows k (suc y) j i (omega (arith, h)) g
      ∙ ap (λ n. byte_at image.pixels (((top + n) * image.width + left) * 3 + i)) same

-- The largest square, with margins on both sides that differ by one at most.
pub record Centred (image crop : Image) : Type 0 where
  pub left : ℕ
  pub top : ℕ
  pub square : crop.width ≡ crop.height
  pub largest : crop.width ≡ min image.width image.height
  pub left_margin : 2 * left + crop.width ≤ image.width
  pub right_margin : image.width ≤ 2 * left + crop.width + 1
  pub top_margin : 2 * top + crop.height ≤ image.height
  pub bottom_margin : image.height ≤ 2 * top + crop.height + 1
  pub kept :
      (y x c : ℕ)
      → y < crop.height
      → x < crop.width
      → c < 3
      → byte_at crop.pixels ((y * crop.width + x) * 3 + c)
        ≡ byte_at image.pixels (((top + y) * image.width + (left + x)) * 3 + c)

whole_image :
    (image : Image)
    → min image.width image.height ≡ image.width
    → min image.width image.height ≡ image.height
    → Centred image image
whole_image image w h = record {
  left = 0;
  top = 0;
  square = sym w ∙ h;
  largest = sym w;
  left_margin = omega arith;
  right_margin = omega arith;
  top_margin = omega arith;
  bottom_margin = omega arith;
  kept = λ y x c hy hx hc. ap (byte_at image.pixels) (place y x c);
}
  where
    place : (y x c : ℕ) → (y * image.width + x) * 3 + c ≡ ((0 + y) * image.width + (0 + x)) * 3 + c
    place y x c = omega arith

inner_square :
    (image : Image) (side : ℕ)
    → side ≡ min image.width image.height
    → side ≤ image.width
    → side ≤ image.height
    → Centred image record {
      width = side;
      height = side;
      pixels = crop_rows image side ((image.width - side) / 2) ((image.height - side) / 2) side 0;
    }
inner_square image side e w h = record {
  left = (image.width - side) / 2;
  top = (image.height - side) / 2;
  square = refl;
  largest = e;
  left_margin = omega (arith, w);
  right_margin = omega (arith, w);
  top_margin = omega (arith, h);
  bottom_margin = omega (arith, h);
  kept = kept;
}
  where
    left : ℕ
    left = (image.width - side) / 2

    top : ℕ
    top = (image.height - side) / 2

    kept :
        (y x c : ℕ)
        → y < side
        → x < side
        → c < 3
        → byte_at (crop_rows image side left top side 0) ((y * side + x) * 3 + c)
          ≡ byte_at image.pixels (((top + y) * image.width + (left + x)) * 3 + c)
    kept y x c hy hx hc =
        let shift : (y * side + x) * 3 + c ≡ y * (side * 3) + (x * 3 + c) = omega arith in
        ap (byte_at (crop_rows image side left top side 0)) shift
        ∙ byte_at-crop_rows image side left top side 0 y (x * 3 + c) hy (omega (arith, hx, hc))
        ∙ ap (byte_at image.pixels) (at_source y x c)
      where
        at_source :
            (y x c : ℕ)
            → source image side left top (0 + y) (x * 3 + c)
              ≡ ((top + y) * image.width + (left + x)) * 3 + c
        at_source y x c = unfold source in omega arith

-- `centreCrop` keeps the largest square, with margins on opposite sides that differ by at most
-- one pixel, and every byte in it as it was.
pub centre_crop-Centred : (image : Image) → Centred image (centre_crop image)
unfolding centre_crop
centre_crop-Centred image =
    elim (Bool-cases (
      (min image.width image.height == image.width)
      && (min image.width image.height == image.height))) [
        | inl e ↦
            let both = &&-true _ _ e in
            rw e (whole_image image ((==_iff _ _).0 both.0) ((==_iff _ _).0 both.1))
        | inr e ↦
            rw e
              (inner_square image (min image.width image.height) refl (ground arith) (ground arith))
      ]
