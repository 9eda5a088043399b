-- ===== src/Cli/Png/Pixels.antt =====
-- `toRgb` of packages/cli/src/png.js: samples, palettes, and alpha onto white.
pub mod Shown
pub mod Painted
use ash_ml.Base.{
  ℕ, zero, suc, ◌+◌, ◌-◌, ◌*◌, ◌/◌, ◌%◌, Bool, ◌&&◌, ◌||◌, Option, none, some, List, [], ◌∷◌, ◌++◌,
  length, ◌==◌, ltb, if◌then◌else◌, ◌or_else◌,
}
use ash_ml.Cli.Bytes.{byte_at}
use ash_ml.Cli.Png.{Png, refused, decoded, ◌>=>◌, past_palette}

-- The second argument of `toRgb`. The palette is there where the colour type is 3.
pub record Layout : Type 0 where
  pub width : ℕ
  pub height : ℕ
  pub stride : ℕ
  pub channels : ℕ
  pub bytes_per_sample : ℕ
  pub colour_type : ℕ
  pub palette : List ℕ
  pub transparency : Option (List ℕ)

pub record Pixel : Type 0 where
  pub r : ℕ
  pub g : ℕ
  pub b : ℕ
  pub alpha : ℕ

-- `transparency && index < transparency.length`.
unfoldable pub alpha_of : Option (List ℕ) → ℕ → ℕ
alpha_of none index = 255
alpha_of (some alphas) index = if ltb index (length alphas) then byte_at alphas index else 255

-- A channel onto white: `Math.round((v * alpha + 255 * inverse) / 255)`, whose fraction is never
-- a half.
unfoldable pub onto_white : ℕ → ℕ → ℕ
onto_white v alpha = ((v * alpha + 255 * (255 - alpha)) * 2 + 255) / 510

-- What is stored for a channel: a Uint8Array keeps the lowest byte.
unfoldable pub channel : ℕ → ℕ → ℕ
channel v alpha = (if alpha == 255 then v else onto_white v alpha) % 256

unfoldable pub shown : Pixel → List ℕ
shown p = channel p.r p.alpha ∷ channel p.g p.alpha ∷ channel p.b p.alpha ∷ []

module _ (scanlines : List ℕ) (layout : Layout) where
  unfoldable pub sample : (row index : ℕ) → ℕ
  sample row index = byte_at scanlines (row * layout.stride + index * layout.bytes_per_sample)

  unfoldable pub indexed_pixel : ℕ → Png Pixel
  indexed_pixel index =
      if ltb (length layout.palette) ((index + 1) * 3)
      then refused (past_palette index)
      else decoded record {
        r = byte_at layout.palette (index * 3);
        g = byte_at layout.palette (index * 3 + 1);
        b = byte_at layout.palette (index * 3 + 2);
        alpha = alpha_of layout.transparency index;
      }

  -- The branches on the colour type.
  unfoldable pub pixel_at : (y x : ℕ) → Png Pixel
  pixel_at y x =
      let base = x * layout.channels in
      let first = sample y base in
      if layout.colour_type == 3
      then indexed_pixel first
      else if (layout.colour_type == 0) || (layout.colour_type == 4)
      then decoded record {
        r = first;
        g = first;
        b = first;
        alpha = if layout.colour_type == 4 then sample y (base + 1) else 255;
      }
      else decoded record {
        r = first;
        g = sample y (base + 1);
        b = sample y (base + 2);
        alpha = if layout.colour_type == 6 then sample y (base + 3) else 255;
      }

  -- The loops over the columns and the rows, of which `k` are left. They fill `rgb` in order.
  unfoldable pub rgb_row : (k y x : ℕ) → List ℕ → Png (List ℕ)
  rgb_row zero y x rgb = decoded rgb
  rgb_row (suc k) y x rgb = pixel_at y x >=> λ p. rgb_row k y (suc x) (rgb ++ shown p)

  unfoldable pub rgb_rows : (k y : ℕ) → List ℕ → Png (List ℕ)
  rgb_rows zero y rgb = decoded rgb
  rgb_rows (suc k) y rgb = rgb_row layout.width y 0 rgb >=> λ so_far. rgb_rows k (suc y) so_far

  unfoldable pub to_rgb : Png (List ℕ)
  to_rgb = rgb_rows layout.height 0 []
