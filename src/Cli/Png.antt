-- ===== src/Cli/Png.antt =====
-- packages/cli/src/png.js: what its decoder throws and what it passes from one part to the next.
pub mod Chunks
pub mod Filter
pub mod Pixels
pub mod Decode
pub mod Crop
use ash_ml.Base.{ℕ, Option, List}

-- One constructor for each `throw`, with what the message shows.
pub data PngError : Type 0 where
  not_a_png corrupt_data no_header no_image_data short_header zero_size interlaced no_palette :
      PngError
  truncated_chunk : List ℕ → ℕ → PngError
  bad_depth : ℕ → PngError
  bad_colour_type : ℕ → PngError
  truncated_data : ℕ → ℕ → PngError
  unknown_filter : ℕ → ℕ → PngError
  past_palette : ℕ → PngError

pub data Png {ℓ} (A : Type ℓ) : Type ℓ where
  refused : PngError → Png A
  decoded : A → Png A

infixl 5 ◌>=>◌
abbrev pub ◌>=>◌ {ℓ κ} : {A : Type ℓ} {B : Type κ} → Png A → (A → Png B) → Png B
refused e >=> k = refused e
decoded a >=> k = k a

-- What `readHeader` returns.
pub record Header : Type 0 where
  pub width : ℕ
  pub height : ℕ
  pub bit_depth : ℕ
  pub colour_type : ℕ
  pub compression : ℕ
  pub filter : ℕ
  pub interlace : ℕ

-- The variables that the loop over the chunks fills.
pub record Found : Type 0 where
  pub header : Option Header
  pub palette : Option (List ℕ)
  pub transparency : Option (List ℕ)
  pub idat : List (List ℕ)
