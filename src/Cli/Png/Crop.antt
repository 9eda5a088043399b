-- ===== src/Cli/Png/Crop.antt =====
-- `centreCrop` of packages/cli/src/png.js.
pub mod Centred
use ash_ml.Base.{
  ℕ, zero, suc, ◌+◌, ◌-◌, ◌*◌, ◌/◌, Bool, ◌&&◌, List, [], ◌∷◌, ◌++◌, ◌==◌, leb, if◌then◌else◌,
}
use ash_ml.Cli.Bytes.{byte_at}

pub record Image : Type 0 where
  pub width : ℕ
  pub height : ℕ
  pub pixels : List ℕ

-- `Math.min`.
abbrev pub min : ℕ → ℕ → ℕ
min a b = if leb a b then a else b

-- `count` bytes from `from`: what is past the end stays 0 in the new array.
unfoldable pub copied : List ℕ → (count from : ℕ) → List ℕ
copied pixels zero from = []
copied pixels (suc count) from = byte_at pixels from ∷ copied pixels count (suc from)

-- The loop over the rows, of which `k` are left.
unfoldable pub crop_rows : Image → (side left top : ℕ) → (k y : ℕ) → List ℕ
crop_rows image side left top zero y = []
crop_rows image side left top (suc k) y =
    copied image.pixels (side * 3) (((top + y) * image.width + left) * 3)
    ++ crop_rows image side left top k (suc y)

unfoldable pub centre_crop : Image → Image
centre_crop image =
    let side = min image.width image.height in
    if (side == image.width) && (side == image.height) then image else record {
      width = side;
      height = side;
      pixels = crop_rows image side ((image.width - side) / 2) ((image.height - side) / 2) side 0;
    }
