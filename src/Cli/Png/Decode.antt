-- ===== src/Cli/Png/Decode.antt =====
-- `decodePng` of packages/cli/src/png.js from its parts, and `toInstance`. zlib.inflateSync is an
-- argument: `none` is where it throws.
pub mod Written
use ash_ml.Base.{
  ℕ, zero, suc, ◌+◌, ◌-◌, ◌*◌, ◌/◌, ◌%◌, Bool, true, false, not, ◌&&◌, ◌||◌, Option, none, some,
  List, [], ◌∷◌, ◌++◌, length, ◌==◌, ltb, if◌then◌else◌, ◌or_else◌, is_some,
}
use ash_ml.Cli.Bytes.{byte_at, subarray, same_bytes}
use ash_ml.Cli.Png.{
  Png, refused, decoded, ◌>=>◌, Header, Found, not_a_png, corrupt_data, no_header, no_image_data,
  interlaced, no_palette, bad_depth, bad_colour_type, truncated_data,
}
use ash_ml.Cli.Png.Chunks.{signature, nothing_found, read_chunks}
use ash_ml.Cli.Png.Filter.{unfilter}
use ash_ml.Cli.Png.Pixels.{Layout, to_rgb}

-- What `decodePng` returns.
pub record Decoded : Type 0 where
  pub width : ℕ
  pub height : ℕ
  pub pixels : List ℕ
  pub had_alpha : Bool
  pub colour_type : ℕ
  pub bit_depth : ℕ

-- `CHANNELS`.
unfoldable pub channels_of : ℕ → Option ℕ
channels_of colour_type =
    if colour_type == 0
    then some 1
    else if colour_type == 2
    then some 3
    else if colour_type == 3
    then some 1
    else if colour_type == 4
    then some 2
    else if colour_type == 6
    then some 4
    else none

-- `Buffer.concat`.
abbrev pub concat : List (List ℕ) → List ℕ
concat [] = []
concat (bs ∷ rest) = bs ++ concat rest

unfoldable pub bytes_per_pixel : Header → ℕ → ℕ
bytes_per_pixel h channels = channels * (h.bit_depth / 8)

unfoldable pub stride_of : Header → ℕ → ℕ
stride_of h channels = h.width * bytes_per_pixel h channels

unfoldable pub layout_of : Header → ℕ → Found → Layout
layout_of h channels found = record {
  width = h.width;
  height = h.height;
  stride = stride_of h channels;
  channels = channels;
  bytes_per_sample = h.bit_depth / 8;
  colour_type = h.colour_type;
  palette = found.palette or_else [];
  transparency = found.transparency;
}

unfoldable pub result_of : Header → Found → List ℕ → Decoded
result_of h found pixels = record {
  width = h.width;
  height = h.height;
  pixels = pixels;
  had_alpha =
      (h.colour_type == 4)
      || (h.colour_type == 6)
      || (h.colour_type == 3) && is_some found.transparency;
  colour_type = h.colour_type;
  bit_depth = h.bit_depth;
}

module _ (inflate : List ℕ → Option (List ℕ)) where
  -- From the inflated bytes to the pixels.
  unfoldable pub decode_raw : Header → ℕ → Found → List ℕ → Png Decoded
  decode_raw h channels found raw =
      let stride = stride_of h channels in
      if ltb (length raw) ((stride + 1) * h.height)
      then refused (truncated_data (length raw) ((stride + 1) * h.height))
      else (unfilter h.height stride (bytes_per_pixel h channels) raw >=> λ scanlines.
          to_rgb scanlines (layout_of h channels found) >=> λ pixels.
          decoded (result_of h found pixels))

  unfoldable pub decode_image : Header → Found → Png Decoded
  decode_image h found =
      if not (h.interlace == 0)
      then refused interlaced
      else if not (h.bit_depth == 8) && not (h.bit_depth == 16)
      then refused (bad_depth h.bit_depth)
      else elim (channels_of h.colour_type) [
        | none ↦ refused (bad_colour_type h.colour_type)
        | some channels ↦
            if (h.colour_type == 3) && not (is_some found.palette)
            then refused no_palette
            else elim (inflate (concat found.idat)) [
              | none ↦ refused corrupt_data
              | some raw ↦ decode_raw h channels found raw
            ]
      ]

  unfoldable pub decode_found : Found → Png Decoded
  decode_found found = elim found.header [
    | none ↦ refused no_header
    | some h ↦ elim found.idat [ [] ↦ refused no_image_data | _ ∷ _ ↦ decode_image h found ]
  ]

  -- With fuel for as many chunks as there are bytes. `none` is a loop that has not ended.
  unfoldable pub decode_png : List ℕ → Option (Png Decoded)
  decode_png buffer =
      if ltb (length buffer) 8 || not (same_bytes (subarray buffer 0 8) signature)
      then some (refused not_a_png)
      else elim (read_chunks (suc (length buffer)) buffer 8 nothing_found) [
        | none ↦ none
        | some found ↦ some (found >=> decode_found)
      ]

-- `toInstance`: the pixels of a row, and the rows, of which `k` are left.
module _ (width : ℕ) (pixels : List ℕ) where
  unfoldable pub instance_row : (k y x : ℕ) → List (List ℕ)
  instance_row zero y x = []
  instance_row (suc k) y x =
      let place = (y * width + x) * 3 in
      (byte_at pixels place ∷ byte_at pixels (place + 1) ∷ byte_at pixels (place + 2) ∷ [])
      ∷ instance_row k y (suc x)

  unfoldable pub instance_rows : (k y : ℕ) → List (List (List ℕ))
  instance_rows zero y = []
  instance_rows (suc k) y = instance_row width y 0 ∷ instance_rows k (suc y)
