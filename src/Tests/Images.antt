-- ===== src/Tests/Images.antt =====
-- The PNG decoder at a small greyscale image.
use ash_ml.Base.{
  ℕ, ◌≤◌, ◌<◌, ◌≡◌, refl, inl, Option, none, some, List, [], ◌∷◌, ◌++◌, length, ◌==◌, if◌then◌else◌,
  All, arith,
}
use ash_ml.Cli.Bytes.{IsByte}
use ash_ml.Cli.Png.{decoded, ◌>=>◌, Header, Found}
use ash_ml.Cli.Png.Chunks.{signature}
use ash_ml.Cli.Png.Chunks.Name
use ash_ml.Cli.Png.Chunks.Written.{u32, IsChunk, write_chunks}
use ash_ml.Cli.Png.Filter.{
  unfilter, paeth, left_of, above, above_left, reconstruct, unfilter_line, unfilter_lines,
}
use ash_ml.Cli.Png.Chunks.Layout.{chunk, file_chunks, header_bytes}
use ash_ml.Cli.Png.Filter.Encode.{
  predictor, prediction, left_byte, upper_byte, corner_byte, filtered, encode_line, encode_lines,
}
use ash_ml.Cli.Png.Filter.RoundTrip.{unfilter-encode_lines}
use ash_ml.Cli.Png.Pixels.{onto_white, to_rgb, rgb_rows, rgb_row, pixel_at, sample, shown, channel}
use ash_ml.Cli.Png.Pixels.Painted.{is_grey, IsPainted, to_rgb-IsPainted}
use ash_ml.Cli.Png.Pixels.Shown.{onto_white-between}
use ash_ml.Cli.Png.Decode.{bytes_per_pixel, stride_of, layout_of, result_of, decode_png}
use ash_ml.Cli.Png.Decode.Written.{grey, IsFile, decode_png-ends, decode_png-write_chunks}
use ash_ml.Cli.Png.Crop.{Image, centre_crop}
use ash_ml.Cli.Png.Crop.Centred.{Centred, centre_crop-Centred}

abbrev image : List ℕ
image = 10 ∷ 20 ∷ 30 ∷ 250 ∷ []

-- Sub on the first line, Paeth on the second.
abbrev filters : ℕ → ℕ
filters y = if y == 0 then 1 else 4

filters-known : (y : ℕ) → y < 2 → filters y ≤ 4
filters-known y h = ground arith

image-All : All IsByte image
image-All = (omega arith, (omega arith, (omega arith, (omega arith, tt))))

abbrev raw : List ℕ
raw = 1 ∷ 10 ∷ 10 ∷ 4 ∷ 20 ∷ 220 ∷ []

raw-encoded : encode_lines 2 1 filters image 2 0 ≡ raw
unfolding encode_lines encode_line filtered prediction left_byte upper_byte corner_byte predictor
raw-encoded = refl

raw-unfiltered : unfilter 2 2 1 raw ≡ decoded image
unfolding unfilter unfilter_lines unfilter_line reconstruct left_of above above_left paeth
raw-unfiltered = refl

unfilter-encode_lines_example : unfilter 2 2 1 (encode_lines 2 1 filters image 2 0) ≡ decoded image
unfilter-encode_lines_example =
    unfilter-encode_lines 2 1 (omega arith) 2 filters filters-known image image-All refl

abbrev header : Header
header = record {
  width = 2;
  height = 2;
  bit_depth = 8;
  colour_type = 0;
  compression = 0;
  filter = 0;
  interlace = 0;
}

abbrev summed : List ℕ → List ℕ → List ℕ
summed name content = 1 ∷ 2 ∷ 3 ∷ 4 ∷ []

-- An inflate for data that is stored as it is.
abbrev stored : List ℕ → Option (List ℕ)
stored bytes = some bytes

chunk-IsChunk :
    (name content : List ℕ)
    → length name ≡ 4
    → All (λ b. b < 128) name
    → length content < 256
    → IsChunk (chunk summed name content)
chunk-IsChunk name content n a c = record {
  is_named = n;
  is_ascii = a;
  is_summed = refl;
  is_short = omega (arith, c);
}

file : IsFile stored summed header none none (raw ∷ []) 1 1 filters image
unfolding file_chunks header_bytes u32
file = record {
  chunked = (
    chunk-IsChunk Name.ihdr _ refl (omega arith, (omega arith, (omega arith, (omega arith, tt))))
        (omega arith),
    (
      chunk-IsChunk Name.idat raw refl
          (omega arith, (omega arith, (omega arith, (omega arith, tt)))) (omega arith),
      (
        chunk-IsChunk Name.iend [] refl
            (omega arith, (omega arith, (omega arith, (omega arith, tt)))) (omega arith),
        tt,
      ),
    ),
  );
  sized = record {
    wide = omega arith;
    high = omega arith;
    width_fits = omega arith;
    height_fits = omega arith;
  };
  straight = refl;
  deep = inl (refl, refl);
  coloured = grey;
  painted = λ e. absurd (omega (arith, e));
  bytes = image-All;
  full = refl;
  known = filters-known;
  has_data = λ e. cc;
  compressed =
      unfold encode_lines encode_line filtered prediction left_byte upper_byte corner_byte
        predictor in
      refl;
}

abbrev found : Found
found = record { header = some header; palette = none; transparency = none; idat = raw ∷ [] }

decode_png-write_chunks_example :
    decode_png stored (signature ++ write_chunks (file_chunks summed header none none (raw ∷ [])))
    ≡ some (
        to_rgb image (layout_of header 1 found) >=> λ pixels.
        decoded (result_of header found pixels))
decode_png-write_chunks_example =
    decode_png-write_chunks stored summed header none none (raw ∷ []) 1 1 filters image file

decode_png-ends_example :
    (result : _) × (decode_png stored
        (signature ++ write_chunks (file_chunks summed header none none (raw ∷ [])))
      ≡ some result)
decode_png-ends_example =
    decode_png-ends stored
      (signature ++ write_chunks (file_chunks summed header none none (raw ∷ [])))

onto_white-between_example : (100 ≤ onto_white 100 30) × (onto_white 100 30 ≤ 255)
onto_white-between_example = onto_white-between 100 30 (omega arith) (omega arith)

abbrev rgb : List ℕ
rgb = 10 ∷ 10 ∷ 10 ∷ 20 ∷ 20 ∷ 20 ∷ 30 ∷ 30 ∷ 30 ∷ 250 ∷ 250 ∷ 250 ∷ []

rgb-shown : to_rgb image (layout_of header 1 found) ≡ decoded rgb
unfolding to_rgb rgb_rows rgb_row pixel_at sample shown channel layout_of stride_of bytes_per_pixel
rgb-shown = refl

to_rgb-IsPainted_example :
    (length rgb ≡ 12)
    × ((y x : ℕ) → y < 2 → x < 2 → IsPainted image (layout_of header 1 found) rgb y x)
unfolding layout_of
to_rgb-IsPainted_example =
    to_rgb-IsPainted image (layout_of header 1 found) (is_grey (inl refl)) image-All tt tt rgb
      rgb-shown

abbrev wide : Image
wide = record { width = 3; height = 1; pixels = 1 ∷ 1 ∷ 1 ∷ 2 ∷ 2 ∷ 2 ∷ 3 ∷ 3 ∷ 3 ∷ [] }

centre_crop-Centred_example : Centred wide (centre_crop wide)
centre_crop-Centred_example = centre_crop-Centred wide
