-- ===== src/Cli/Png/Decode/Written.antt =====
-- `decodePng` of packages/cli/src/png.js on a file that the PNG specification lays out.
use ash_ml.Base.{
  ℕ, suc, ◌+◌, ◌*◌, ◌≤◌, ◌<◌, ◌≡◌, ◌≢◌, refl, ap, ◌∙◌, ◌⊎◌, inl, inr, true, false, not, ◌||◌, ◌&&◌,
  Option, some, List, [], ◌∷◌, ◌++◌, length, length-append, ltb, ◌==◌, is_some, All, Bool-cases,
  arith,
}
use ash_ml.Cli.Bytes.{IsByte, same_bytes, subarray}
use ash_ml.Cli.Png.{Png, refused, decoded, ◌>=>◌, Header, Found, not_a_png}
use ash_ml.Cli.Png.Chunks.{signature, nothing_found}
use ash_ml.Cli.Png.Chunks.Enough.{read_chunks-enough}
use ash_ml.Cli.Png.Chunks.Written.{
  Chunk, IsChunk, write_chunks, length-write_chunks, collect, read_chunks-write_chunks,
}
use ash_ml.Cli.Png.Chunks.Layout.{IsSize, file_chunks, collect-file_chunks}
use ash_ml.Cli.Png.Filter.Encode.{encode_lines, length-encode_lines}
use ash_ml.Cli.Png.Filter.RoundTrip.{unfilter-encode_lines}
use ash_ml.Cli.Png.Pixels.{to_rgb}
use ash_ml.Cli.Png.Decode.{
  Decoded, channels_of, concat, bytes_per_pixel, stride_of, layout_of, result_of, decode_raw,
  decode_image, decode_found, decode_png,
}

-- The loop over the chunks ends on every file within the turns that the decoder is given, one
-- more than the file has bytes.
pub decode_png-ends :
    (inflate : List ℕ → Option (List ℕ)) (buffer : List ℕ)
    → (result : Png Decoded) × (decode_png inflate buffer ≡ some result)
unfolding decode_png
decode_png-ends inflate buffer =
    let (found, same) = read_chunks-enough buffer (length buffer) 8 nothing_found (omega arith) in
    elim (Bool-cases (ltb (length buffer) 8 || not (same_bytes (subarray buffer 0 8) signature))) [
      | inl e ↦ (refused not_a_png, rw e refl)
      | inr e ↦
          (found >=> decode_found inflate, rw (e, same (suc (length buffer)) (omega arith)) refl)
    ]

-- Chunks from which the loop collects an image, in the decoder's own terms.
record Carries (inflate : List ℕ → Option (List ℕ)) (chunks : List Chunk) (found : Found)
    (h : Header) (channels : ℕ) (filters : ℕ → ℕ) (image : List ℕ) : Type 0 where
  chunked : All IsChunk chunks
  collected : collect chunks nothing_found ≡ decoded found
  headed : found.header ≡ some h
  straight : h.interlace ≡ 0
  deep : (h.bit_depth ≡ 8) ⊎ (h.bit_depth ≡ 16)
  coloured : channels_of h.colour_type ≡ some channels
  painted : h.colour_type ≡ 3 → is_some found.palette ≡ true
  bytes : All IsByte image
  full : length image ≡ h.height * stride_of h channels
  known : (y : ℕ) → y < h.height → filters y ≤ 4
  has_data : found.idat ≢ []
  compressed :
      inflate (concat found.idat)
      ≡ some (
          encode_lines (stride_of h channels) (bytes_per_pixel h channels) filters image h.height 0)

channels_of-positive : (t n : ℕ) → channels_of t ≡ some n → 0 < n
unfolding channels_of
channels_of-positive t n h = ground (arith, h)

List-cases :
    (xs : List (List ℕ)) → (xs ≡ []) ⊎ ((b : List ℕ) × (bs : List (List ℕ)) × (xs ≡ b ∷ bs))
List-cases [] = inl refl
List-cases (b ∷ bs) = inr (b, bs, refl)

decode_found-some :
    (inflate : List ℕ → Option (List ℕ)) (found : Found) (h : Header) (b : List ℕ)
    (bs : List (List ℕ))
    → found.header ≡ some h
    → found.idat ≡ b ∷ bs
    → decode_found inflate found ≡ decode_image inflate h found
unfolding decode_found
decode_found-some inflate found h b bs e f = ground (arith, e, f)

module _ (inflate : List ℕ → Option (List ℕ)) (chunks : List Chunk) (found : Found) (h : Header)
    (channels : ℕ) (filters : ℕ → ℕ) (image : List ℕ)
    (file : Carries inflate chunks found h channels filters image) where
  pixel_bytes : 0 < bytes_per_pixel h channels
  unfolding bytes_per_pixel
  pixel_bytes = elim file.deep [
    | inl e ↦ rw e (omega (arith, channels_of-positive h.colour_type channels file.coloured))
    | inr e ↦ rw e (omega (arith, channels_of-positive h.colour_type channels file.coloured))
  ]

  raw : List ℕ
  raw = encode_lines (stride_of h channels) (bytes_per_pixel h channels) filters image h.height 0

  outcome : Png Decoded
  outcome =
      to_rgb image (layout_of h channels found) >=> λ pixels. decoded (result_of h found pixels)

  decode_raw-raw : decode_raw inflate h channels found raw ≡ outcome
  unfolding decode_raw raw outcome
  decode_raw-raw =
      let size =
        length-encode_lines (stride_of h channels) (bytes_per_pixel h channels) filters image
          h.height 0 in
      let whole : ltb (length raw) ((stride_of h channels + 1) * h.height) ≡ false =
        ground (arith, size) in
      let restored =
        unfilter-encode_lines (stride_of h channels) (bytes_per_pixel h channels) pixel_bytes
          h.height filters file.known image file.bytes file.full in
      rw (whole, restored) refl

  decode_image-found : decode_image inflate h found ≡ outcome
  unfolding decode_image raw
  decode_image-found =
      let straight : not (h.interlace == 0) ≡ false = ground (arith, file.straight) in
      let deep : (not (h.bit_depth == 8) && not (h.bit_depth == 16)) ≡ false =
        ground (arith, file.deep) in
      let painted : ((h.colour_type == 3) && not (is_some found.palette)) ≡ false =
        ground (arith, file.painted) in
      rw (straight, deep, file.coloured, painted, file.compressed) decode_raw-raw

  decode_found-found : decode_found inflate found ≡ outcome
  decode_found-found = elim (List-cases found.idat) [
    | inl e ↦ absurd (file.has_data e)
    | inr (b, bs, e) ↦ decode_found-some inflate found h b bs file.headed e ∙ decode_image-found
  ]

  decode_png-carried :
      decode_png inflate (signature ++ write_chunks chunks)
      ≡ some (
          to_rgb image (layout_of h channels found) >=> λ pixels.
          decoded (result_of h found pixels))
  unfolding decode_png
  decode_png-carried =
      let all = write_chunks chunks in
      let fuel = length-write_chunks chunks in
      let size : length (signature ++ all) ≡ 8 + length all = length-append signature all in
      let signed : (ltb (length (signature ++ all)) 8
            || not (same_bytes (subarray (signature ++ all) 0 8) signature))
          ≡ false =
        ground (arith, size) in
      let read =
        read_chunks-write_chunks chunks signature nothing_found file.chunked
          (suc (length (signature ++ all))) (omega (arith, fuel, size)) in
      rw (signed, read, file.collected) (unfold outcome in ap some decode_found-found)

-- How many samples a pixel has, for each colour type of the format.
pub data Samples : ℕ → ℕ → Type 0 where
  grey : Samples 0 1
  rgb : Samples 2 3
  indexed : Samples 3 1
  grey_alpha : Samples 4 2
  rgb_alpha : Samples 6 4

-- An image as the specification lays it out in a file: samples of `size` bytes, whose lines are
-- filtered and compressed.
pub record IsFile (inflate : List ℕ → Option (List ℕ)) (crc : List ℕ → List ℕ → List ℕ) (h : Header)
    (palette transparency : Option (List ℕ)) (parts : List (List ℕ)) (samples size : ℕ)
    (filters : ℕ → ℕ) (image : List ℕ) : Type 0 where
  pub chunked : All IsChunk (file_chunks crc h palette transparency parts)
  pub sized : IsSize h
  pub straight : h.interlace ≡ 0
  pub deep : ((h.bit_depth ≡ 8) × (size ≡ 1)) ⊎ ((h.bit_depth ≡ 16) × (size ≡ 2))
  pub coloured : Samples h.colour_type samples
  pub painted : h.colour_type ≡ 3 → is_some palette ≡ true
  pub bytes : All IsByte image
  pub full : length image ≡ h.height * (h.width * (samples * size))
  pub known : (y : ℕ) → y < h.height → filters y ≤ 4
  pub has_data : parts ≢ []
  pub compressed :
      inflate (concat parts)
      ≡ some (encode_lines (h.width * (samples * size)) (samples * size) filters image h.height 0)

channels_of-Samples : (t n : ℕ) → Samples t n → channels_of t ≡ some n
unfolding channels_of
channels_of-Samples _ _ grey = refl
channels_of-Samples _ _ rgb = refl
channels_of-Samples _ _ indexed = refl
channels_of-Samples _ _ grey_alpha = refl
channels_of-Samples _ _ rgb_alpha = refl

module _ (inflate : List ℕ → Option (List ℕ)) (crc : List ℕ → List ℕ → List ℕ) (h : Header)
    (palette transparency : Option (List ℕ)) (parts : List (List ℕ)) (samples size : ℕ)
    (filters : ℕ → ℕ) (image : List ℕ)
    (file : IsFile inflate crc h palette transparency parts samples size filters image) where
  pixel_size : bytes_per_pixel h samples ≡ samples * size
  unfolding bytes_per_pixel
  pixel_size = elim file.deep [ inl e ↦ rw (e.0, e.1) refl | inr e ↦ rw (e.0, e.1) refl ]

  line_size : stride_of h samples ≡ h.width * (samples * size)
  unfolding stride_of
  line_size = ap (λ n. h.width * n) pixel_size

  found : Found
  found = record { header = some h; palette = palette; transparency = transparency; idat = parts }

  carried :
      Carries inflate (file_chunks crc h palette transparency parts) found h samples filters image
  unfolding found
  carried = record {
    chunked = file.chunked;
    collected = collect-file_chunks crc h palette transparency parts file.sized;
    headed = refl;
    straight = file.straight;
    deep = elim file.deep [ inl e ↦ inl (e.0) | inr e ↦ inr (e.0) ];
    coloured = channels_of-Samples h.colour_type samples file.coloured;
    painted = file.painted;
    bytes = file.bytes;
    full = rw line_size (file.full);
    known = file.known;
    has_data = file.has_data;
    compressed = rw (line_size, pixel_size) (file.compressed);
  }

  -- A file of the signature, IHDR (width and height as words that are not 0, then five
  -- bytes), PLTE and tRNS where there are such, one IDAT or more, and IEND, not interlaced,
  -- of 8 or 16 bits, with the samples of its colour type, a palette where that needs one, and
  -- the compressed lines of an image of bytes, each filtered in one of the five ways, decodes
  -- to what `toRgb` gives of that image, or is refused as it refuses it.
  pub decode_png-write_chunks :
      decode_png inflate (signature ++ write_chunks (file_chunks crc h palette transparency parts))
      ≡ some (
          to_rgb image (
            layout_of h samples record {
              header = some h;
              palette = palette;
              transparency = transparency;
              idat = parts;
            })
          >=> λ pixels. decoded (
              result_of h
                record {
                  header = some h;
                  palette = palette;
                  transparency = transparency;
                  idat = parts;
                }
                pixels))
  unfolding found
  decode_png-write_chunks =
      decode_png-carried inflate (file_chunks crc h palette transparency parts) found h samples
        filters image carried
