-- ===== src/Cli/Png/Chunks/Layout.antt =====
-- A PNG file in the words of the specification, and what the loop of packages/cli/src/png.js collects
-- from it.
use mathlib.Core.List.{append_assoc, append-nil}
use ash_ml.Base.{
  ℕ, ◌^◌, ◌<◌, ◌≡◌, refl, ap, sym, ◌∙◌, false, ◌||◌, Option, none, some, List, [], ◌∷◌, ◌++◌, ◌==◌,
  arith,
}
use ash_ml.Cli.Bytes.{read_u32}
use ash_ml.Cli.Png.{Header, Found, decoded}
use ash_ml.Cli.Png.Chunks.{take_chunk, read_header, nothing_found}
use ash_ml.Cli.Png.Chunks.Written.{
  u32, Chunk, collect, read_u32-u32, collect-turned, collect-stopped,
}

-- The data of IHDR: width and height as words, then five bytes.
unfoldable pub header_bytes : Header → List ℕ
header_bytes h =
    u32 h.width
    ++ (u32 h.height ++ (h.bit_depth ∷ h.colour_type ∷ h.compression ∷ h.filter ∷ h.interlace ∷ []))

-- A size that a word holds, and that is not 0.
pub record IsSize (h : Header) : Type 0 where
  pub wide : 0 < h.width
  pub high : 0 < h.height
  pub width_fits : h.width < 2 ^ 32
  pub height_fits : h.height < 2 ^ 32

-- The check sum is a function of the chunk, which the decoder does not read.
module _ (crc : List ℕ → List ℕ → List ℕ) where
  abbrev pub chunk : List ℕ → List ℕ → Chunk
  chunk name content = record { name = name; content = content; crc = crc name content }

  -- "PLTE" and "tRNS", where there are such.
  abbrev pub palette_chunks : Option (List ℕ) → List Chunk
  palette_chunks none = []
  palette_chunks (some bytes) = chunk (80 ∷ 76 ∷ 84 ∷ 69 ∷ []) bytes ∷ []

  abbrev pub transparency_chunks : Option (List ℕ) → List Chunk
  transparency_chunks none = []
  transparency_chunks (some bytes) = chunk (116 ∷ 82 ∷ 78 ∷ 83 ∷ []) bytes ∷ []

  -- "IDAT", once for each part of the compressed data.
  abbrev pub data_chunks : List (List ℕ) → List Chunk
  data_chunks [] = []
  data_chunks (part ∷ parts) = chunk (73 ∷ 68 ∷ 65 ∷ 84 ∷ []) part ∷ data_chunks parts

  -- "IHDR", "PLTE", "tRNS", the data and "IEND".
  unfoldable pub file_chunks :
      Header → (palette transparency : Option (List ℕ)) → List (List ℕ) → List Chunk
  file_chunks h palette transparency parts =
      chunk (73 ∷ 72 ∷ 68 ∷ 82 ∷ []) (header_bytes h)
      ∷ (palette_chunks palette
          ++ (transparency_chunks transparency
              ++ (data_chunks parts ++ (chunk (73 ∷ 69 ∷ 78 ∷ 68 ∷ []) [] ∷ []))))

  header-read : (h : Header) → IsSize h → read_header (header_bytes h) ≡ decoded h
  unfolding read_header header_bytes u32
  header-read h size =
      let bytes =
        u32 h.height
        ++ (h.bit_depth ∷ h.colour_type ∷ h.compression ∷ h.filter ∷ h.interlace ∷ []) in
      let first : read_u32 (header_bytes h) 0 ≡ h.width =
        read_u32-u32 h.width [] bytes size.width_fits in
      let second : read_u32 (header_bytes h) 4 ≡ h.height =
        read_u32-u32 h.height (u32 h.width)
          (h.bit_depth ∷ h.colour_type ∷ h.compression ∷ h.filter ∷ h.interlace ∷ [])
          size.height_fits in
      let whole : ((h.width == 0) || (h.height == 0)) ≡ false =
        ground (arith, size.wide, size.high) in
      rw (first, second, whole) refl

  collect-data :
      (parts : List (List ℕ)) (found : Found)
      → collect (data_chunks parts ++ (chunk (73 ∷ 69 ∷ 78 ∷ 68 ∷ []) [] ∷ [])) found
        ≡ decoded (record found { idat = found.idat ++ parts })
  unfolding take_chunk
  collect-data [] found =
      collect-stopped _ [] found found refl
      ∙ ap (λ l. decoded (record found { idat = l })) (sym (append-nil found.idat))
  collect-data (part ∷ parts) found =
      collect-turned _ _ found (record found { idat = found.idat ++ (part ∷ []) }) refl
      ∙ collect-data parts (record found { idat = found.idat ++ (part ∷ []) })
      ∙ ap (λ l. decoded (record found { idat = l })) (append_assoc found.idat (part ∷ []) parts)

  pub collect-file_chunks :
      (h : Header) (palette transparency : Option (List ℕ)) (parts : List (List ℕ))
      → IsSize h
      → collect (file_chunks h palette transparency parts) nothing_found
        ≡ decoded
            record { header = some h; palette = palette; transparency = transparency; idat = parts }
  unfolding file_chunks take_chunk
  collect-file_chunks h palette transparency parts size =
      collect-turned _ _ nothing_found (record nothing_found { header = some h })
        (rw (header-read h size) refl)
      ∙ with_palette palette
    where
      with_transparency :
          (p t : Option (List ℕ))
          → collect
              (transparency_chunks t
                ++ (data_chunks parts ++ (chunk (73 ∷ 69 ∷ 78 ∷ 68 ∷ []) [] ∷ [])))
              record { header = some h; palette = p; transparency = none; idat = [] }
            ≡ decoded record { header = some h; palette = p; transparency = t; idat = parts }
      with_transparency p none = collect-data parts _
      with_transparency p (some bytes) = collect-turned _ _ _ _ refl ∙ collect-data parts _

      with_palette :
          (p : Option (List ℕ))
          → collect
              (palette_chunks p
                ++ (transparency_chunks transparency
                    ++ (data_chunks parts ++ (chunk (73 ∷ 69 ∷ 78 ∷ 68 ∷ []) [] ∷ []))))
              record { header = some h; palette = none; transparency = none; idat = [] }
            ≡ decoded
                record { header = some h; palette = p; transparency = transparency; idat = parts }
      with_palette none = with_transparency none transparency
      with_palette (some bytes) =
          collect-turned _ _ _ _ refl ∙ with_transparency (some bytes) transparency
