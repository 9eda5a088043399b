-- ===== src/Cli/Png/Chunks.antt =====
-- The chunks of a file: the loop of `decodePng` and `readHeader` of packages/cli/src/png.js.
pub mod Name
pub mod Enough
pub mod Written
pub mod Layout
use ash_ml.Base.{
  ℕ, zero, suc, ◌+◌, ◌-◌, ◌%◌, Bool, true, false, ◌||◌, Option, none, some, List, [], ◌∷◌, ◌++◌,
  map, length, ◌==◌, leb, ltb, if◌then◌else◌,
}
use ash_ml.Cli.Bytes.{byte_at, subarray, same_bytes, read_u32}
use ash_ml.Cli.Png.{
  Png, refused, decoded, ◌>=>◌, Header, Found, short_header, zero_size, truncated_chunk,
}

-- `SIGNATURE`.
abbrev pub signature : List ℕ
signature = 137 ∷ 80 ∷ 78 ∷ 71 ∷ 13 ∷ 10 ∷ 26 ∷ 10 ∷ []

-- `buffer.toString('ascii', start, end)`: Node clears the highest bit of each byte.
unfoldable pub ascii : List ℕ → List ℕ
ascii = map (λ b. b % 128)

unfoldable pub read_header : List ℕ → Png Header
read_header bytes =
    if ltb (length bytes) 13
    then refused short_header
    else if (read_u32 bytes 0 == 0) || (read_u32 bytes 4 == 0)
    then refused zero_size
    else decoded record {
      width = read_u32 bytes 0;
      height = read_u32 bytes 4;
      bit_depth = byte_at bytes 8;
      colour_type = byte_at bytes 9;
      compression = byte_at bytes 10;
      filter = byte_at bytes 11;
      interlace = byte_at bytes 12;
    }

-- How one turn of the loop ends: with `break`, or before the next chunk.
pub data Turn : Type 0 where
  stopped : Found → Turn
  turned : Found → Turn

-- The chain of `if (type === …)`.
unfoldable pub take_chunk : (type bytes : List ℕ) → Found → Png Turn
take_chunk type bytes found =
    if same_bytes type Name.ihdr
    then (read_header bytes >=> λ h. decoded (turned (record found { header = some h })))
    else if same_bytes type Name.plte
    then decoded (turned (record found { palette = some bytes }))
    else if same_bytes type Name.trns
    then decoded (turned (record found { transparency = some bytes }))
    else if same_bytes type Name.idat
    then decoded (turned (record found { idat = found.idat ++ (bytes ∷ []) }))
    else if same_bytes type Name.iend
    then decoded (stopped found)
    else decoded (turned found)

abbrev pub nothing_found : Found
nothing_found = record { header = none; palette = none; transparency = none; idat = [] }

-- Where the data of the chunk at `offset` ends.
unfoldable pub data_end : List ℕ → ℕ → ℕ
data_end buffer offset = offset + 8 + read_u32 buffer offset

-- The body of the loop over the chunks.
unfoldable pub turn : List ℕ → ℕ → Found → Png Turn
turn buffer offset found =
    let type = ascii (subarray buffer (offset + 4) (offset + 8)) in
    if ltb (length buffer) (data_end buffer offset + 4)
    then refused (truncated_chunk type (read_u32 buffer offset))
    else take_chunk type (subarray buffer (offset + 8) (data_end buffer offset)) found

-- The loop. `none` is a loop that has not ended within the fuel.
unfoldable pub read_chunks : (fuel : ℕ) → List ℕ → (offset : ℕ) → Found → Option (Png Found)
read_chunks zero buffer offset found = none
read_chunks (suc fuel) buffer offset found = elim (leb (offset + 8) (length buffer)) [
  | false ↦ some (decoded found)
  | true ↦ elim (turn buffer offset found) [
    | refused e ↦ some (refused e)
    | decoded (stopped at_end) ↦ some (decoded at_end)
    | decoded (turned later) ↦ read_chunks fuel buffer (data_end buffer offset + 4) later
  ]
]
