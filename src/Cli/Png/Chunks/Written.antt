-- ===== src/Cli/Png/Chunks/Written.antt =====
-- Files as the PNG specification lays them out, and the loop of packages/cli/src/png.js over them.
use mathlib.Core.List.{append_assoc}
use ash_ml.Base.{
  ℕ, zero, suc, ◌+◌, ◌-◌, ◌/◌, ◌%◌, ◌^◌, ◌≤◌, ◌<◌, ◌≡◌, refl, ap, sym, ◌∙◌, inl, inr, true, false,
  some, List, [], ◌∷◌, ◌++◌, length, length-append, leb, ltb, All, arith,
}
use ash_ml.Cli.Bytes.{byte_at, subarray, read_u32, byte_at-right, drop-append, take-append}
use ash_ml.Cli.Png.{Png, PngError, refused, decoded, Found}
use ash_ml.Cli.Png.Chunks.{stopped, turned, ascii, take_chunk, turn, data_end, read_chunks}
use ash_ml.Cli.Png.Chunks.Enough.{
  read_chunks-past, read_chunks-refused, read_chunks-stopped, read_chunks-turned, Turn-cases,
}

-- A 32-bit word, its highest byte first.
unfoldable pub u32 : ℕ → List ℕ
u32 n = n / 2 ^ 24 ∷ n / 2 ^ 16 % 256 ∷ n / 2 ^ 8 % 256 ∷ n % 256 ∷ []

-- A chunk: its name, its data and its check sum.
pub record Chunk : Type 0 where
  pub name : List ℕ
  pub content : List ℕ
  pub crc : List ℕ

unfoldable pub write_chunk : Chunk → List ℕ
write_chunk c = u32 (length c.content) ++ (c.name ++ (c.content ++ c.crc))

unfoldable pub write_chunks : List Chunk → List ℕ
write_chunks [] = []
write_chunks (c ∷ cs) = write_chunk c ++ write_chunks cs

pub record IsChunk (c : Chunk) : Type 0 where
  pub is_named : length c.name ≡ 4
  pub is_ascii : All (λ b. b < 128) c.name
  pub is_summed : length c.crc ≡ 4
  pub is_short : length c.content < 2 ^ 32

-- What a file with these chunks holds: all of them up to the first that ends it or is refused.
unfoldable pub collect : List Chunk → Found → Png Found
collect [] found = decoded found
collect (c ∷ cs) found = elim (take_chunk c.name c.content found) [
  | refused e ↦ refused e
  | decoded (stopped f) ↦ decoded f
  | decoded (turned f) ↦ collect cs f
]

ascii-plain : (bs : List ℕ) → All (λ b. b < 128) bs → ascii bs ≡ bs
unfolding ascii
ascii-plain [] h = refl
ascii-plain (b ∷ bs) h = ground (arith, ascii-plain bs h.1)

-- A word that is written behind `front` is read at its end.
pub read_u32-u32 :
    (n : ℕ) (front rest : List ℕ)
    → n < 2 ^ 32
    → read_u32 (front ++ (u32 n ++ rest)) (length front) ≡ n
unfolding u32
read_u32-u32 n front rest h =
    let at = byte_at-right front (u32 n ++ rest) in
    let begin : length front ≡ length front + 0 = omega arith in
    let first = ap (byte_at (front ++ (u32 n ++ rest))) begin ∙ at 0 in
    rw (first, at 1, at 2, at 3) (omega (arith, h))

-- A piece that is written behind `front` is the subarray there.
subarray-piece :
    (front piece rest : List ℕ) (e : ℕ)
    → e ≡ length front + length piece
    → subarray (front ++ (piece ++ rest)) (length front) e ≡ piece
subarray-piece front piece rest e h =
    let size : e - length front ≡ length piece = omega (arith, h) in
    rw (drop-append front (piece ++ rest), size) (take-append piece rest)

module _ (front rest : List ℕ) (c : Chunk) (well : IsChunk c) where
  buffer : List ℕ
  buffer = front ++ (write_chunk c ++ rest)

  size : List ℕ
  size = u32 (length c.content)

  behind_size : buffer ≡ front ++ (size ++ (c.name ++ (c.content ++ c.crc) ++ rest))
  unfolding buffer size write_chunk
  behind_size = simp append_assoc refl

  behind_name : buffer ≡ (front ++ size) ++ (c.name ++ ((c.content ++ c.crc) ++ rest))
  unfolding buffer size write_chunk
  behind_name = simp append_assoc refl

  behind_content : buffer ≡ ((front ++ size) ++ c.name) ++ (c.content ++ (c.crc ++ rest))
  unfolding buffer size write_chunk
  behind_content = simp append_assoc refl

  length-size : length size ≡ 4
  unfolding size u32
  length-size = refl

  size-read : read_u32 buffer (length front) ≡ length c.content
  unfolding size
  size-read = rw behind_size (read_u32-u32 (length c.content) front _ well.is_short)

  end-read : data_end buffer (length front) ≡ length front + 8 + length c.content
  unfolding data_end
  end-read = rw size-read refl

  name-read : subarray buffer (length front + 4) (length front + 8) ≡ c.name
  name-read =
      let place : length (front ++ size) ≡ length front + 4 =
        omega (arith, length-append front size, length-size) in
      let stop : length front + 8 ≡ length (front ++ size) + length c.name =
        omega (arith, place, well.is_named) in
      rw (behind_name, ← place) (subarray-piece (front ++ size) c.name _ (length front + 8) stop)

  content-read : subarray buffer (length front + 8) (data_end buffer (length front)) ≡ c.content
  content-read =
      let before = (front ++ size) ++ c.name in
      let place : length before ≡ length front + 8 = omega (
        arith,
        length-append (front ++ size) c.name,
        length-append front size,
        length-size,
        well.is_named,
      ) in
      rw (end-read, behind_content, ← place)
        (subarray-piece before c.content _ (length before + length c.content) refl)

  length-written : length buffer ≡ length front + 12 + length c.content + length rest
  length-written =
      let before = (front ++ size) ++ c.name in
      rw behind_content (
        omega (
          arith,
          length-append before (c.content ++ (c.crc ++ rest)),
          length-append (front ++ size) c.name,
          length-append front size,
          length-append c.content (c.crc ++ rest),
          length-append c.crc rest,
          length-size,
          well.is_named,
          well.is_summed,
        ))

  turn-written :
      (found : Found) → turn buffer (length front) found ≡ take_chunk c.name c.content found
  unfolding turn
  turn-written found =
      let whole : ltb (length buffer) (data_end buffer (length front) + 4) ≡ false =
        ground (arith, length-written, end-read) in
      rw (whole, name-read, ascii-plain c.name well.is_ascii, content-read) refl

  next-chunk : data_end buffer (length front) + 4 ≡ length (front ++ write_chunk c)
  unfolding write_chunk size
  next-chunk = omega (
    arith,
    end-read,
    length-append front (size ++ (c.name ++ (c.content ++ c.crc))),
    length-append size (c.name ++ (c.content ++ c.crc)),
    length-append c.name (c.content ++ c.crc),
    length-append c.content c.crc,
    length-size,
    well.is_named,
    well.is_summed,
  )

  room : leb (length front + 8) (length buffer) ≡ true
  room = ground (arith, length-written)

  -- The three ways in which the loop goes on behind the chunk.
  step-refused :
      (found : Found) (e : PngError) (fuel : ℕ)
      → 0 < fuel
      → take_chunk c.name c.content found ≡ refused e
      → read_chunks fuel buffer (length front) found ≡ some (refused e)
  step-refused found e fuel g t =
      read_chunks-refused buffer (length front) found fuel g room (turn-written found ∙ t)

  step-stopped :
      (found f : Found) (fuel : ℕ)
      → 0 < fuel
      → take_chunk c.name c.content found ≡ decoded (stopped f)
      → read_chunks fuel buffer (length front) found ≡ some (decoded f)
  step-stopped found f fuel g t =
      read_chunks-stopped buffer (length front) found fuel g room (turn-written found ∙ t)

  step-turned :
      (found f : Found) (fuel : ℕ)
      → take_chunk c.name c.content found ≡ decoded (turned f)
      → read_chunks (suc fuel) buffer (length front) found
        ≡ read_chunks fuel ((front ++ write_chunk c) ++ rest) (length (front ++ write_chunk c)) f
  unfolding buffer
  step-turned found f fuel t =
      read_chunks-turned buffer (length front) found fuel room (turn-written found ∙ t)
      ∙ rw (next-chunk, append_assoc front (write_chunk c) rest) refl

collect-refused :
    (c : Chunk) (cs : List Chunk) (found : Found) (e : PngError)
    → take_chunk c.name c.content found ≡ refused e
    → collect (c ∷ cs) found ≡ refused e
unfolding collect
collect-refused c cs found e t = ground (arith, t)

pub collect-stopped :
    (c : Chunk) (cs : List Chunk) (found f : Found)
    → take_chunk c.name c.content found ≡ decoded (stopped f)
    → collect (c ∷ cs) found ≡ decoded f
unfolding collect
collect-stopped c cs found f t = ground (arith, t)

pub collect-turned :
    (c : Chunk) (cs : List Chunk) (found f : Found)
    → take_chunk c.name c.content found ≡ decoded (turned f)
    → collect (c ∷ cs) found ≡ collect cs f
unfolding collect
collect-turned c cs found f t = ground (arith, t)

-- The loop reads behind `front` what is written there.
pub read_chunks-write_chunks :
    (chunks : List Chunk) (front : List ℕ) (found : Found)
    → All IsChunk chunks
    → (fuel : ℕ) → length chunks < fuel
    → read_chunks fuel (front ++ write_chunks chunks) (length front) found
      ≡ some (collect chunks found)
unfolding write_chunks buffer collect
read_chunks-write_chunks [] front found h fuel g =
    let end : length (front ++ []) ≡ length front + 0 = length-append front [] in
    read_chunks-past (front ++ []) (length front) found fuel g (omega (arith, end))
read_chunks-write_chunks (c ∷ cs) front found h zero g = absurd (omega (arith, g))
read_chunks-write_chunks (c ∷ cs) front found h (suc fuel) g =
    elim (Turn-cases (take_chunk c.name c.content found)) [
      | inl (e, t) ↦
          step-refused front (write_chunks cs) c h.0 found e (suc fuel) (omega arith) t
          ∙ ap some (sym (collect-refused c cs found e t))
      | inr (inl (f, t)) ↦
          step-stopped front (write_chunks cs) c h.0 found f (suc fuel) (omega arith) t
          ∙ ap some (sym (collect-stopped c cs found f t))
      | inr (inr (f, t)) ↦
          step-turned front (write_chunks cs) c h.0 found f fuel t
          ∙ read_chunks-write_chunks cs (front ++ write_chunk c) f h.1 fuel (omega (arith, g))
          ∙ ap some (sym (collect-turned c cs found f t))
    ]

pub length-write_chunks : (chunks : List Chunk) → length chunks ≤ length (write_chunks chunks)
unfolding write_chunks write_chunk u32
length-write_chunks [] = omega arith
length-write_chunks (c ∷ cs) =
    omega (arith, length-write_chunks cs, length-append (write_chunk c) (write_chunks cs))
