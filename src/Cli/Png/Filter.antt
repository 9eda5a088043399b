-- ===== src/Cli/Png/Filter.antt =====
-- The filters of a scanline: `unfilter` and `paeth` of packages/cli/src/png.js.
pub mod Encode
pub mod RoundTrip
use ash_ml.Base.{
  ℕ, zero, suc, ◌+◌, ◌-◌, ◌*◌, ◌/◌, ◌%◌, Bool, ◌&&◌, List, [], ◌∷◌, ◌++◌, ◌==◌, leb, ltb,
  if◌then◌else◌,
}
use ash_ml.Cli.Bytes.{byte_at, subarray}
use ash_ml.Cli.Png.{Png, refused, decoded, ◌>=>◌, unknown_filter}

-- `Math.abs(a - b)`.
abbrev pub distance : ℕ → ℕ → ℕ
distance a b = (a - b) + (b - a)

-- `p` is a + b - c, which may be below 0: its distances to a, b and c are those of a + b to a + c,
-- b + c and c + c.
unfoldable pub paeth : ℕ → ℕ → ℕ → ℕ
paeth a b c =
    let pa = distance (a + b) (a + c) in
    let pb = distance (a + b) (b + c) in
    let pc = distance (a + b) (c + c) in
    if leb pa pb && leb pa pc then a else if leb pb pc then b else c

-- The switch on the filter of the scanline.
unfoldable pub reconstruct : ℕ → ℕ → ℕ → ℕ → ℕ → ℕ → Png ℕ
reconstruct filter y value a b c =
    if filter == 0
    then decoded value
    else if filter == 1
    then decoded (value + a)
    else if filter == 2
    then decoded (value + b)
    else if filter == 3
    then decoded (value + (a + b) / 2)
    else if filter == 4
    then decoded (value + paeth a b c)
    else refused (unknown_filter filter y)

-- The bytes to the left of, above, and above and to the left of the byte `x` of scanline `y`.
unfoldable pub left_of : (stride bpp : ℕ) → List ℕ → (y x : ℕ) → ℕ
left_of stride bpp out y x = if leb bpp x then byte_at out (y * stride + x - bpp) else 0

unfoldable pub above : (stride : ℕ) → List ℕ → (y x : ℕ) → ℕ
above stride out y x = if ltb 0 y then byte_at out (y * stride - stride + x) else 0

unfoldable pub above_left : (stride bpp : ℕ) → List ℕ → (y x : ℕ) → ℕ
above_left stride bpp out y x =
    if ltb 0 y && leb bpp x then byte_at out (y * stride - stride + x - bpp) else 0

-- The loop over the bytes of a scanline, of which `k` are left. It writes them in order, behind
-- those of `out`.
unfoldable pub unfilter_line :
    (stride bpp y filter : ℕ) → List ℕ → (k x : ℕ) → List ℕ → Png (List ℕ)
unfilter_line stride bpp y filter line zero x out = decoded out
unfilter_line stride bpp y filter line (suc k) x out =
    reconstruct filter y (byte_at line x) (left_of stride bpp out y x) (above stride out y x)
      (above_left stride bpp out y x)
    >=> λ byte. unfilter_line stride bpp y filter line k (suc x) (out ++ (byte % 256 ∷ []))

-- The loop over the scanlines, of which `k` are left.
unfoldable pub unfilter_lines : (stride bpp : ℕ) → List ℕ → (k y : ℕ) → List ℕ → Png (List ℕ)
unfilter_lines stride bpp raw zero y out = decoded out
unfilter_lines stride bpp raw (suc k) y out =
    let start = y * (stride + 1) in
    let line = subarray raw (start + 1) ((y + 1) * (stride + 1)) in
    unfilter_line stride bpp y (byte_at raw start) line stride 0 out >=> λ so_far.
    unfilter_lines stride bpp raw k (suc y) so_far

unfoldable pub unfilter : (height stride bpp : ℕ) → List ℕ → Png (List ℕ)
unfilter height stride bpp raw = unfilter_lines stride bpp raw height 0 []
