-- ===== src/Base/Double.antt =====
-- The numbers of JavaScript that are not negative: IEEE doubles. Each is a whole number of units of
-- 2 ^ -1074, the distance of the least double from 0, and is held as that number. An exact result is
-- rounded to the nearest double, ties to even. (None of the sums here comes near 2 ^ 1024.)
pub mod Bounds
use Prim.Native.Nat.{ℕ, ◌+◌, ◌*◌, ◌/◌, ◌%◌, ◌^◌}
use mathlib.Core.List.{List, [], ◌∷◌}
use ash_ml.Base.Tests.{if◌then◌else◌, ltb, leb, ◌==◌}

abbrev pub Double : Type 0
Double = ℕ

-- The number 1.
unfoldable pub one : Double
one = 2 ^ 1074

-- The whole number nearest to `p / q`.
unfoldable pub nearest_whole : ℕ → ℕ → ℕ
nearest_whole p q =
    let n = p / q in
    let r = p % q in
    if ltb (2 * r) q then n else if ltb q (2 * r) then n + 1 else if n % 2 == 0 then n else n + 1

-- The distance of the doubles about `n` units: the greatest power of 2 that leaves 53 bits, or 1.
unfoldable pub spacing_from : ℕ → List ℕ → ℕ → ℕ
spacing_from n [] u = u
spacing_from n (k ∷ ks) u =
    spacing_from n ks (if leb (4_503_599_627_370_496 * (u * 2 ^ k)) n then u * 2 ^ k else u)

unfoldable pub spacing : ℕ → ℕ
unfolding spacing_from
spacing n = spacing_from n (1024 ∷ 512 ∷ 256 ∷ 128 ∷ 64 ∷ 32 ∷ 16 ∷ 8 ∷ 4 ∷ 2 ∷ 1 ∷ []) 1

-- The double nearest to `a / b` units.
unfoldable pub nearest : ℕ → ℕ → Double
unfolding spacing nearest_whole
nearest a b = let u = spacing (a / b) in nearest_whole a (b * u) * u

-- `a / b` and `x * k`, for whole `a`, `b` and `k`.
unfoldable pub quotient : ℕ → ℕ → Double
unfolding nearest one
quotient a b = nearest (a * one) b

unfoldable pub times : Double → ℕ → Double
unfolding nearest
times x k = nearest (x * k) 1
