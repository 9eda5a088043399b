-- ===== src/Base/Double/Bounds.antt =====
-- How far rounding to a double moves a number: by at most one part in 10 ^ 8 and one unit, which is
-- much more than it does.
use native.Mathlib.Nat.{
  lt_of_mul-lt-mul_right, mod-lt, div-add-mod, mul-le-mul_right, mul-one, pow-suc,
}
use Prim.Native.Nat.{ℕ, zero, suc, ◌+◌, ◌*◌, ◌/◌, ◌%◌, ◌^◌, ◌≤◌, ◌<◌}
use mathlib.Core.Path.{◌≡◌, refl, ap, ◌∙◌}
use mathlib.Core.Logic.{◌⊎◌, inl, inr}
use mathlib.Core.List.{List, [], ◌∷◌}
use native.Mathlib.Omega.{arith}
use ash_ml.Base.Tests.{leb, Bool-cases}
use ash_ml.Base.Double.{one, nearest_whole, spacing_from, spacing, nearest, quotient, times}

mul-pos : (a b : ℕ) → 0 < a → 0 < b → 0 < a * b
mul-pos a b h k = omega (arith, mul-le-mul_right b h)

pow-pos : (k : ℕ) → 0 < 2 ^ k
pow-pos zero = omega arith
pow-pos (suc k) = omega (arith, pow-suc 2 k, pow-pos k)

nearest_whole-floor :
    (p q : ℕ)
    → ((nearest_whole p q ≡ p / q) × (2 * (p % q) ≤ q))
      ⊎ ((nearest_whole p q ≡ p / q + 1) × (q ≤ 2 * (p % q)))
unfolding nearest_whole
nearest_whole-floor p q = ground arith

nearest_whole-close :
    (p q : ℕ)
    → 0 < q
    → (2 * (nearest_whole p q * q) ≤ 2 * p + q) × (2 * p ≤ 2 * (nearest_whole p q * q) + q)
nearest_whole-close p q h = elim (nearest_whole-floor p q) [
  | inl e ↦ rw (e.0) (omega (arith, e.1, div-add-mod p q), omega (arith, e.1, div-add-mod p q))
  | inr e ↦
      rw (e.0)
        (omega (arith, e.1, div-add-mod p q, mod-lt p h), omega (arith, e.1, div-add-mod p q))
]

-- The spacing is 1, or at most one part of the number in 2 ^ 52.
abbrev Fine : ℕ → ℕ → Type 0
Fine n u = (0 < u) × ((u ≡ 1) ⊎ (4_503_599_627_370_496 * u ≤ n))

spacing_from-Fine : (n : ℕ) (ks : List ℕ) (u : ℕ) → Fine n u → Fine n (spacing_from n ks u)
unfolding spacing_from
spacing_from-Fine n [] u h = h
spacing_from-Fine n (k ∷ ks) u h = elim (Bool-cases (leb (4_503_599_627_370_496 * (u * 2 ^ k)) n)) [
  | inl e ↦ rw e (
      spacing_from-Fine n ks (u * 2 ^ k)
        (mul-pos u (2 ^ k) h.0 (pow-pos k), inr (ground (arith, e))))
  | inr e ↦ rw e (spacing_from-Fine n ks u h)
]

spacing-Fine : (n : ℕ) → Fine n (spacing n)
unfolding spacing
spacing-Fine n =
    spacing_from-Fine n (1024 ∷ 512 ∷ 256 ∷ 128 ∷ 64 ∷ 32 ∷ 16 ∷ 8 ∷ 4 ∷ 2 ∷ 1 ∷ []) 1
      (omega arith, inl refl)

-- On the scale of `b`, where `a / b` is rounded.
pub nearest-close :
    (a b : ℕ)
    → 0 < b
    → (100_000_000 * (nearest a b * b) ≤ 100_000_001 * a + 100_000_000 * b)
      × (100_000_000 * a ≤ 100_000_000 * (nearest a b * b) + a + 100_000_000 * b)
unfolding nearest
nearest-close a b h =
    let u = spacing (a / b) in
    let (positive, fine) = spacing-Fine (a / b) in
    let m = nearest_whole a (b * u) in
    let (above, below) = nearest_whole-close a (b * u) (mul-pos b u h positive) in
    let whole = div-add-mod a b in
    elim fine [
      | inl e ↦
          let one_of : b * u ≡ b = ap (λ v. b * v) e ∙ mul-one b in
          (omega (arith, above, one_of), omega (arith, below, one_of))
      | inr big ↦
          let part = mul-le-mul_right b big in
          (omega (arith, above, part, whole), omega (arith, below, part, whole))
    ]

one_large : 1_000_000_000 ≤ one
unfolding one
one_large = omega arith

quotient-close :
    (a b : ℕ)
    → 0 < b
    → (100_000_000 * (quotient a b * b) ≤ 100_000_001 * (a * one) + 100_000_000 * b)
      × (100_000_000 * (a * one) ≤ 100_000_000 * (quotient a b * b) + a * one + 100_000_000 * b)
unfolding quotient
quotient-close a b h = nearest-close (a * one) b h

times-close :
    (x k : ℕ)
    → (100_000_000 * times x k ≤ 100_000_001 * (x * k) + 100_000_000)
      × (100_000_000 * (x * k) ≤ 100_000_000 * times x k + x * k + 100_000_000)
unfolding times
times-close x k =
    let (above, below) = nearest-close (x * k) 1 (omega arith) in
    (omega (arith, above), omega (arith, below))

-- Where a product of a share stands, on the scale of its denominator: it is moved by less than one
-- part of it.
share-close :
    (a b k : ℕ)
    → 0 < b
    → b ≤ 10_000
    → k ≤ 100
    → a * k ≤ 1_000_000
    → (times (quotient a b) k * b < (a * k + 1) * one)
      × (a * k * one < times (quotient a b) k * b + one)
share-close a b k h hb hk small =
    let s = one in
    let (q_above, q_below) = quotient-close a b h in
    let (t_above, t_below) = times-close (quotient a b) k in
    let big = one_large in
    let p1 = mul-le-mul_right k q_above in
    let p2 = mul-le-mul_right k q_below in
    let p3 = mul-le-mul_right b t_above in
    let p4 = mul-le-mul_right b t_below in
    let p5 = mul-le-mul_right s small in
    let p6 = mul-le-mul_right b hk in
    (omega (arith, p1, p3, p5, p6, big, hb), omega (arith, p2, p4, p5, p6, big, hb))

-- Flooring a share of whole numbers is flooring the exact fraction, or, where that is whole, at worst
-- one less.
pub share-floor :
    (a b k : ℕ)
    → 0 < b
    → b ≤ 100
    → k ≤ 100
    → a ≤ 100
    → (b * (times (quotient a b) k / one) ≤ a * k)
      × (a * k ≤ b * (times (quotient a b) k / one) + b)
share-floor a b k h hb hk ha =
    let small = mul-le-mul_right k ha in
    let (above, below) = share-close a b k h (omega arith) hk (omega (arith, small)) in
    let x = times (quotient a b) k in
    let whole = div-add-mod x one in
    let part : x % one < one = mod-lt x (omega (arith, one_large)) in
    let f = x / one in
    let whole_b = ap (λ n. n * b) whole in
    let part_b = mul-le-mul_right b part in
    let low : (b * f) * one < (a * k + 1) * one = omega (arith, above, whole_b) in
    let high : (a * k) * one < (b * f + b + 1) * one = omega (arith, below, whole_b, part_b) in
    (omega (arith, lt_of_mul-lt-mul_right one low), omega (arith, lt_of_mul-lt-mul_right one high))

-- The same for a quotient alone.
pub quotient-floor :
    (a b : ℕ)
    → 0 < b
    → b ≤ 10_000
    → a ≤ 100
    → (b * (quotient a b / one) ≤ a) × (a ≤ b * (quotient a b / one) + b)
quotient-floor a b h hb ha =
    let (above, below) = quotient-close a b h in
    let x = quotient a b in
    let whole = div-add-mod x one in
    let part : x % one < one = mod-lt x (omega (arith, one_large)) in
    let f = x / one in
    let small = mul-le-mul_right one ha in
    let whole_b = ap (λ n. n * b) whole in
    let part_b = mul-le-mul_right b part in
    let low : (b * f) * one < (a + 1) * one = omega (arith, above, whole_b, small, one_large, hb) in
    let high : a * one < (b * f + b + 1) * one =
      omega (arith, below, whole_b, part_b, small, one_large, hb) in
    (omega (arith, lt_of_mul-lt-mul_right one low), omega (arith, lt_of_mul-lt-mul_right one high))

-- A bucket of 10 000 on the scale of 100, against the hundreds.
pub bucket-below :
    (bucket high : ℕ)
    → bucket < 10_000
    → bucket < 100 * high
    → times (quotient bucket 10_000) 100 < high * one
bucket-below bucket high h below =
    let (near, far) =
      share-close bucket 10_000 100 (omega arith) (omega arith) (omega arith) (omega (arith, h)) in
    let scaled = mul-le-mul_right one below in omega (arith, near, scaled, one_large)

pub bucket-above :
    (bucket low : ℕ)
    → bucket < 10_000
    → 100 * low < bucket
    → low * one ≤ times (quotient bucket 10_000) 100
bucket-above bucket low h above =
    let (near, far) =
      share-close bucket 10_000 100 (omega arith) (omega arith) (omega arith) (omega (arith, h)) in
    let scaled = mul-le-mul_right one above in omega (arith, far, scaled, one_large)
