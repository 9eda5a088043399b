-- ===== src/Cli/Bytes.antt =====
-- Node's Buffer as a list of bytes: reads, subarrays and big-endian words.
use ash_ml.Base.{
  ℕ, zero, suc, ◌+◌, ◌-◌, ◌*◌, ◌^◌, ◌≤◌, ◌<◌, ◌≡◌, refl, ap, ◌∙◌, Bool, true, false, ◌&&◌, List, [],
  ◌∷◌, ◌++◌, length, ◌==◌, All, arith,
}

-- `buffer[i]`: past the end it is undefined, which a byte array stores as 0.
abbrev pub byte_at : List ℕ → ℕ → ℕ
byte_at [] i = 0
byte_at (b ∷ bs) zero = b
byte_at (b ∷ bs) (suc i) = byte_at bs i

abbrev pub take {ℓ} : {A : Type ℓ} → ℕ → List A → List A
take zero xs = []
take (suc n) [] = []
take (suc n) (x ∷ xs) = x ∷ take n xs

abbrev pub drop {ℓ} : {A : Type ℓ} → ℕ → List A → List A
drop zero xs = xs
drop (suc n) [] = []
drop (suc n) (x ∷ xs) = drop n xs

-- `buffer.subarray(start, end)`.
abbrev pub subarray : List ℕ → ℕ → ℕ → List ℕ
subarray bs start end = take (end - start) (drop start bs)

-- `a.equals(b)`.
abbrev pub same_bytes : List ℕ → List ℕ → Bool
same_bytes [] [] = true
same_bytes [] (c ∷ cs) = false
same_bytes (b ∷ bs) [] = false
same_bytes (b ∷ bs) (c ∷ cs) = (b == c) && same_bytes bs cs

-- `buffer.readUInt32BE(offset)`.
abbrev pub read_u32 : List ℕ → ℕ → ℕ
read_u32 bs i =
    byte_at bs i * 2 ^ 24
    + byte_at bs (i + 1) * 2 ^ 16
    + byte_at bs (i + 2) * 2 ^ 8
    + byte_at bs (i + 3)

abbrev pub IsByte : ℕ → Type 0
IsByte b = b < 256

pub byte_at-left : (xs ys : List ℕ) (i : ℕ) → i < length xs → byte_at (xs ++ ys) i ≡ byte_at xs i
byte_at-left [] ys i h = absurd (omega (arith, h))
byte_at-left (x ∷ xs) ys zero h = refl
byte_at-left (x ∷ xs) ys (suc i) h = byte_at-left xs ys i (omega (arith, h))

pub byte_at-right : (xs ys : List ℕ) (i : ℕ) → byte_at (xs ++ ys) (length xs + i) ≡ byte_at ys i
byte_at-right [] ys i = ap (byte_at ys) (omega arith)
byte_at-right (x ∷ xs) ys i =
    let shift : suc (length xs) + i ≡ suc (length xs + i) = omega arith in
    ap (byte_at (x ∷ xs ++ ys)) shift ∙ byte_at-right xs ys i

pub byte_at-take : (n i : ℕ) (xs : List ℕ) → i < n → byte_at (take n xs) i ≡ byte_at xs i
byte_at-take zero i xs h = absurd (omega (arith, h))
byte_at-take (suc n) i [] h = refl
byte_at-take (suc n) zero (x ∷ xs) h = refl
byte_at-take (suc n) (suc i) (x ∷ xs) h = byte_at-take n i xs (omega (arith, h))

pub byte_at-drop : (n i : ℕ) (xs : List ℕ) → byte_at (drop n xs) i ≡ byte_at xs (n + i)
byte_at-drop zero i xs = ap (byte_at xs) (omega arith)
byte_at-drop (suc n) i [] = refl
byte_at-drop (suc n) i (x ∷ xs) =
    let shift : suc (n + i) ≡ suc n + i = omega arith in
    byte_at-drop n i xs ∙ ap (byte_at (x ∷ xs)) shift

pub length-take : (n : ℕ) (xs : List ℕ) → n ≤ length xs → length (take n xs) ≡ n
length-take zero xs h = refl
length-take (suc n) [] h = absurd (omega (arith, h))
length-take (suc n) (x ∷ xs) h = ap suc (length-take n xs (omega (arith, h)))

pub length-drop : (n : ℕ) (xs : List ℕ) → length (drop n xs) ≡ length xs - n
length-drop zero xs = omega arith
length-drop (suc n) [] = omega arith
length-drop (suc n) (x ∷ xs) = omega (arith, length-drop n xs)

pub byte_at-IsByte : (xs : List ℕ) (i : ℕ) → All IsByte xs → IsByte (byte_at xs i)
byte_at-IsByte [] i h = omega arith
byte_at-IsByte (x ∷ xs) zero h = h.0
byte_at-IsByte (x ∷ xs) (suc i) h = byte_at-IsByte xs i h.1

-- The next byte of a list behind those that are taken already.
pub take-suc :
    (n : ℕ) (xs : List ℕ) → n < length xs → take n xs ++ (byte_at xs n ∷ []) ≡ take (suc n) xs
take-suc zero [] h = absurd (omega (arith, h))
take-suc zero (x ∷ xs) h = refl
take-suc (suc n) [] h = absurd (omega (arith, h))
take-suc (suc n) (x ∷ xs) h = ap (λ r. x ∷ r) (take-suc n xs (omega (arith, h)))

pub take-length : (xs : List ℕ) → take (length xs) xs ≡ xs
take-length [] = refl
take-length (x ∷ xs) = ap (λ r. x ∷ r) (take-length xs)

pub take-append : (xs ys : List ℕ) → take (length xs) (xs ++ ys) ≡ xs
take-append [] ys = refl
take-append (x ∷ xs) ys = ap (λ r. x ∷ r) (take-append xs ys)

pub drop-append : (xs ys : List ℕ) → drop (length xs) (xs ++ ys) ≡ ys
drop-append [] ys = refl
drop-append (x ∷ xs) ys = drop-append xs ys

pub same_bytes_self : (xs : List ℕ) → same_bytes xs xs ≡ true
same_bytes_self [] = refl
same_bytes_self (x ∷ xs) = ground (arith, same_bytes_self xs)
