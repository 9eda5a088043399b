-- ===== src/Domain/Routing/Hash.antt =====
-- `hashKey` of packages/server/src/domain/routing.js: FNV-1a on 32 bits, its product by shifts.
-- A key is the list of its UTF-16 code units. The source's `^` and `<<` give signed 32-bit numbers;
-- they are written here modulo 2 ^ 32, which is all that the closing `>>>= 0` keeps of their sum.
use Prim.Native.Nat.{bit_xor}
use ash_ml.Base.{ℕ, ◌+◌, ◌*◌, ◌%◌, ◌^◌, ◌≡◌, refl, ap, List, [], ◌∷◌, arith}

abbrev pub word : ℕ
word = 4_294_967_296

abbrev pub offset_basis : ℕ
offset_basis = 0x811c9dc5

abbrev fnv_prime : ℕ
fnv_prime = 16_777_619

-- `x << k`.
abbrev shl : ℕ → ℕ → ℕ
shl x k = x * 2 ^ k % word

-- One round of the loop.
unfoldable pub hash_step : ℕ → ℕ → ℕ
hash_step hash unit =
    let x = bit_xor hash unit in (x + (shl x 1 + shl x 4 + shl x 7 + shl x 8 + shl x 24)) % word

unfoldable pub hash_from : ℕ → List ℕ → ℕ
unfolding hash_step
hash_from hash [] = hash
hash_from hash (unit ∷ text) = hash_from (hash_step hash unit) text

unfoldable pub hash_key : List ℕ → ℕ
unfolding hash_from
hash_key text = hash_from offset_basis text % word

-- FNV-1a as it is defined: the product by the prime.
pub fnv1a : ℕ → List ℕ → ℕ
fnv1a hash [] = hash
fnv1a hash (unit ∷ text) = fnv1a (bit_xor hash unit * fnv_prime % word) text

hash_step-product : (hash unit : ℕ) → hash_step hash unit ≡ bit_xor hash unit * fnv_prime % word
unfolding hash_step
hash_step-product hash unit = omega arith

hash_from-fnv1a : (hash : ℕ) (text : List ℕ) → hash_from hash text ≡ fnv1a hash text
unfolding hash_from fnv1a
hash_from-fnv1a hash [] = refl
hash_from-fnv1a hash (unit ∷ text) =
    rw (hash_step-product hash unit) (hash_from-fnv1a (bit_xor hash unit * fnv_prime % word) text)

-- The sum of shifts is the product by the FNV prime modulo 2 ^ 32 in every round, so the hash of a
-- key is FNV-1a from the offset basis.
pub hash_key-fnv1a : (text : List ℕ) → hash_key text ≡ fnv1a offset_basis text % word
unfolding hash_key
hash_key-fnv1a text = ap (λ h. h % word) (hash_from-fnv1a offset_basis text)
