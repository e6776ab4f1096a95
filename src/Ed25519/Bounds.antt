-- ===== src/Ed25519/Bounds.antt =====
-- Encodings of numbers, the clamping of the secret scalar, and the bound on the scalar of a signature.
use lustro_node_agent.Base.{
  ℕ, zero, suc, ◌*◌, ◌/◌, ◌%◌, ◌^◌, ◌≤◌, ◌<◌, ◌≡◌, refl, Bool-cases, false, not, ◌||◌, inl, inr, [],
  ◌∷◌, lt→ltb, le→leb, ◌==◌, length, take, drop, All, arith,
}
use lustro_node_agent.Base.Text.{Bytes}
use lustro_node_agent.Base.Result.{Result, ok, err}
use lustro_node_agent.Ed25519.{
  Point, order, to_little, from_little, encode_int, update, and_248, and_127, or_64, expand_scalar,
  verify_decoded, verify,
}

from_little-to_little : (count n : ℕ) → n < 256 ^ count → from_little (to_little count n) ≡ n
unfolding from_little to_little
from_little-to_little zero n small = omega (arith, small)
from_little-to_little (suc count) n small =
    let fits : n / 256 < 256 ^ count = omega (arith, small) in
    rw (from_little-to_little count (n / 256) fits) (omega arith)

-- Every number below 2^256 is encoded, as 32 bytes, and decoded to itself.
pub encode_int-from_little :
    (n : ℕ)
    → n < 2 ^ 256
    → (b : Bytes) × (encode_int n ≡ ok b) × (length b ≡ 32) × (from_little b ≡ n)
unfolding encode_int to_little
encode_int-from_little n small =
    (to_little 32 n, rw (lt→ltb n (2 ^ 256) small) refl, refl, from_little-to_little 32 n small)

clamped-from_little :
    (i : ℕ) (b : Bytes)
    → i < length b
    → All (λ c. c < 256) b
    → (64 * 256 ^ i ≤ from_little (take (suc i) (update i (λ c. or_64 (and_127 c)) b)))
      × (from_little (take (suc i) (update i (λ c. or_64 (and_127 c)) b)) < 128 * 256 ^ i)
unfolding from_little update
clamped-from_little zero (c ∷ b) long bytes = (ground arith, ground arith)
clamped-from_little (suc i) (c ∷ b) long bytes =
    let (low, high) = clamped-from_little i b (omega (arith, long)) bytes.1 in
    (omega (arith, low, bytes.0), omega (arith, high, bytes.0))
clamped-from_little i [] long bytes = absurd (omega (arith, long))

clamped :
    (h : Bytes)
    → length h ≡ 64
    → All (λ c. c < 256) h
    → (from_little (take 32 (update 31 (λ b. or_64 (and_127 b)) (update 0 and_248 h))) % 8 ≡ 0)
      × (2 ^ 254 ≤ from_little (take 32 (update 31 (λ b. or_64 (and_127 b)) (update 0 and_248 h))))
      × (from_little (take 32 (update 31 (λ b. or_64 (and_127 b)) (update 0 and_248 h))) < 2 ^ 255)
unfolding update from_little
clamped [] long bytes = absurd (omega (arith, long))
clamped (c ∷ b) long (first, others) =
    let (low, high) =
      clamped-from_little 31 (and_248 c ∷ b) (omega (arith, long)) (omega (arith, first), others) in
    (omega arith, low, high)

module _ (sha512 : Bytes → Bytes) where
  -- Where SHA-512 of the seed is 64 bytes, the secret scalar is clamped: a multiple of 8 whose highest bit is
  -- bit 254.
  pub expand_scalar-clamped :
      (seed : Bytes)
      → length (sha512 seed) ≡ 64
      → All (λ c. c < 256) (sha512 seed)
      → (expand_scalar sha512 seed % 8 ≡ 0)
        × (2 ^ 254 ≤ expand_scalar sha512 seed)
        × (expand_scalar sha512 seed < 2 ^ 255)
  unfolding expand_scalar
  expand_scalar-clamped seed long bytes = clamped (sha512 seed) long bytes

  verify_decoded-order :
      (key msg sig : Bytes) (r a : Result Point)
      → order ≤ from_little (drop 32 sig)
      → verify_decoded sha512 key msg sig r a ≡ ok false
  unfolding verify_decoded
  verify_decoded-order key msg sig (ok r) (ok a) big =
      rw (le→leb order (from_little (drop 32 sig)) big) refl
  verify_decoded-order key msg sig (ok r) (err e) big = refl
  verify_decoded-order key msg sig (err e) a big = refl

  -- A signature whose scalar is not below the order of the base point is refused, whatever the key
  -- and the message.
  pub verify-order :
      (key msg sig : Bytes)
      → order ≤ from_little (drop 32 sig)
      → verify sha512 key msg sig ≡ ok false
  unfolding verify
  verify-order key msg sig big =
      elim (Bool-cases (not (length key == 32) || not (length sig == 64))) [
        | inl bad ↦ rw bad refl
        | inr fits ↦ rw fits (verify_decoded-order key msg sig _ _ big)
      ]
