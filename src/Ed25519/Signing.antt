-- ===== src/Ed25519/Signing.antt =====
-- `sign` succeeds for every seed of 32 bytes, and the scalar of its signature is canonical.
use lustro_node_agent.Base.{
  ℕ, zero, suc, ◌+◌, ◌-◌, ◌*◌, ◌%◌, ◌^◌, ◌≤◌, ◌<◌, ◌≡◌, refl, ap, ◌∙◌, subst, some, List, [], ◌∷◌,
  ◌++◌, length, length-append, drop, drop-append, All, All-append, arith,
}
use lustro_node_agent.Base.Text.{Bytes}
use lustro_node_agent.Base.Result.{ok}
use lustro_node_agent.Ed25519.{
  Point, prime, order, pow_mod, from_little, bit_list, sum_shifted, encode_point, base_point,
  scalarmult, hint, expand_scalar, expand_prefix, sign_scalar, sign,
}
use lustro_node_agent.Ed25519.Bounds.{encode_int-from_little}

AreBits : List ℕ → Type 0
AreBits bits = All (λ b. b ≤ 1) bits

bit_list-AreBits : (first count y : ℕ) → AreBits (bit_list first count y)
unfolding bit_list AreBits
bit_list-AreBits first zero y = tt
bit_list-AreBits first (suc count) y = (omega arith, bit_list-AreBits (suc first) count y)

length-bit_list : (first count y : ℕ) → length (bit_list first count y) ≡ count
unfolding bit_list
length-bit_list first zero y = refl
length-bit_list first (suc count) y = ap suc (length-bit_list (suc first) count y)

bit_times : (b w : ℕ) → b ≤ 1 → b * w ≤ w
bit_times zero w small = omega arith
bit_times (suc zero) w small = omega arith
bit_times (suc (suc b)) w small = absurd (omega (arith, small))

sum_shifted_bound :
    (first : ℕ) (bits : List ℕ)
    → AreBits bits
    → sum_shifted first bits + 2 ^ first ≤ 2 ^ (first + length bits)
unfolding sum_shifted AreBits
sum_shifted_bound first [] bits =
    let same : first + 0 ≡ first = omega arith in rw same (omega arith)
sum_shifted_bound first (b ∷ bits) (small, others) =
    let rest = sum_shifted_bound (suc first) bits others in
    let same : first + suc (length bits) ≡ suc first + length bits = omega arith in
    let this = bit_times b (2 ^ first) small in rw same (omega (arith, rest, this))

-- A point is always encoded, as 32 bytes.
pub encode_point-ok : (p : Point) → (b : Bytes) × (encode_point p ≡ ok b) × (length b ≡ 32)
unfolding encode_point AreBits
encode_point-ok p =
    let zinv = pow_mod p.z (prime - 2) prime in
    let x = p.x * zinv % prime in
    let y = p.y * zinv % prime in
    let bits = bit_list 0 255 y ++ x % 2 ∷ [] in
    let count : length bits ≡ 256 =
      length-append (bit_list 0 255 y) _ ∙ ap (λ n. n + 1) (length-bit_list 0 255 y) in
    let are : AreBits bits =
      All-append (λ b. b ≤ 1) (bit_list 0 255 y) _ (bit_list-AreBits 0 255 y) (omega arith, tt) in
    let bound = sum_shifted_bound 0 bits are in
    let (b, encoded, size, _) =
      encode_int-from_little (sum_shifted 0 bits) (omega (arith, rw count at bound)) in
    (b, encoded, size)

module _ (sha512 : Bytes → Bytes) where
  sign_scalar_bound :
      (r_enc key msg : Bytes) (a r : ℕ)
      → (sign_scalar sha512 r_enc key msg a r < order)
        × (sign_scalar sha512 r_enc key msg a r < 2 ^ 256)
  unfolding sign_scalar order
  sign_scalar_bound r_enc key msg a r = (omega arith, omega arith)

  -- For a seed of 32 bytes `sign` returns a signature of 64 bytes, whose scalar is below the order of
  -- the base point.
  pub sign-order :
      (seed msg key : Bytes)
      → length seed ≡ 32
      → (sig : Bytes) × (sign sha512 seed msg (some key) ≡ ok sig)
        × (length sig ≡ 64)
        × (from_little (drop 32 sig) < order)
  unfolding sign
  sign-order seed msg key long =
      let r = hint sha512 (expand_prefix sha512 seed ++ msg) % order in
      let (r_enc, first, size) = encode_point-ok (scalarmult base_point r) in
      let s = sign_scalar sha512 r_enc key msg (expand_scalar sha512 seed) r in
      let (canonical, fits) = sign_scalar_bound r_enc key msg (expand_scalar sha512 seed) r in
      let (s_enc, second, size', same) = encode_int-from_little s fits in
      let tail : drop 32 (r_enc ++ s_enc) ≡ s_enc =
        subst (λ n. drop n (r_enc ++ s_enc) ≡ s_enc) size (drop-append r_enc s_enc) in
      (
        r_enc ++ s_enc,
        rw (long, first, second) refl,
        length-append r_enc s_enc ∙ omega (arith, size, size'),
        rw (tail, same) canonical,
      )
