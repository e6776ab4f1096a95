-- ===== src/Ed25519.antt =====
-- node_agent/_ed25519_pure.py: Ed25519 over the natural numbers. `sha512` is a parameter.
pub mod Bounds
pub mod Loops
pub mod Signing
mod Tests
use lustro_node_agent.Base.{
  ℕ, zero, suc, ◌+◌, ◌-◌, ◌*◌, ◌/◌, ◌%◌, ◌^◌, Bool, true, false, ◌&&◌, ◌||◌, not, Option, none,
  some, List, [], ◌∷◌, ◌++◌, ltb, leb, ◌==◌, length, take, drop, if◌then◌else◌,
}
use lustro_node_agent.Base.Text.{Bytes, text_eq}
use lustro_node_agent.Base.Result.{
  Exn, Result, ok, err, ◌>>=◌, ◌>>◌, guard, value_error, other_error,
}

-- `P`
unfoldable pub prime : ℕ
prime = 2 ^ 255 - 19

-- `L`
unfoldable pub order : ℕ
order = 2 ^ 252 + 27742317777372353535851937790883648493

-- `pow(b, e, m)`
unfoldable pub pow_mod : ℕ → ℕ → ℕ → ℕ
pow_mod b e m = b ^ e % m

-- `a - b` up to a multiple of `P`: the source uses every difference under a `% P`.
unfoldable pub minus : ℕ → ℕ → ℕ
minus a b = a + (prime - b % prime)

-- `D`
unfoldable pub curve_d : ℕ
curve_d = minus 0 121665 * pow_mod 121666 (prime - 2) prime % prime

-- `_I`
unfoldable pub sqrt_minus_one : ℕ
sqrt_minus_one = pow_mod 2 ((prime - 1) / 4) prime

-- `_BY`
unfoldable pub base_y : ℕ
base_y = 4 * pow_mod 5 (prime - 2) prime % prime

-- `_xrecover`
unfoldable pub xrecover : ℕ → ℕ → ℕ
xrecover y sign =
    let xx = minus (y * y) 1 * pow_mod (curve_d * y * y + 1) (prime - 2) prime % prime in
    let root = pow_mod xx ((prime + 3) / 8) prime in
    let x = if minus (root * root) xx % prime == 0 then root else root * sqrt_minus_one % prime in
    if x % 2 == sign then x else (prime - x) % prime

-- Extended homogeneous coordinates (X, Y, Z, T)
pub record Point : Type 0 where
  pub x : ℕ
  pub y : ℕ
  pub z : ℕ
  pub t : ℕ

-- `B`
unfoldable pub base_point : Point
base_point =
    let bx = xrecover base_y 0 in record { x = bx; y = base_y; z = 1; t = bx * base_y % prime }

unfoldable pub identity : Point
identity = record { x = 0; y = 1; z = 1; t = 0 }

-- `_edwards`
unfoldable pub edwards : Point → Point → Point
edwards p1 p2 =
    let a = minus p1.y p1.x * minus p2.y p2.x % prime in
    let b = (p1.y + p1.x) * (p2.y + p2.x) % prime in
    let c = p1.t * 2 * curve_d * p2.t % prime in
    let d = p1.z * 2 * p2.z % prime in
    let e = minus b a in
    let f = minus d c in
    let g = d + c in
    let h = b + a in
    record { x = e * f % prime; y = g * h % prime; z = f * g % prime; t = e * h % prime }

-- The loop of `_scalarmult`, on fuel.
unfoldable pub scalar_steps : ℕ → Point → Point → ℕ → Point
scalar_steps zero q point e = q
scalar_steps (suc fuel) q point e = elim (e == 0) [
  | true ↦ q
  | false ↦
      scalar_steps fuel (if e % 2 == 1 then edwards q point else q) (edwards point point) (e / 2)
]

-- `_scalarmult`: `e` itself is fuel enough, since each round halves it.
unfoldable pub scalarmult : Point → ℕ → Point
unfolding scalar_steps
scalarmult point e = scalar_steps e identity point e

-- `n.to_bytes(count, "little")` for an `n` that fits
unfoldable pub to_little : ℕ → ℕ → Bytes
to_little zero n = []
to_little (suc count) n = n % 256 ∷ to_little count (n / 256)

-- `int.from_bytes(b, "little")`
unfoldable pub from_little : Bytes → ℕ
from_little [] = 0
from_little (b ∷ bs) = b + 256 * from_little bs

-- `_encode_int`: a number that does not fit raises `OverflowError`.
unfoldable pub encode_int : ℕ → Result Bytes
encode_int n = if ltb n (2 ^ 256) then ok (to_little 32 n) else err other_error

-- `[(y >> i) & 1 for i in range(first, first + count)]`
unfoldable pub bit_list : ℕ → ℕ → ℕ → List ℕ
bit_list first zero y = []
bit_list first (suc count) y = (y / 2 ^ first) % 2 ∷ bit_list (suc first) count y

-- `sum(b << i for i, b in enumerate(bits, first))`
unfoldable pub sum_shifted : ℕ → List ℕ → ℕ
sum_shifted first [] = 0
sum_shifted first (b ∷ bits) = b * 2 ^ first + sum_shifted (suc first) bits

-- `_encode_point`
unfoldable pub encode_point : Point → Result Bytes
encode_point p =
    let zinv = pow_mod p.z (prime - 2) prime in
    let x = p.x * zinv % prime in
    let y = p.y * zinv % prime in encode_int (sum_shifted 0 (bit_list 0 255 y ++ x % 2 ∷ []))

-- `b[i]`, where `b` is long enough
unfoldable pub byte_at : ℕ → Bytes → ℕ
byte_at i [] = 0
byte_at zero (b ∷ bs) = b
byte_at (suc i) (b ∷ bs) = byte_at i bs

-- `_decode_point`
unfoldable pub decode_point : Bytes → Result Point
decode_point s = do
  guard (length s == 32) value_error
  let y = from_little s % 2 ^ 255
  guard (ltb y prime) value_error
  let x = xrecover y (byte_at 31 s / 128 % 2)
  guard (minus (y * y) (x * x + 1 + curve_d * x * x * y * y) % prime == 0) value_error
  ok (record { x = x; y = y; z = 1; t = x * y % prime })

-- `b[i] = f(b[i])`, where `b` is long enough
unfoldable pub update : ℕ → (ℕ → ℕ) → Bytes → Bytes
update i f [] = []
update zero f (b ∷ bs) = f b ∷ bs
update (suc i) f (b ∷ bs) = b ∷ update i f bs

-- `& 248`, `& 127` and `| 64` on a byte
abbrev pub and_248 : ℕ → ℕ
and_248 b = b / 8 % 32 * 8

abbrev pub and_127 : ℕ → ℕ
and_127 b = b % 128

abbrev pub or_64 : ℕ → ℕ
or_64 b = if b / 64 % 2 == 0 then b + 64 else b

module _ (sha512 : Bytes → Bytes) where
  -- `_hint`
  unfoldable pub hint : Bytes → ℕ
  hint m = from_little (sha512 m)

  -- `_expand`
  unfoldable pub expand_scalar : Bytes → ℕ
  expand_scalar seed =
      from_little (take 32 (update 31 (λ b. or_64 (and_127 b)) (update 0 and_248 (sha512 seed))))

  unfoldable pub expand_prefix : Bytes → Bytes
  expand_prefix seed = drop 32 (update 31 (λ b. or_64 (and_127 b)) (update 0 and_248 (sha512 seed)))

  unfoldable pub public_key : Bytes → Result Bytes
  public_key seed = do
    guard (length seed == 32) value_error
    encode_point (scalarmult base_point (expand_scalar seed))

  -- The key that `sign` was given, or the one that it derives.
  abbrev key_or : Option Bytes → Bytes → Result Bytes
  key_or (some key) seed = ok key
  key_or none seed = encode_point (scalarmult base_point (expand_scalar seed))

  -- `(_hint(r_enc + pub + msg) * a + r) % L`
  unfoldable pub sign_scalar : Bytes → Bytes → Bytes → ℕ → ℕ → ℕ
  sign_scalar r_enc key msg a r = (hint (r_enc ++ (key ++ msg)) * a + r) % order

  unfoldable pub sign : Bytes → Bytes → Option Bytes → Result Bytes
  sign seed msg given = do
    guard (length seed == 32) value_error
    key ← key_or given seed
    let r = hint (expand_prefix seed ++ msg) % order
    r_enc ← encode_point (scalarmult base_point r)
    s_enc ← encode_int (sign_scalar r_enc key msg (expand_scalar seed) r)
    ok (r_enc ++ s_enc)

  -- The comparison of `verify`, for decoded points
  unfoldable pub verify_points : Bytes → Bytes → Bytes → Point → Point → Result Bool
  verify_points key msg sig r_point a_point = do
    let h = hint (take 32 sig ++ (key ++ msg)) % order
    left ← encode_point (scalarmult base_point (from_little (drop 32 sig)))
    right ← encode_point (edwards r_point (scalarmult a_point h))
    ok (text_eq left right)

  -- From the decoded points on
  unfoldable pub verify_decoded : Bytes → Bytes → Bytes → Result Point → Result Point → Result Bool
  verify_decoded key msg sig (ok r_point) (ok a_point) =
      if leb order (from_little (drop 32 sig))
      then ok false
      else verify_points key msg sig r_point a_point
  verify_decoded key msg sig (err _) a = ok false
  verify_decoded key msg sig (ok _) (err _) = ok false

  unfoldable pub verify : Bytes → Bytes → Bytes → Result Bool
  unfolding verify_decoded
  verify key msg sig =
      if not (length key == 32) || not (length sig == 64)
      then ok false
      else verify_decoded key msg sig (decode_point (take 32 sig)) (decode_point key)
