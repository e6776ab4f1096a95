-- ===== src/Ed25519/Tests.antt =====
-- The theorems on Ed25519 with a hash that gives 64 times the byte 255.
use lustro_node_agent.Base.{
  false, ℕ, zero, suc, ◌≤◌, ◌<◌, ◌≡◌, refl, [], ◌∷◌, All, length, drop, arith,
}
use lustro_node_agent.Base.Text.{Bytes}
use lustro_node_agent.Base.Result.{ok}
use lustro_node_agent.Ed25519.{
  order, base_point, identity, scalarmult, from_little, to_little, verify,
}
use lustro_node_agent.Ed25519.Loops.{Loops, scalarmult-Loops}
use lustro_node_agent.Ed25519.Bounds.{verify-order}

unfoldable repeated : ℕ → ℕ → Bytes
repeated zero b = []
repeated (suc n) b = b ∷ repeated n b

hash : Bytes → Bytes
unfolding repeated
hash m = repeated 64 255

repeated-bytes : (n : ℕ) → All (λ c. c < 256) (repeated n 255)
unfolding repeated
repeated-bytes zero = tt
repeated-bytes (suc n) = (omega arith, repeated-bytes n)

length-hash : length (hash []) ≡ 64
unfolding hash
length-hash = refl

hash-bytes : All (λ c. c < 256) (hash [])
unfolding hash
hash-bytes = repeated-bytes 64

abbrev zeros : Bytes
zeros = to_little 32 0

length-zeros : length zeros ≡ 32
unfolding to_little
length-zeros = refl

too_big : order ≤ from_little (drop 32 (hash []))
unfolding hash from_little order
too_big = omega arith

verify-order_example : verify hash zeros [] (hash []) ≡ ok false
verify-order_example = verify-order hash zeros [] (hash []) too_big

scalarmult-Loops_example : Loops identity base_point 5 (scalarmult base_point 5)
scalarmult-Loops_example = scalarmult-Loops base_point 5
