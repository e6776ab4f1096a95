-- ===== src/Keyring/Total.antt =====
-- A keyring of 32 bytes always signs.
use lustro_node_agent.Base.{
  ◌<◌, ◌≡◌, ◌≢◌, ◌⊎◌, inl, inr, refl, drop, length, ◌==◌, arith, true, Bool-cases,
}
use lustro_node_agent.Base.Text.{Bytes}
use lustro_node_agent.Base.Result.{ok, err, value_error}
use lustro_node_agent.Ed25519.{order, from_little, scalarmult, base_point, expand_scalar}
use lustro_node_agent.Ed25519
use lustro_node_agent.Ed25519.Signing.{sign-order, encode_point-ok}
use lustro_node_agent.Keyring.{PureKeyring, pure_keyring, keyring_sign}

module _ (sha512 : Bytes → Bytes) where
  pub pure_keyring-ok :
      (seed : Bytes)
      → length seed ≡ 32
      → (ring : PureKeyring) × (pure_keyring sha512 seed ≡ ok ring)
        × (ring.seed ≡ seed)
        × (length ring.public_key ≡ 32)
  unfolding pure_keyring Ed25519.public_key
  pure_keyring-ok seed same =
      let long : (length seed == 32) ≡ true = ground arith in
      let (key, encoded, size) =
        encode_point-ok (scalarmult base_point (expand_scalar sha512 seed)) in
      let ring : PureKeyring = record { seed = seed; public_key = key } in
      (ring, rw (long, encoded) refl, refl, size)

  -- A seed of 32 bytes makes a keyring with a public key of 32 bytes, and the keyring signs every
  -- message, with 64 bytes and a scalar below the order of the base point; every other seed is
  -- refused with a `ValueError`.
  pub pure_keyring-signs :
      (seed message : Bytes)
      → ((length seed ≢ 32) × (pure_keyring sha512 seed ≡ err value_error))
        ⊎ ((ring : PureKeyring) × (sig : Bytes) × (pure_keyring sha512 seed ≡ ok ring)
            × (length ring.public_key ≡ 32)
            × (keyring_sign sha512 ring message ≡ ok sig)
            × (length sig ≡ 64)
            × (from_little (drop 32 sig) < order))
  unfolding pure_keyring keyring_sign
  pure_keyring-signs seed message = elim (Bool-cases (length seed == 32)) [
    | inr short ↦ inl ((λ h. ground arith), rw (short) refl)
    | inl long ↦
        let (ring, made, held, size) = pure_keyring-ok seed (ground arith) in
        let (sig, signed, long', canonical) =
          sign-order sha512 ring.seed message ring.public_key (rw (held) (ground arith)) in
        inr (ring, sig, made, size, signed, long', canonical)
  ]
