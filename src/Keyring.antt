-- ===== src/Keyring.antt =====
-- node_agent/crypto.py: `PureKeyring`, the browser's key over the Ed25519 of _ed25519_pure.py.
pub mod Total
use lustro_node_agent.Base.{some, ◌==◌, length}
use lustro_node_agent.Base.Text.{Text, Bytes}
use lustro_node_agent.Base.Result.{Result, ok, ◌>>=◌, ◌>>◌, guard, value_error}
use lustro_node_agent.Platform.{Platform}
use lustro_node_agent.Ed25519

pub record PureKeyring : Type 0 where
  pub seed : Bytes
  pub public_key : Bytes

module _ (sha512 : Bytes → Bytes) where
  -- `PureKeyring(seed)`
  unfoldable pub pure_keyring : Bytes → Result PureKeyring
  pure_keyring seed = do
    guard (length seed == 32) value_error
    key ← Ed25519.public_key sha512 seed
    let ring : PureKeyring = record { seed = seed; public_key = key }
    ok ring

  -- `PureKeyring.sign`
  unfoldable pub keyring_sign : PureKeyring → Bytes → Result Bytes
  keyring_sign ring message = Ed25519.sign sha512 ring.seed message (some ring.public_key)

-- `PureKeyring.public_key_raw_b64`
unfoldable pub keyring_b64 : Platform → PureKeyring → Text
keyring_b64 P ring = P.b64encode ring.public_key
