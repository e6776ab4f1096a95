-- ===== src/CorePin.antt =====
-- node_agent/core_pin.py, and its twin of node_agent/crypto.py: the signature of a work unit is
-- checked against a pinned key of the core. `verify_with` is the body that takes the key.
pub mod Pinned
pub mod Twin
pub mod Tests
use lustro_node_agent.Base.{
  String, Bool, true, false, not, ◌&&◌, Option, none, some, [], if◌then◌else◌,
}
use lustro_node_agent.Base.Text.{Text, Bytes, text, text_eq, is_empty}
use lustro_node_agent.Base.Value.{Value, str}
use lustro_node_agent.Base.Result.{
  Result, ok, err, ◌>>=◌, ◌>>◌, guard, or_raise, core_pin_error, key_id_mismatch, no_pinned_key,
  pinned_key_malformed, signature_invalid,
}
use lustro_node_agent.Platform.{Platform}
use lustro_node_agent.Ed25519.{verify}

-- `os.environ.get`
abbrev pub Environ : Type 0
Environ = String → Option Text

abbrev pub pinned_core_key_id : Text
pinned_core_key_id = text "lustro-core-key-v1"

abbrev pub dev_core_public_key_b64 : Text
dev_core_public_key_b64 = text "3xr2nMlHr2Lj+WMO+vZ09gIgUeSDk7d2HxW4UZ3ymOg="

abbrev is_one : Option Text → Bool
is_one none = false
is_one (some t) = text_eq t (text "1")

unfoldable pub default_pinned_key_b64 : Environ → Text
default_pinned_key_b64 env =
    if is_one (env "LUSTRO_NODE_AGENT_DEV") then dev_core_public_key_b64 else []

-- `constant` is `PINNED_CORE_PUBLIC_KEY_B64`, which is `default_pinned_key_b64` of the environment
-- at import, or what a release was patched with.
unfoldable pub effective_pinned_key : Text → Environ → Text
unfolding default_pinned_key_b64
effective_pinned_key constant env = elim (env "LUSTRO_NODE_AGENT_PINNED_KEY_B64") [
  | some override ↦ override
  | none ↦ if is_empty constant then default_pinned_key_b64 env else constant
]

-- `key_id != pinned_key_id`, where the id is whatever the JSON held.
unfoldable pub same_id : Value → Text → Bool
same_id (str t) pinned = text_eq t pinned
same_id _ pinned = false

module _ (P : Platform) where
  unfoldable pub load_pinned_public_key : Text → Result Bytes
  load_pinned_public_key raw_b64 = do
    guard (not (is_empty raw_b64)) (core_pin_error no_pinned_key)
    raw ← or_raise (P.b64decode raw_b64) (core_pin_error pinned_key_malformed)
    guard (P.key_accepted raw) (core_pin_error pinned_key_malformed)
    ok raw

  -- `verify_wu_signature` for the pinned id and the key `raw_b64`
  unfoldable pub verify_with : Text → Bytes → Bytes → Value → Result (Unit {0})
  unfolding load_pinned_public_key same_id
  verify_with raw_b64 wu_bytes core_sig key_id = do
    guard (same_id key_id pinned_core_key_id) (core_pin_error key_id_mismatch)
    pub_key ← load_pinned_public_key raw_b64
    guard (P.key_verifies pub_key core_sig wu_bytes) (core_pin_error signature_invalid)

  -- `verify_wu_signature` with its default arguments
  unfoldable pub verify_wu_signature : Text → Environ → Bytes → Bytes → Value → Result (Unit {0})
  verify_wu_signature constant env = verify_with (effective_pinned_key constant env)

  -- `pure_verify_wu_signature` of crypto.py, with the `verify` of _ed25519_pure.py over SHA-512
  unfoldable pub pure_verify_with :
      (Bytes → Bytes) → Text → Bytes → Bytes → Value → Result (Unit {0})
  unfolding same_id
  pure_verify_with sha512 raw_b64 wu_bytes core_sig key_id = do
    guard (same_id key_id pinned_core_key_id) (core_pin_error key_id_mismatch)
    guard (not (is_empty raw_b64)) (core_pin_error no_pinned_key)
    pub_key ← or_raise (P.b64decode raw_b64) (core_pin_error pinned_key_malformed)
    valid ← verify sha512 pub_key wu_bytes core_sig
    guard valid (core_pin_error signature_invalid)
