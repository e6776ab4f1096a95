-- ===== src/Platform.antt =====
-- What the agent calls and does not implement: Python's standard library and `cryptography`. Each
-- is a field, an argument of every definition that uses it.
use lustro_node_agent.Base.{ℕ, ℤ, Bool, Option, List}
use lustro_node_agent.Base.Text.{Text, Bytes}
use lustro_node_agent.Base.Value.{Value}
use lustro_node_agent.Base.Result.{Result}

-- The result of `urllib.parse.urlparse`. Reading `.port` raises `ValueError` for a bad port.
pub record ParsedUrl : Type 0 where
  pub scheme : Text
  pub netloc : Text
  pub hostname : Option Text
  pub port : Result (Option ℕ)

pub record Platform : Type 0 where
  -- `urlparse`, which raises `ValueError` for a bad IPv6 netloc.
  pub urlparse : Text → Result ParsedUrl
  -- `str.lower`
  pub lower : Text → Text
  -- `json.loads`: `none` is a `JSONDecodeError`.
  pub loads : Text → Option Value
  -- `json.loads` of bytes: `none` is a `JSONDecodeError`.
  pub loads_bytes : Bytes → Result (Option Value)
  -- `json.dumps(v, ensure_ascii=False)`
  pub dumps : Value → Text
  -- `json.dumps(v, sort_keys=True, separators=(",", ":"), ensure_ascii=False)`
  pub dumps_canonical : Value → Text
  -- `json.dumps(v)`
  pub dumps_ascii : Value → Text
  -- `base64.b64encode(b).decode()`
  pub b64encode : Bytes → Text
  -- `base64.b64decode(t, validate=True)` on a text: `none` is a `ValueError`.
  pub b64decode : Text → Option Bytes
  -- `base64.b64decode(t)` on a text: `none` is a `ValueError`.
  pub b64decode_lax : Text → Option Bytes
  -- `bytes.decode("utf-8")`: `none` is a `UnicodeDecodeError`.
  pub utf8_decode : Bytes → Option Text
  -- `bytes.decode("utf-8", errors="replace")`
  pub utf8_replace : Bytes → Text
  -- `str(v)`
  pub to_str : Value → Text
  -- Two hashable values that are not both texts are the same element of a set.
  pub same_key : Value → Value → Bool
  -- `list(s)` for a set that holds these elements: the order is the interpreter's.
  pub set_order : List Value → List Value
  -- `time.time()`, which may depend on all that was logged before.
  pub now : Text → Value
  -- `Ed25519PublicKey.from_public_bytes` accepts the raw key.
  pub key_accepted : Bytes → Bool
  -- `key.verify(signature, message)` does not raise.
  pub key_verifies : Bytes → Bytes → Bytes → Bool
  -- `int(t)` on a text: `none` is a `ValueError`.
  pub parse_int : Text → Option ℤ
