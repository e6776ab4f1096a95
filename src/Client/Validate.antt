-- ===== src/Client/Validate.antt =====
-- The checks of `process_wu` before any work, and `canonical_wu_bytes`.
use lustro_node_agent.Base.{
  ℕ, String, Bool, true, ◌&&◌, ◌||◌, [], ◌∷◌, leb, ◌==◌, length, if◌then◌else◌,
}
use lustro_node_agent.Base.Text.{Text, Bytes, utf8}
use lustro_node_agent.Base.Value.{Value, Fields, str, bytes, dict, field, end, get, has_key, truthy}
use lustro_node_agent.Base.Result.{
  Result, ok, err, ◌>>=◌, ◌>>◌, guard, or_raise, core_pin_error, not_an_object, missing_wu_id,
  wu_id_not_string, wu_id_too_long, wu_id_invalid_chars, missing_field, field_too_long,
  core_sig_malformed, unicode_error, type_error,
}
use lustro_node_agent.Platform.{Platform}

abbrev pub max_wu_id_len : ℕ
max_wu_id_len = 256

abbrev pub max_field_len : ℕ
max_field_len = 1024

-- `ALLOWED_WU_ID_CHARS`: letters, digits, and - _ . and the space.
unfoldable pub is_allowed : ℕ → Bool
is_allowed c =
    (leb b'a' c && leb c b'z')
    || (leb b'A' c && leb c b'Z')
    || (leb b'0' c && leb c b'9')
    || c == b'-'
    || c == b'_'
    || c == b'.'
    || c == b' '

unfoldable pub all_allowed : Text → Bool
unfolding is_allowed
all_allowed [] = true
all_allowed (c ∷ t) = is_allowed c && all_allowed t

-- The checks of `wu_id`, from `if not wu_id` on.
unfoldable pub valid_wu_id : Value → Result Text
unfolding truthy all_allowed
valid_wu_id (str t) = do
  guard (truthy (str t)) (core_pin_error missing_wu_id)
  guard (leb (length t) max_wu_id_len) (core_pin_error wu_id_too_long)
  guard (all_allowed t) (core_pin_error wu_id_invalid_chars)
  ok t
valid_wu_id v =
    if truthy v then err (core_pin_error wu_id_not_string) else err (core_pin_error missing_wu_id)

abbrev short_enough : Value → Bool
short_enough (str t) = leb (length t) max_field_len
short_enough _ = true

-- One round of the loop over the fields that the signature covers.
unfoldable pub check_field : Fields → String → Result (Unit {0})
check_field wu k = do
  guard (has_key k wu) (core_pin_error (missing_field k))
  guard (short_enough (get k wu)) (core_pin_error (field_too_long k))

-- All checks before the anti-replay test.
unfoldable pub validate_fields : Fields → Result Text
unfolding valid_wu_id check_field
validate_fields wu = do
  wu_id ← valid_wu_id (get "wu_id" wu)
  check_field wu "kind"
  check_field wu "payload"
  check_field wu "core_pubkey_id"
  ok wu_id

unfoldable pub as_object : Value → Result Fields
as_object (dict wu) = ok wu
as_object _ = err (core_pin_error not_an_object)

-- The part of a work unit that the core signs.
abbrev pub signed_part : Fields → Value
signed_part wu = dict (
    field "wu_id" (get "wu_id" wu) (
      field "kind" (get "kind" wu) (
        field "payload" (get "payload" wu) (field "core_pubkey_id" (get "core_pubkey_id" wu) end))))

-- `wu.get("core_pubkey_id", "")`
abbrev pub key_id_of : Fields → Value
key_id_of wu = if has_key "core_pubkey_id" wu then get "core_pubkey_id" wu else str []

module _ (P : Platform) where
  -- `canonical_wu_bytes`, where the four fields are there.
  unfoldable pub canonical_wu_bytes : Fields → Result Bytes
  canonical_wu_bytes wu = or_raise (utf8 (P.dumps_canonical (signed_part wu))) unicode_error

  -- `base64.b64decode(wu["core_sig"], validate=True)` and its `except (KeyError, binascii.Error,
  -- ValueError)`. A value that is neither text nor bytes raises `TypeError`, which is not caught.
  unfoldable pub decode_core_sig : Fields → Result Bytes
  decode_core_sig wu =
      if has_key "core_sig" wu
      then elim (get "core_sig" wu) [
        | str t ↦ or_raise (P.b64decode t) (core_pin_error core_sig_malformed)
        | bytes b ↦ or_raise (P.b64decode b) (core_pin_error core_sig_malformed)
        | _ ↦ err type_error
      ]
      else err (core_pin_error core_sig_malformed)
