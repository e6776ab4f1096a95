-- ===== src/Client/Payload.antt =====
-- `_payload_text` and `_payload_lang`.
use lustro_node_agent.Base.{ℕ, Option, none, some, [], take, if◌then◌else◌}
use lustro_node_agent.Base.Text.{Text}
use lustro_node_agent.Base.Value.{Value, str, bytes, list, dict, get, has_key, is_some}
use lustro_node_agent.Platform.{Platform}

abbrev pub max_wu_text_len : ℕ
max_wu_text_len = 65536

module _ (P : Platform) where
  -- The branches of `_payload_text` on the `text` field. Other objects give the empty text.
  unfoldable pub field_text : Value → Text
  field_text (str t) = take max_wu_text_len t
  field_text (bytes b) = P.utf8_replace (take max_wu_text_len b)
  field_text (list _) = []
  field_text (dict _) = []
  field_text v = P.to_str v

  -- `_payload_text`: a missing `text` field is the empty text.
  unfoldable pub payload_text : Value → Text
  unfolding field_text
  payload_text (dict fs) = if has_key "text" fs then field_text (get "text" fs) else []
  payload_text (str t) = take max_wu_text_len t
  payload_text (bytes b) = P.utf8_replace (take max_wu_text_len b)
  payload_text _ = []

  -- `_payload_lang`
  unfoldable pub payload_lang : Value → Option Text
  payload_lang (dict fs) = if is_some (get "lang" fs) then some (P.to_str (get "lang" fs)) else none
  payload_lang _ = none
