-- ===== src/CorePin/Tests.antt =====
-- The pinned-key check over the sample platform, where a signature is the key itself.
use lustro_node_agent.Base.{◌≡◌, ◌≢◌, refl, ◌↔◌, none, some, []}
use lustro_node_agent.Base.Text.{Bytes, text, text_eq}
use lustro_node_agent.Base.Value.{Value, str, null}
use lustro_node_agent.Base.Result.{
  ok, err, core_pin_error, no_pinned_key, signature_invalid, key_id_mismatch,
}
use lustro_node_agent.CorePin.{
  Environ, pinned_core_key_id, verify_with, verify_wu_signature, pure_verify_with, same_id,
}
use lustro_node_agent.CorePin.Pinned.{Verified, verify_with_iff, verify_wu_signature-closed}
use lustro_node_agent.CorePin.Twin.{PureVerified, pure_verify_with_iff}
use lustro_node_agent.Samples.{platform}

abbrev empty_environ : Environ
empty_environ name = none

abbrev key_id : Value
key_id = str pinned_core_key_id

forged :
    verify_with platform (text "core") [] (text "forged") key_id
    ≡ err (core_pin_error signature_invalid)
unfolding verify_with text_eq
forged = refl

wrong_id :
    verify_with platform (text "core") [] (text "core") null ≡ err (core_pin_error key_id_mismatch)
unfolding verify_with text_eq
wrong_id = refl

verify_with_iff_example :
    (verify_with platform (text "core") [] (text "core") key_id ≡ ok tt)
    ↔ Verified platform (text "core") [] (text "core") key_id
verify_with_iff_example = verify_with_iff platform (text "core") [] (text "core") key_id

not_dev : empty_environ "LUSTRO_NODE_AGENT_DEV" ≢ some (text "1")
not_dev h = cc

verify_wu_signature-closed_example :
    verify_wu_signature platform [] empty_environ [] (text "core") key_id
    ≡ err (core_pin_error no_pinned_key)
unfolding same_id text_eq
verify_wu_signature-closed_example =
    verify_wu_signature-closed platform empty_environ [] (text "core") key_id refl not_dev

abbrev no_hash : Bytes → Bytes
no_hash m = []

pure_verify_with_iff_example :
    (pure_verify_with platform no_hash (text "core") [] (text "forged") key_id ≡ ok tt)
    ↔ PureVerified platform no_hash (text "core") [] (text "forged") key_id
pure_verify_with_iff_example =
    pure_verify_with_iff platform no_hash (text "core") [] (text "forged") key_id
