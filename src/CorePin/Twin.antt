-- ===== src/CorePin/Twin.antt =====
-- Which work units pass the pure-Python check of crypto.py.
use lustro_node_agent.Base.{◌≡◌, refl, ap, ◌∙◌, ◌↔◌, true, not, Option, some, none}
use lustro_node_agent.Base.Text.{Text, Bytes, is_empty, text_eq_refl}
use lustro_node_agent.Base.Value.{Value, str}
use lustro_node_agent.Base.Result.{
  Exn, ok, >>=-eq-ok, guard-eq-ok, guard-ok, ok-injective, or_raise, core_pin_error,
  pinned_key_malformed,
}
use lustro_node_agent.Platform.{Platform}
use lustro_node_agent.Ed25519.{verify}
use lustro_node_agent.CorePin.{pinned_core_key_id, same_id, pure_verify_with}
use lustro_node_agent.CorePin.Pinned.{same_id_sound}

module _ (P : Platform) (sha512 : Bytes → Bytes) where
  -- The key id is the pinned one, and `verify` of _ed25519_pure.py accepts the signature under the
  -- decoded key.
  pub record PureVerified (raw_b64 : Text) (wu_bytes core_sig : Bytes) (key_id : Value)
      : Type 0 where
    pub pub_key : Bytes
    pub id_pinned : key_id ≡ str pinned_core_key_id
    pub configured : not (is_empty raw_b64) ≡ true
    pub decoded : P.b64decode raw_b64 ≡ some pub_key
    pub verifies : verify sha512 pub_key wu_bytes core_sig ≡ ok true

  or_raise-ok : {B : Type 0} (o : Option B) (e : Exn) {b : B} → or_raise o e ≡ ok b → o ≡ some b
  or_raise-ok (some b) e h = ap some (ok-injective h)
  or_raise-ok none e h = cc

  pure_verify_with-PureVerified :
      (raw_b64 : Text) (wu_bytes core_sig : Bytes) (key_id : Value)
      → pure_verify_with P sha512 raw_b64 wu_bytes core_sig key_id ≡ ok tt
      → PureVerified raw_b64 wu_bytes core_sig key_id
  unfolding pure_verify_with
  pure_verify_with-PureVerified raw_b64 wu_bytes core_sig key_id h =
      let (same, h₁) = guard-eq-ok _ _ _ h in
      let (configured, h₂) = guard-eq-ok _ _ _ h₁ in
      let (key, decoded, h₃) =
        >>=-eq-ok (or_raise (P.b64decode raw_b64) (core_pin_error pinned_key_malformed)) _ h₂ in
      let (valid, verified, h₄) = >>=-eq-ok (verify sha512 key wu_bytes core_sig) _ h₃ in
      record {
        pub_key = key;
        id_pinned = same_id_sound key_id pinned_core_key_id same;
        configured = configured;
        decoded = or_raise-ok (P.b64decode raw_b64) _ decoded;
        verifies = verified ∙ ap ok (guard-ok _ _ h₄);
      }

  PureVerified-pure_verify_with :
      (raw_b64 : Text) (wu_bytes core_sig : Bytes) (key_id : Value)
      → PureVerified raw_b64 wu_bytes core_sig key_id
      → pure_verify_with P sha512 raw_b64 wu_bytes core_sig key_id ≡ ok tt
  unfolding pure_verify_with same_id
  PureVerified-pure_verify_with raw_b64 wu_bytes core_sig key_id v =
      rw (v.id_pinned, text_eq_refl, v.configured, v.decoded, v.verifies) refl

  -- The pure-Python check returns exactly when the work unit names the pinned key id, a key is
  -- configured that base64 decodes, and the `verify` of _ed25519_pure.py, over any SHA-512, accepts
  -- the signature under that key.
  pub pure_verify_with_iff :
      (raw_b64 : Text) (wu_bytes core_sig : Bytes) (key_id : Value)
      → (pure_verify_with P sha512 raw_b64 wu_bytes core_sig key_id ≡ ok tt)
        ↔ PureVerified raw_b64 wu_bytes core_sig key_id
  pure_verify_with_iff raw_b64 wu_bytes core_sig key_id = (
    pure_verify_with-PureVerified raw_b64 wu_bytes core_sig key_id,
    PureVerified-pure_verify_with raw_b64 wu_bytes core_sig key_id,
  )
