-- ===== src/CorePin/Pinned.antt =====
-- Which work units pass the pinned-key check, and that it fails closed.
use lustro_node_agent.Base.{
  ◌≡◌, ◌≢◌, refl, ap, ◌∙◌, ◌↔◌, inl, inr, Option-cases, if◌then◌else◌, true, not, none, some, [],
  arith,
}
use lustro_node_agent.Base.Text.{Text, Bytes, text, is_empty, text_eq_refl, text_eq-ne, text_eq_iff}
use lustro_node_agent.Base.Value.{Value, str}
use lustro_node_agent.Base.Result.{
  Exn, PinReason, ok, err, >>=-eq-ok, guard-eq-ok, guard-ok, core_pin_error, no_pinned_key,
  key_id_mismatch,
}
use lustro_node_agent.Platform.{Platform}
use lustro_node_agent.CorePin.{
  Environ, pinned_core_key_id, effective_pinned_key, same_id, load_pinned_public_key, verify_with,
  verify_wu_signature,
}

pub same_id_sound : (v : Value) (t : Text) → same_id v t ≡ true → v ≡ str t
unfolding same_id
same_id_sound (str s) t h = ap str ((text_eq_iff s t).0 h)
same_id_sound _ t h = ground arith

effective_pinned_key-empty :
    (env : Environ)
    → env "LUSTRO_NODE_AGENT_PINNED_KEY_B64" ≡ none
    → env "LUSTRO_NODE_AGENT_DEV" ≢ some (text "1")
    → effective_pinned_key [] env ≡ []
unfolding effective_pinned_key
effective_pinned_key-empty env no_override no_dev =
    elim (Option-cases (env "LUSTRO_NODE_AGENT_DEV")) [
      | inl absent ↦ ground arith
      | inr (t, present) ↦
          ground (arith, text_eq-ne t (text "1") (λ e. no_dev (present ∙ ap some e)))
    ]

module _ (P : Platform) where
  -- The key id is the pinned one, and the signature verifies under the decoded key.
  pub record Verified (raw_b64 : Text) (wu_bytes core_sig : Bytes) (key_id : Value) : Type 0 where
    pub pub_key : Bytes
    pub id_pinned : key_id ≡ str pinned_core_key_id
    pub decoded : P.b64decode raw_b64 ≡ some pub_key
    pub accepted : P.key_accepted pub_key ≡ true
    pub verifies : P.key_verifies pub_key core_sig wu_bytes ≡ true
    pub configured : not (is_empty raw_b64) ≡ true

  load_pinned_public_key-ok :
      (raw_b64 : Text) (key : Bytes)
      → load_pinned_public_key P raw_b64 ≡ ok key
      → (not (is_empty raw_b64) ≡ true)
        × (P.b64decode raw_b64 ≡ some key)
        × (P.key_accepted key ≡ true)
  unfolding load_pinned_public_key
  load_pinned_public_key-ok raw_b64 key h = ground arith

  verify_with-Verified :
      (raw_b64 : Text) (wu_bytes core_sig : Bytes) (key_id : Value)
      → verify_with P raw_b64 wu_bytes core_sig key_id ≡ ok tt
      → Verified raw_b64 wu_bytes core_sig key_id
  unfolding verify_with
  verify_with-Verified raw_b64 wu_bytes core_sig key_id h =
      let (same, h₁) = guard-eq-ok _ _ _ h in
      let (key, loaded, h₂) = >>=-eq-ok (load_pinned_public_key P raw_b64) _ h₁ in
      let (configured, decoded, accepted) = load_pinned_public_key-ok raw_b64 key loaded in
      record {
        pub_key = key;
        id_pinned = same_id_sound key_id pinned_core_key_id same;
        decoded = decoded;
        accepted = accepted;
        verifies = guard-ok _ _ h₂;
        configured = configured;
      }

  Verified-verify_with :
      (raw_b64 : Text) (wu_bytes core_sig : Bytes) (key_id : Value)
      → Verified raw_b64 wu_bytes core_sig key_id
      → verify_with P raw_b64 wu_bytes core_sig key_id ≡ ok tt
  unfolding verify_with same_id load_pinned_public_key
  Verified-verify_with raw_b64 wu_bytes core_sig key_id v =
      rw (v.id_pinned, text_eq_refl, v.configured, v.decoded, v.accepted, v.verifies) refl

  -- The check returns exactly when the work unit names the pinned key id, a key is configured that
  -- decodes to an acceptable raw key, and the signature verifies under that key.
  pub verify_with_iff :
      (raw_b64 : Text) (wu_bytes core_sig : Bytes) (key_id : Value)
      → (verify_with P raw_b64 wu_bytes core_sig key_id ≡ ok tt)
        ↔ Verified raw_b64 wu_bytes core_sig key_id
  verify_with_iff raw_b64 wu_bytes core_sig key_id = (
    verify_with-Verified raw_b64 wu_bytes core_sig key_id,
    Verified-verify_with raw_b64 wu_bytes core_sig key_id,
  )

  -- Whatever stops the check, it is a `CorePinError`.
  pub verify_with-err :
      (raw_b64 : Text) (wu_bytes core_sig : Bytes) (key_id : Value) (e : Exn)
      → verify_with P raw_b64 wu_bytes core_sig key_id ≡ err e
      → (why : PinReason) × (e ≡ core_pin_error why)
  unfolding verify_with load_pinned_public_key
  verify_with-err raw_b64 wu_bytes core_sig key_id e h = ground arith

  -- With no key in the environment, none baked in and no development flag, no work unit passes.
  pub verify_wu_signature-closed :
      (env : Environ) (wu_bytes core_sig : Bytes) (key_id : Value)
      → env "LUSTRO_NODE_AGENT_PINNED_KEY_B64" ≡ none
      → env "LUSTRO_NODE_AGENT_DEV" ≢ some (text "1")
      → verify_wu_signature P [] env wu_bytes core_sig key_id
        ≡ err (
            core_pin_error
              (if same_id key_id pinned_core_key_id then no_pinned_key else key_id_mismatch))
  unfolding verify_wu_signature verify_with load_pinned_public_key
  verify_wu_signature-closed env wu_bytes core_sig key_id no_override no_dev =
      rw (effective_pinned_key-empty env no_override no_dev) (ground arith)
