-- ===== src/Client/Process/Admit.antt =====
-- What holds of a work unit that `process_wu` admits, and that the checks leave the node alone.
use lustro_node_agent.Base.{◌≡◌, refl, ap, ◌∙◌, Bool, true, false, arith}
use lustro_node_agent.Base.Text.{Text, Bytes}
use lustro_node_agent.Base.Value.{Fields}
use lustro_node_agent.Base.Result.{ok}
use lustro_node_agent.Base.Exec.{
  Exec, returned, continue, Keeps, keeps_rules, Keeps-bind, Keeps-lift, Keeps-raise, Keeps-pure,
  continue-returned, settle-returned, settle-is_returned,
}
use lustro_node_agent.Platform.{Platform}
use lustro_node_agent.CorePin.{effective_pinned_key, verify_wu_signature}
use lustro_node_agent.CorePin.Pinned.{Verified, verify_with_iff}
use lustro_node_agent.Seen.{seen}
use lustro_node_agent.Client.{NodeAgentClient, Node}
use lustro_node_agent.Client.Wire.Keeps.{AllowsLog, Keeps-log_entry}
use lustro_node_agent.Client.Validate.{
  validate_fields, canonical_wu_bytes, decode_core_sig, key_id_of,
}
use lustro_node_agent.Client.Process.{is_seen, reject_replay, verify_core, admit}

module _ (P : Platform) (C : NodeAgentClient) where
  -- The work unit is well formed, was not seen before, and carries a signature of its canonical
  -- bytes that verifies under the pinned key.
  pub record Admitted (s : Node) (wu : Fields) (wu_id : Text) : Type 0 where
    pub core_sig : Bytes
    pub signed : Bytes
    pub valid : validate_fields wu ≡ ok wu_id
    pub fresh : seen P s.replay.memory wu ≡ ok false
    pub decoded : decode_core_sig P wu ≡ ok core_sig
    pub canonical : canonical_wu_bytes P wu ≡ ok signed
    pub verified :
        Verified P (effective_pinned_key C.pinned_constant C.environ) signed core_sig (key_id_of wu)

  reject_replay-returned :
      (wu_id : Text) (replayed : Bool) (s : Node) (f : Unit {0} → Exec Node Text) {a : Text}
      {t : Node}
      → continue (reject_replay P C wu_id replayed s) f ≡ returned a t
      → (replayed ≡ false) × (f tt s ≡ returned a t)
  unfolding reject_replay
  reject_replay-returned wu_id false s f h = (refl, h)
  reject_replay-returned wu_id true s f h = ground arith

  -- The three steps of the signature check.
  record CoreChecked (wu : Fields) : Type 0 where
    core_sig : Bytes
    signed : Bytes
    decoded : decode_core_sig P wu ≡ ok core_sig
    canonical : canonical_wu_bytes P wu ≡ ok signed
    passed :
        verify_wu_signature P C.pinned_constant C.environ signed core_sig (key_id_of wu) ≡ ok tt

  verify_core-returned :
      (wu : Fields) (s : Node) (f : Unit {0} → Exec Node Text) {a : Text} {t : Node}
      → continue (verify_core P C wu s) f ≡ returned a t
      → CoreChecked wu × (f tt s ≡ returned a t)
  unfolding verify_core
  verify_core-returned wu s f h =
      let (u, t₁, whole, rest) = continue-returned (verify_core P C wu s) f h in
      let (core_sig, decoded, h₁) = settle-returned (decode_core_sig P wu) s _ whole in
      let (signed, canonical, h₂) = settle-returned (canonical_wu_bytes P wu) s _ h₁ in
      let (passed, same) =
        settle-is_returned
          (verify_wu_signature P C.pinned_constant C.environ signed core_sig (key_id_of wu)) s h₂ in
      (
        record {
          core_sig = core_sig;
          signed = signed;
          decoded = decoded;
          canonical = canonical;
          passed = passed;
        },
        rw same at rest,
      )

  -- An admitted work unit meets `Admitted`, and nothing of the node was changed by the checks.
  pub admit-returned :
      (wu : Fields) (s : Node) {wu_id : Text} {t : Node}
      → admit P C wu s ≡ returned wu_id t
      → Admitted s wu wu_id × (s ≡ t)
  unfolding admit is_seen verify_wu_signature
  admit-returned wu s h =
      let (wu_id, valid, h₁) = settle-returned (validate_fields wu) s _ h in
      let (replayed, known, h₂) = settle-returned (seen P s.replay.memory wu) s _ h₁ in
      let (new, h₃) = reject_replay-returned wu_id replayed s _ h₂ in
      let (checked, h₄) = verify_core-returned wu s _ h₃ in
      (
        record {
          core_sig = checked.core_sig;
          signed = checked.signed;
          valid = cc;
          fresh = known ∙ ap ok new;
          decoded = checked.decoded;
          canonical = checked.canonical;
          verified = (verify_with_iff P _ _ _ _).0 checked.passed;
        },
        cc,
      )

  reject_replay-Keeps :
      {I : Node → Type 0}
      → AllowsLog C I
      → (wu_id : Text) (b : Bool) → Keeps I (reject_replay P C wu_id b)
  unfolding reject_replay
  reject_replay-Keeps ignores wu_id false = search keeps_rules
  reject_replay-Keeps ignores wu_id true =
      Keeps-bind _ _ (Keeps-log_entry C ignores _) (λ _. Keeps-raise _)

  is_seen-Keeps : {I : Node → Type 0} (wu : Fields) → Keeps I (is_seen P C wu)
  unfolding is_seen
  is_seen-Keeps {I} wu = record {
    at = λ s i. (Keeps-lift {I = I} (seen P s.replay.memory wu)).at s i;
  }

  verify_core-Keeps : {I : Node → Type 0} (wu : Fields) → Keeps I (verify_core P C wu)
  unfolding verify_core
  verify_core-Keeps wu = search keeps_rules

  -- The checks change nothing but the job log.
  pub admit-Keeps : {I : Node → Type 0} → AllowsLog C I → (wu : Fields) → Keeps I (admit P C wu)
  unfolding admit
  admit-Keeps ignores wu = Keeps-bind _ _ (Keeps-lift _) λ wu_id.
      Keeps-bind _ _ (is_seen-Keeps wu) λ replayed.
        Keeps-bind _ _ (reject_replay-Keeps ignores wu_id replayed)
          λ _. Keeps-bind _ _ (verify_core-Keeps wu) (λ _. Keeps-pure wu_id)
