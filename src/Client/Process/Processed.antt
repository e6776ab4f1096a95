-- ===== src/Client/Process/Processed.antt =====
-- What `process_wu` has done when it returns, and what must hold before it sends anything.
use lustro_node_agent.Base.{◌≡◌, ◌≢◌, refl, ap, subst, sym, ◌∙◌, inl, inr, Option, arith}
use lustro_node_agent.Base.Text.{Text, Bytes}
use lustro_node_agent.Base.Value.{Value, Fields, dict, get, str, set_key}
use lustro_node_agent.Base.Result.{ok, Result-cases}
use lustro_node_agent.Base.Exec.{
  Outcome, returned, raised, final, continue-returned, settle-returned, Outcome-cases,
  returned-injective,
}
use lustro_node_agent.Platform.{Platform}
use lustro_node_agent.Egress.{check}
use lustro_node_agent.Seen.{ReplayStore, mark_seen}
use lustro_node_agent.JobLog.{TextFile}
use lustro_node_agent.Client.{Http, Response, NodeAgentClient, Node, Classification}
use lustro_node_agent.Client.Wire.{
  using_client, validate_http_client, is_present, object_of, log_entry, settle_log,
}
use lustro_node_agent.Client.Wire.Keeps.{Keeps-log_entry}
use lustro_node_agent.Client.Payload.{payload_text, payload_lang}
use lustro_node_agent.Client.Validate.{as_object}
use lustro_node_agent.Client.Process.{
  result_url, result_bytes, result_body, post, preview, submit, processed_entry,
  classify_and_submit, process_wu, admit,
}
use lustro_node_agent.Client.Process.Admit.{Admitted, admit-returned, admit-Keeps}
use lustro_node_agent.Client.Process.Submitted.{
  Delivered, Delivered-Wrapped, Delivered-AllowsLog, submit-returned, using_client-returned,
}

as_object-ok : (wu : Value) (fields : Fields) → as_object wu ≡ ok fields → wu ≡ dict fields
unfolding as_object
as_object-ok wu fields h = ground arith

module _ (P : Platform) (C : NodeAgentClient) where
  -- What `process_wu` has done when it returns `body`, from the node `s` to the node `t`.
  pub record Processed (wu : Fields) (s t : Node) (body : Fields) : Type 0 where
    pub wu_id : Text
    pub admitted : Admitted P C s wu wu_id
    pub result : Classification
    pub signed : Bytes
    pub url : Text
    pub replay : ReplayStore
    pub classified :
        C.classify (payload_text P (get "payload" wu)) (payload_lang P (get "payload" wu))
        ≡ ok result
    pub bytes_signed : result_bytes P C wu_id result ≡ ok signed
    pub checked : check P C.egress (result_url P C wu_id) ≡ ok url
    pub marked : mark_seen P wu s.replay ≡ returned tt replay
    pub delivered :
        Delivered P C s.sent (post P C url (dict (result_body P C result signed))) wu_id replay t
    pub answer :
        body ≡ set_key "text_preview" (str (preview P C wu)) (result_body P C result signed)
    pub response : Response
    pub log_before : TextFile
    pub logged :
        C.journal (processed_entry P C wu wu_id (result_body P C result signed) response) log_before
        ≡ returned tt t.job_log

  abbrev returned_log : Node → Outcome TextFile (Unit {0})
  returned_log n = returned tt n.job_log

  settle_log-returned :
      (s : Node) (o : Outcome TextFile (Unit {0})) {t : Node}
      → settle_log C s o ≡ returned tt t
      → o ≡ returned tt t.job_log
  settle_log-returned s (returned _ file) h = ap returned_log (ap final h)
  settle_log-returned s (raised e file) h = cc

  log_entry-returned :
      (entry : Fields) (s : Node) {t : Node}
      → log_entry C entry s ≡ returned tt t
      → C.journal entry s.job_log ≡ returned tt t.job_log
  unfolding log_entry
  log_entry-returned entry s h = settle_log-returned s (C.journal entry s.job_log) h

  classify_and_submit-returned :
      (wu : Fields) (wu_id : Text) (http : Option Http) (s : Node) {body : Fields} {t : Node}
      → Admitted P C s wu wu_id
      → classify_and_submit P C wu wu_id http s ≡ returned body t
      → Processed wu s t body
  unfolding classify_and_submit
  classify_and_submit-returned wu wu_id http s {body} {t} admitted e =
      let (r, classified, e₁) =
        settle-returned
          (C.classify (payload_text P (get "payload" wu)) (payload_lang P (get "payload" wu))) s _
          e in
      let (signed, bytes_signed, e₂) = settle-returned (result_bytes P C wu_id r) s _ e₁ in
      let (url, checked, e₃) = settle-returned (check P C.egress (result_url P C wu_id)) s _ e₂ in
      let (_, _, e₄) =
        settle-returned (validate_http_client (is_present C.httpx) (object_of http)) s _ e₃ in
      let q_body = result_body P C r signed in
      let (resp, t₁, sent, e₅) =
        continue-returned (using_client C http (submit P C wu wu_id url q_body) s) _ e₄ in
      let (_, t₂, logged, e₆) =
        continue-returned (log_entry C (processed_entry P C wu wu_id q_body resp) t₁) _ e₅ in
      let w = using_client-returned P C http (submit P C wu wu_id url q_body) s sent in
      let (replay, marked, d) =
        submit-returned P C wu wu_id url q_body w.client w.inner_start w.ran in
      let q = post P C url (dict q_body) in
      let I = Delivered P C s.sent q wu_id replay in
      let ends : I t₁ = Delivered-Wrapped P C w q wu_id replay d in
      let kept =
        (Keeps-log_entry C (Delivered-AllowsLog P C s.sent q wu_id replay)
            (processed_entry P C wu wu_id q_body resp)).at
          t₁ ends in
      record {
        wu_id = wu_id;
        admitted = admitted;
        result = r;
        signed = signed;
        url = url;
        replay = replay;
        classified = classified;
        bytes_signed = bytes_signed;
        checked = checked;
        marked =
            subst (λ (x : ReplayStore). mark_seen P wu x ≡ returned tt replay) w.start_replay
              marked;
        delivered = subst I (ap final logged ∙ ap final e₆) kept;
        answer = sym (returned-injective e₆);
        response = resp;
        log_before = t₁.job_log;
        logged =
            log_entry-returned (processed_entry P C wu wu_id q_body resp) t₁ logged
            ∙ ap returned_log (ap final e₆);
      }

  -- If `process_wu` returns, then the work unit was a well-formed object, not seen before, and signed
  -- by the pinned key; the only new requests are the POST of the result, whose signature is that of
  -- the canonical bytes of this id and this classification, and reports of it; the work unit is
  -- marked as seen; the job log ends with an entry for this id and this classification; and the
  -- returned body is the posted one with the preview.
  pub process_wu-Processed :
      (wu : Value) (http : Option Http) (s : Node) {body : Fields} {t : Node}
      → process_wu P C wu http s ≡ returned body t
      → (fields : Fields) × (wu ≡ dict fields) × Processed fields s t body
  unfolding process_wu
  process_wu-Processed wu http s e =
      let (fields, object, e₁) = settle-returned (as_object wu) s _ e in
      let (wu_id, t, admitted, e₂) = continue-returned (admit P C fields s) _ e₁ in
      let (ready, same) = admit-returned P C fields s admitted in
      (
        fields,
        as_object-ok wu fields object,
        classify_and_submit-returned fields wu_id http s ready (rw (← same) at e₂),
      )

  -- A work unit that makes `process_wu` send anything was a well-formed object, not seen before, and
  -- signed by the pinned key.
  pub process_wu-sends :
      (wu : Value) (http : Option Http) (s : Node)
      → (final (process_wu P C wu http s)).sent ≢ s.sent
      → (fields : Fields) × (wu_id : Text) × (wu ≡ dict fields) × Admitted P C s fields wu_id
  unfolding process_wu
  process_wu-sends wu http s sends = elim (Result-cases (as_object wu)) [
    | inr (e, bad) ↦ absurd (sends (rw bad))
    | inl (fields, object) ↦ elim (Outcome-cases (admit P C fields s)) [
      | inl (wu_id, t, admitted) ↦
          (fields, wu_id, as_object-ok wu fields object, (admit-returned P C fields s admitted).0)
      | inr (e, t, stopped) ↦ absurd (
          sends (
            rw object (
              rw stopped (
                ap (λ (o : Outcome Node Text). (final o).sent) (sym stopped)
                ∙ (admit-Keeps P C {I = λ x. x.sent ≡ s.sent} (λ x file i. i) fields).at s refl))))
    ]
  ]
