-- ===== src/Client/Process.antt =====
-- `process_wu` and `_report_activity`.
pub mod Admit
pub mod Activity
pub mod Keeps
pub mod Submitted
pub mod Processed
pub mod Replay
pub mod Lasting
use lustro_node_agent.Base.{
  ℕ, pos, String, Bool, true, false, Option, none, some, List, [], ◌∷◌, ◌++◌, take, if◌then◌else◌,
}
use lustro_node_agent.Base.Text.{Text, Bytes, text, utf8, is_empty}
use lustro_node_agent.Base.Value.{
  Value, Fields, nil, cons, int, float, str, list, dict, field, end, get, set_key,
}
use lustro_node_agent.Base.Result.{Exn, Result, ok, err, or_raise, replay_error, unicode_error}
use lustro_node_agent.Base.Exec.{Outcome, Exec, returned, raised, pure, raise, lift, ◌>>=◌, ◌>>◌}
use lustro_node_agent.Platform.{Platform}
use lustro_node_agent.Egress.{check}
use lustro_node_agent.CorePin.{verify_wu_signature}
use lustro_node_agent.Seen.{ReplayStore, seen, mark_seen}
use lustro_node_agent.Client.{
  Request, Response, Http, http_post, Classification, NodeAgentClient, Node,
}
use lustro_node_agent.Client.Wire.{
  validate_http_client, attempt, is_transport_error, is_present, object_of, log_entry, send,
  raise_for_status, using_client,
}
use lustro_node_agent.Client.Payload.{payload_text, payload_lang}
use lustro_node_agent.Client.Validate.{
  as_object, validate_fields, canonical_wu_bytes, decode_core_sig, key_id_of,
}

abbrev pub text_preview_len : ℕ
text_preview_len = 200

-- `signed_payload`
abbrev pub result_value : Text → Classification → Value
result_value wu_id r = dict (
    field "wu_id" (str wu_id)
      (field "labels" (list (cons (str r.label) nil)) (field "score" (float r.score) end)))

module _ (P : Platform) (C : NodeAgentClient) where
  -- `result_bytes`
  unfoldable pub result_bytes : Text → Classification → Result Bytes
  result_bytes wu_id r = or_raise (utf8 (P.dumps_canonical (result_value wu_id r))) unicode_error

  -- `body`
  unfoldable pub result_body : Classification → Bytes → Fields
  result_body r signed = field "labels" (list (cons (str r.label) nil)) (
      field "score" (float r.score) (
        field "agent_pubkey" (str C.public_key_raw_b64)
          (field "agent_sig" (str (P.b64encode (C.sign signed))) end)))

  abbrev pub edge : Text
  edge = C.egress.allowed_base_url

  unfoldable pub result_url : Text → Text
  result_url wu_id = edge ++ (text "/v1/wu/" ++ (wu_id ++ text "/result"))

  unfoldable pub activity_url : Text
  activity_url = edge ++ text "/elfik/node/activity"

  abbrev pub post : Text → Value → Request
  post url body = record { method = http_post; url = url; json = some body; authorization = none }

  abbrev pub log_event : String → Text → Fields → Exec Node (Unit {0})
  log_event name wu_id more =
      log_entry C (field "event" (str (text name)) (field "wu_id" (str wu_id) more))

  -- The request of `_report_activity`
  abbrev pub activity_request : Text → Text → Request
  activity_request url wu_id = record {
    method = http_post;
    url = url;
    json =
        some
          (dict (field "wu_id" (str wu_id) (field "agent_pubkey" (str C.public_key_raw_b64) end)));
    authorization = some (text "Bearer " ++ C.participant_token);
  }

  -- Its `except` clause, and what follows the `try`.
  unfoldable pub activity_outcome : Text → Result (Unit {0}) → Exec Node (Unit {0})
  activity_outcome wu_id (ok _) = log_event "activity_synced" wu_id end
  activity_outcome wu_id (err e) =
      if is_transport_error (is_present C.httpx) e
      then log_event "activity_sync_failed" wu_id (field "error" (str (C.exn_name e)) end)
      else raise e

  abbrev pub deliver : Http → Request → Exec Node Response
  deliver h q = do resp ← send C h q; raise_for_status C h resp; pure resp

  -- `_report_activity`
  unfoldable pub report_activity : Text → Http → Exec Node (Unit {0})
  unfolding activity_outcome
  report_activity wu_id h = if is_empty C.participant_token then pure tt else do
    url ← lift (check P C.egress activity_url)
    sent ← attempt (do deliver h (activity_request url wu_id); pure tt)
    activity_outcome wu_id sent

  -- `self._seen(wu)`
  unfoldable pub is_seen : Fields → Exec Node Bool
  is_seen wu s = lift (seen P s.replay.memory wu) s

  abbrev settle_replay : Node → Outcome ReplayStore (Unit {0}) → Outcome Node (Unit {0})
  settle_replay s (returned _ r) = returned tt (record s { replay = r })
  settle_replay s (raised e r) = raised e (record s { replay = r })

  -- `self._mark_seen(wu)`
  unfoldable pub mark_processed : Fields → Exec Node (Unit {0})
  mark_processed wu s = settle_replay s (mark_seen P wu s.replay)

  unfoldable pub reject_replay : Text → Bool → Exec Node (Unit {0})
  reject_replay wu_id false = pure tt
  reject_replay wu_id true = do log_event "replay_rejected" wu_id end; raise (replay_error wu_id)

  -- The signature check of `process_wu`
  unfoldable pub verify_core : Fields → Exec Node (Unit {0})
  verify_core wu = do
    core_sig ← lift (decode_core_sig P wu)
    signed ← lift (canonical_wu_bytes P wu)
    lift (verify_wu_signature P C.pinned_constant C.environ signed core_sig (key_id_of wu))

  -- All of `process_wu` up to the classifier: it gives the work unit's id.
  unfoldable pub admit : Fields → Exec Node Text
  unfolding reject_replay
  admit wu = do
    wu_id ← lift (validate_fields wu)
    replayed ← is_seen wu
    reject_replay wu_id replayed
    verify_core wu
    pure wu_id

  -- The `try` of `process_wu`: the POST, the anti-replay mark, and the report.
  unfoldable pub submit : Fields → Text → Text → Fields → Http → Exec Node Response
  submit wu wu_id url body h = do
    resp ← deliver h (post url (dict body))
    mark_processed wu
    report_activity wu_id h
    pure resp

  abbrev pub preview : Fields → Text
  preview wu = take text_preview_len (payload_text P (get "payload" wu))

  -- The `wu_processed` entry of the job log.
  unfoldable pub processed_entry : Fields → Text → Fields → Response → Fields
  processed_entry wu wu_id body resp = field "event" (str (text "wu_processed")) (
      field "wu_id" (str wu_id) (
        field "labels" (get "labels" body) (
          field "score" (get "score" body) (
            field "status" (int (pos resp.status)) (field "text_preview" (str (preview wu)) end)))))

  -- `process_wu` from the classifier on
  unfoldable pub classify_and_submit : Fields → Text → Option Http → Exec Node Fields
  classify_and_submit wu wu_id http = do
    result ←
        lift (C.classify (payload_text P (get "payload" wu)) (payload_lang P (get "payload" wu)))
    signed ← lift (result_bytes wu_id result)
    let body = result_body result signed
    url ← lift (check P C.egress (result_url wu_id))
    lift (validate_http_client (is_present C.httpx) (object_of http))
    resp ← using_client C http (submit wu wu_id url body)
    log_entry C (processed_entry wu wu_id body resp)
    pure (set_key "text_preview" (str (preview wu)) body)

  -- `process_wu`
  unfoldable pub process_wu : Value → Option Http → Exec Node Fields
  process_wu wu http = do
    fields ← lift (as_object wu)
    wu_id ← admit fields
    classify_and_submit fields wu_id http
