-- ===== src/Client/Pull.antt =====
-- `pull_and_process`.
pub mod Bounds
use lustro_node_agent.Base.{
  ℕ, ◌+◌, ◌*◌, String, Bool, true, false, not, ◌||◌, ◌&&◌, Option, none, some, List, [], ◌∷◌, ◌++◌,
  ltb, ◌==◌, length, if◌then◌else◌,
}
use lustro_node_agent.Base.Text.{Text, Bytes, text, utf8}
use lustro_node_agent.Base.Value.{Value, Fields, str, dict, field, end}
use lustro_node_agent.Base.Result.{
  Exn, Result, ok, err, or_raise, core_pin_error, response_too_large, response_not_json,
  response_not_object, unicode_error, type_error, guard,
}
use lustro_node_agent.Base.Exec.{Outcome, Exec, returned, raised, pure, raise, lift, ◌>>=◌, ◌>>◌}
use lustro_node_agent.Platform.{Platform}
use lustro_node_agent.Egress.{check}
use lustro_node_agent.Client.{Request, Response, PyObject, Http, http_get, NodeAgentClient, Node}
use lustro_node_agent.Client.Wire.{
  validate_http_client, is_present, object_of, log_entry, send, using_client,
}
use lustro_node_agent.Client.Process.{process_wu}

abbrev pub max_wu_response_bytes : ℕ
max_wu_response_bytes = 1048576

-- The loop over `resp.iter_bytes()`: `body` is what was read so far. The size is tested before a
-- chunk is added; an exception of the stream ends the loop.
unfoldable pub read_chunks : Bytes → List Bytes → Option Exn → Result Bytes
read_chunks body [] none = ok body
read_chunks body [] (some e) = err e
read_chunks body (chunk ∷ more) fault =
    let rest = read_chunks (body ++ chunk) more fault in
    if ltb max_wu_response_bytes (length body + length chunk)
    then err (core_pin_error response_too_large)
    else rest

-- A `stream` that is there is called, also where it is `None`, which is no function.
unfoldable pub stream_callable : PyObject → Bool
stream_callable o =
    not (o.has_attr "stream") || (not (o.is_none "stream") && o.is_callable "stream")

module _ (P : Platform) where
  unfoldable pub parse_wu : Text → Result Value
  parse_wu t = or_raise (P.loads t) (core_pin_error response_not_json)

  -- The streamed body. A body that is not UTF-8 raises `UnicodeDecodeError`.
  unfoldable pub streamed_wu : Response → Result Value
  unfolding read_chunks parse_wu
  streamed_wu resp =
      let body = read_chunks [] resp.chunks resp.fault in
      elim body [
        | err e ↦ err e
        | ok b ↦ elim (P.utf8_decode b) [ none ↦ err unicode_error | some t ↦ parse_wu t ]
      ]

  -- The body of a client without `stream`.
  unfoldable pub buffered_wu : Response → Result Value
  unfolding parse_wu
  buffered_wu resp = elim (utf8 resp.body_text) [
    | none ↦ err unicode_error
    | some b ↦
        if ltb max_wu_response_bytes (length b)
        then err (core_pin_error response_too_large)
        else parse_wu resp.body_text
  ]

  unfoldable pub object_wu : Value → Result Value
  object_wu (dict fs) = ok (dict fs)
  object_wu _ = err (core_pin_error response_not_object)

  module _ (C : NodeAgentClient) where
    unfoldable pub pull_url : Text
    pull_url = C.egress.allowed_base_url ++ text "/v1/wu"

    abbrev pub pull_request : Text → Request
    pull_request url = record { method = http_get; url = url; json = none; authorization = none }

    -- From the response on: `none` is the `None` of a 204.
    unfoldable pub handle_pulled : Http → Response → Exec Node (Option Fields)
    unfolding streamed_wu buffered_wu object_wu
    handle_pulled h resp =
        if resp.status == 204
        then (do log_entry C (field "event" (str (text "no_work")) end); pure none)
        else (do
          wu ← lift (if h.object.has_attr "stream" then streamed_wu resp else buffered_wu resp)
          fields ← lift (object_wu wu)
          body ← process_wu P C fields (some h)
          pure (some body))

    unfoldable pub pull_with : Text → Http → Exec Node (Option Fields)
    pull_with url h = do
      lift (guard (stream_callable h.object) type_error)
      resp ← send C h (pull_request url)
      handle_pulled h resp

    -- `pull_and_process`
    unfoldable pub pull_and_process : Option Http → Exec Node (Option Fields)
    pull_and_process http = do
      url ← lift (check P C.egress pull_url)
      lift (validate_http_client (is_present C.httpx) (object_of http))
      using_client C http (pull_with url)
