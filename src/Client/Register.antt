-- ===== src/Client/Register.antt =====
-- `register_agent`: at most three attempts, each over a client that a failure closes.
pub mod Attempts
use lustro_node_agent.Base.{ℕ, zero, suc, Option, none, [], ◌++◌, if◌then◌else◌}
use lustro_node_agent.Base.Text.{Text, text, is_empty}
use lustro_node_agent.Base.Value.{
  Value, Fields, str, dict, field, end, get, has_key, set_key, truthy,
}
use lustro_node_agent.Base.Result.{Exn, Result, ok, err, runtime_error, attribute_error}
use lustro_node_agent.Base.Exec.{Outcome, Exec, returned, raised, pure, raise, lift, ◌>>=◌, ◌>>◌}
use lustro_node_agent.Platform.{Platform}
use lustro_node_agent.Egress.{check}
use lustro_node_agent.Client.{Request, Http, http_get, NodeAgentClient, Node}
use lustro_node_agent.Client.Wire.{
  validate_http_client, is_present, object_of, log_entry, using_client,
}
use lustro_node_agent.Client.Process.{deliver, post}

abbrev pub max_registration_attempts : ℕ
max_registration_attempts = 3

-- `nonce_resp.json().get("nonce", "")`: a value that is not an object has no `get`.
unfoldable pub nonce_of : Value → Result Value
nonce_of (dict fs) = ok (if has_key "nonce" fs then get "nonce" fs else str [])
nonce_of _ = err attribute_error

module _ (P : Platform) (C : NodeAgentClient) where
  unfoldable pub register_url : Text
  register_url = C.egress.allowed_base_url ++ text "/v1/wu/register-agent"

  unfoldable pub nonce_url : Text
  nonce_url = C.egress.allowed_base_url ++ text "/v1/wu/agent-nonce"

  abbrev pub get_request : Text → Request
  get_request url = record { method = http_get; url = url; json = none; authorization = none }

  -- The `else` branch: the one-time nonce that the core minted.
  unfoldable pub agent_nonce : Http → Exec Node Value
  unfolding nonce_of
  agent_nonce h = do
    url ← lift (check P C.egress nonce_url)
    resp ← deliver P C h (get_request url)
    answer ← lift resp.json
    nonce ← lift (nonce_of answer)
    if truthy nonce then pure nonce else raise runtime_error

  -- The `try` of one attempt. `body` is kept from one attempt to the next, with the fields that were
  -- set; each attempt sets one of them anew.
  unfoldable pub attempt_registration : Text → Text → Fields → Http → Exec Node (Unit {0})
  unfolding agent_nonce
  attempt_registration url invite_token body h =
      if is_empty invite_token
      then (do
        nonce ← agent_nonce h
        deliver P C h (post P C url (dict (set_key "agent_nonce" nonce body)))
        pure tt)
      else (do
        deliver P C h (post P C url (dict (set_key "invite_token" (str invite_token) body)))
        pure tt)

  abbrev pub on_failure :
      (Exn → Exec Node (Unit {0})) → Outcome Node (Unit {0}) → Outcome Node (Unit {0})
  on_failure handler (returned a s) = returned a s
  on_failure handler (raised e s) = handler e s

  -- The loop with `rounds` attempts after this one: an exception of the last attempt is raised. An
  -- owned client is closed after every attempt, by the handler or behind the loop.
  unfoldable pub register_loop : ℕ → Text → Text → Fields → Option Http → Exec Node (Unit {0})
  unfolding attempt_registration
  register_loop zero url invite_token body http s =
      using_client C http (attempt_registration url invite_token body) s
  register_loop (suc rounds) url invite_token body http s =
      on_failure (λ e t. register_loop rounds url invite_token body http t)
        (using_client C http (attempt_registration url invite_token body) s)

  abbrev pub registration_body : Fields
  registration_body = field "agent_pubkey" (str C.public_key_raw_b64) end

  -- `register_agent`
  unfoldable pub register_agent : Option Http → Text → Exec Node (Unit {0})
  unfolding register_loop
  register_agent http invite_token = do
    url ← lift (check P C.egress register_url)
    lift (validate_http_client (is_present C.httpx) (object_of http))
    register_loop 2 url invite_token registration_body http
    log_entry C (
        field "event" (str (text "agent_registered"))
          (field "agent_pubkey" (str C.public_key_raw_b64) end))
