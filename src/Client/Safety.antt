-- ===== src/Client/Safety.antt =====
-- The egress guarantee, and the closing of HTTP clients, for `register_agent` and
-- `pull_and_process`. (Those of `process_wu` are in Process/Keeps.)
mod Tests
use lustro_node_agent.Base.{
  ℕ, zero, suc, ◌+◌, ◌≡◌, refl, Option, none, some, arith, ◌==◌, if◌then◌else◌,
}
use lustro_node_agent.Base.Text.{Text, is_empty}
use lustro_node_agent.Base.Value.{Value, Fields, truthy}
use lustro_node_agent.Base.Result.{Exn, Result, ok, err, guard, type_error}
use lustro_node_agent.Base.Exec.{
  Outcome, Exec, returned, raised, final, Keeps, Keeps-bind, Keeps-bind-lift, Keeps-if, Keeps-raise,
  Keeps-pure,
}
use lustro_node_agent.Platform.{Platform}
use lustro_node_agent.Egress.{check}
use lustro_node_agent.Client.{Request, Response, Http, NodeAgentClient, Node}
use lustro_node_agent.Client.Wire.{using_client, validate_http_client, is_present, object_of}
use lustro_node_agent.Client.Wire.Keeps.{
  AllowsLog, AllowsRequest, Keeps-log_entry, Keeps-send, Keeps-using_client,
}
use lustro_node_agent.Client.Process.Activity.{deliver-Keeps}
use lustro_node_agent.Client.Process.Keeps.{
  AllowsChecked, OnlyEdge, OnlyEdge-AllowsChecked, HasOpen, process_wu-Keeps-OnlyEdge,
  process_wu-Keeps-HasOpen,
}
use lustro_node_agent.Client.Process.{process_wu}
use lustro_node_agent.Client.Register.{
  nonce_of, nonce_url, register_url, agent_nonce, attempt_registration, on_failure, register_loop,
  register_agent, registration_body,
}
use lustro_node_agent.Client.Pull.{
  pull_url, streamed_wu, buffered_wu, object_wu, handle_pulled, pull_with, stream_callable,
  pull_and_process,
}

module _ (P : Platform) (C : NodeAgentClient) where
  module _ {I : Node → Type 0} (log : AllowsLog C I) (allows : AllowsChecked P C I) where
    agent_nonce-Keeps : (h : Http) → Keeps I (agent_nonce P C h)
    unfolding agent_nonce
    agent_nonce-Keeps h = Keeps-bind-lift (check P C.egress (nonce_url P C)) _ λ url passed.
        Keeps-bind _ _ (deliver-Keeps P C log h _ (allows _ _ passed)) λ resp.
          Keeps-bind-lift resp.json _ λ answer _.
            Keeps-bind-lift (nonce_of answer) _
              λ nonce _. Keeps-if (truthy nonce) _ _ (Keeps-pure nonce) (Keeps-raise _)

    pub attempt_registration-Keeps :
        (url invite_token : Text) (body : Fields) (h : Http)
        → check P C.egress (register_url P C) ≡ ok url
        → Keeps I (attempt_registration P C url invite_token body h)
    unfolding attempt_registration
    attempt_registration-Keeps url invite_token body h passed =
        Keeps-if (is_empty invite_token) _ _
          (Keeps-bind _ _ (agent_nonce-Keeps h) λ nonce.
            Keeps-bind _ _ (deliver-Keeps P C log h _ (allows _ _ passed)) (λ _. Keeps-pure tt))
          (Keeps-bind _ _ (deliver-Keeps P C log h _ (allows _ _ passed)) (λ _. Keeps-pure tt))

    pub pull_with-Keeps :
        (url : Text) (h : Http)
        → check P C.egress (pull_url P C) ≡ ok url
        → ((wu : Value) → Keeps I (process_wu P C wu (some h)))
        → Keeps I (pull_with P C url h)
    unfolding pull_with handle_pulled
    pull_with-Keeps url h passed processes =
        Keeps-bind-lift (guard (stream_callable h.object) type_error) _ λ _ _.
          Keeps-bind _ _ (Keeps-send C h _ (allows _ _ passed)) λ resp.
            Keeps-if (resp.status == 204) _ _
              (Keeps-bind _ _ (Keeps-log_entry C log _) (λ _. Keeps-pure none))
              (Keeps-bind-lift
                (if h.object.has_attr "stream" then streamed_wu P resp else buffered_wu P resp) _
                λ wu _.
                  Keeps-bind-lift (object_wu P wu) _
                    λ fields _. Keeps-bind _ _ (processes fields) (λ body. Keeps-pure (some body)))

  on_failure-Keeps :
      {I : Node → Type 0} (handler : Exn → Exec Node (Unit {0}))
      → ((e : Exn) → Keeps I (handler e))
      → (o : Outcome Node (Unit {0})) → I (final o)
      → I (final (on_failure P C handler o))
  on_failure-Keeps handler handles (returned a t) i = i
  on_failure-Keeps handler handles (raised e t) i = (handles e).at t i

  module _ {I : Node → Type 0} (url invite_token : Text) (body : Fields) (http : Option Http) where
    register_loop-Keeps :
        (rounds : ℕ)
        → Keeps I (using_client C http (attempt_registration P C url invite_token body))
        → Keeps I (register_loop P C rounds url invite_token body http)
    unfolding register_loop
    register_loop-Keeps zero tries = tries
    register_loop-Keeps (suc rounds) tries =
        let rest = register_loop-Keeps rounds tries in
        record {
          at = λ s i.
              on_failure-Keeps (λ e. register_loop P C rounds url invite_token body http)
                (λ e. rest) (using_client C http (attempt_registration P C url invite_token body) s)
                (tries.at s i);
        }

  module _ {I : Node → Type 0} (log : AllowsLog C I) (http : Option Http) where
    pub register_agent-Keeps :
        (invite_token : Text)
        → ((url : Text)
            → check P C.egress (register_url P C) ≡ ok url
            → Keeps I (
                using_client C http
                  (attempt_registration P C url invite_token (registration_body P C))))
        → Keeps I (register_agent P C http invite_token)
    unfolding register_agent
    register_agent-Keeps invite_token tries =
        Keeps-bind-lift (check P C.egress (register_url P C)) _ λ url passed.
          Keeps-bind-lift (validate_http_client (is_present C.httpx) (object_of http)) _ λ _ _.
            Keeps-bind _ _
              (register_loop-Keeps url invite_token (registration_body P C) http 2
                (tries url passed))
              (λ _. Keeps-log_entry C log _)

    pub pull_and_process-Keeps :
        ((url : Text)
          → check P C.egress (pull_url P C) ≡ ok url
          → Keeps I (using_client C http (pull_with P C url)))
        → Keeps I (pull_and_process P C http)
    unfolding pull_and_process
    pull_and_process-Keeps pulls = Keeps-bind-lift (check P C.egress (pull_url P C)) _ λ url passed.
        Keeps-bind-lift (validate_http_client (is_present C.httpx) (object_of http)) _
          λ _ _. pulls url passed

  -- If all requests so far went to the guard's scheme and host and to a port that fits, then so do
  -- all requests after `register_agent`, on every path through its attempts.
  pub register_agent-OnlyEdge :
      (http : Option Http) (invite_token : Text) (s : Node)
      → OnlyEdge P C s
      → OnlyEdge P C (final (register_agent P C http invite_token s))
  register_agent-OnlyEdge http invite_token s =
      (register_agent-Keeps {I = OnlyEdge P C} (λ s file i. i) http invite_token
          λ url passed.
            let k = λ (h : Http).
              attempt_registration-Keeps (λ s file i. i) (OnlyEdge-AllowsChecked P C) url
                invite_token (registration_body P C) h passed in
            Keeps-using_client C (OnlyEdge P C) http _ (λ s i. i) (λ s i. i) k k).at
        s

  -- If all requests so far went to the guard's scheme and host and to a port that fits, then so do
  -- all requests after `pull_and_process`, whatever the edge answers.
  pub pull_and_process-OnlyEdge :
      (http : Option Http) (s : Node)
      → OnlyEdge P C s
      → OnlyEdge P C (final (pull_and_process P C http s))
  pull_and_process-OnlyEdge http s =
      (pull_and_process-Keeps {I = OnlyEdge P C} (λ s file i. i) http
          λ url passed.
            let k = λ (h : Http).
              pull_with-Keeps (λ s file i. i) (OnlyEdge-AllowsChecked P C) url h passed
                (λ wu. process_wu-Keeps-OnlyEdge P C wu (some h)) in
            Keeps-using_client C (OnlyEdge P C) http _ (λ s i. i) (λ s i. i) k k).at
        s

  attempt_registration-HasOpen :
      (n : ℕ) (url invite_token : Text) (body : Fields) (h : Http)
      → check P C.egress (register_url P C) ≡ ok url
      → Keeps (HasOpen P C n) (attempt_registration P C url invite_token body h)
  attempt_registration-HasOpen n =
      attempt_registration-Keeps (λ s file i. i) (λ q url passed s i. i)

  pull_with-HasOpen :
      (n : ℕ) (url : Text) (h : Http)
      → check P C.egress (pull_url P C) ≡ ok url
      → Keeps (HasOpen P C n) (pull_with P C url h)
  pull_with-HasOpen n url h passed =
      pull_with-Keeps (λ s file i. i) (λ q url passed s i. i) url h passed
        (λ wu. process_wu-Keeps-HasOpen P C n wu (some h))

  -- Every HTTP client that `register_agent` opens it closes, whether it returns or raises.
  pub register_agent-open_clients :
      (http : Option Http) (invite_token : Text) (s : Node)
      → (final (register_agent P C http invite_token s)).open_clients ≡ s.open_clients
  register_agent-open_clients http invite_token s =
      let n = s.open_clients in
      (register_agent-Keeps {I = HasOpen P C n} (λ s file i. i) http invite_token
          λ url passed.
            Keeps-using_client C (HasOpen P C (n + 1)) http _ (λ s i. omega arith)
              (λ s i. omega arith) (λ h. attempt_registration-HasOpen n url invite_token _ h passed)
              (λ h. attempt_registration-HasOpen (n + 1) url invite_token _ h passed)).at
        s refl

  -- Every HTTP client that `pull_and_process` opens it closes, whether it returns or raises.
  pub pull_and_process-open_clients :
      (http : Option Http) (s : Node)
      → (final (pull_and_process P C http s)).open_clients ≡ s.open_clients
  pull_and_process-open_clients http s =
      let n = s.open_clients in
      (pull_and_process-Keeps {I = HasOpen P C n} (λ s file i. i) http
          λ url passed.
            Keeps-using_client C (HasOpen P C (n + 1)) http _ (λ s i. omega arith)
              (λ s i. omega arith) (λ h. pull_with-HasOpen n url h passed)
              (λ h. pull_with-HasOpen (n + 1) url h passed)).at
        s refl
