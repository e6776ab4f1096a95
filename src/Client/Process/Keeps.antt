-- ===== src/Client/Process/Keeps.antt =====
-- The invariants that `process_wu` keeps on every path, the exceptions included.
use lustro_node_agent.Base.{◌≡◌, refl, ℕ, Option, [], ◌∷◌, ◌+◌, arith, All, All-append}
use lustro_node_agent.Base.Text.{Text}
use lustro_node_agent.Base.Value.{Value, Fields, get}
use lustro_node_agent.Base.Result.{ok}
use lustro_node_agent.Base.Exec.{
  returned, raised, final, Keeps, Keeps-bind, Keeps-lift, Keeps-bind-lift, Keeps-pure,
}
use lustro_node_agent.Platform.{Platform}
use lustro_node_agent.Egress.{check}
use lustro_node_agent.Egress.Check.{Reaches, check_iff}
use lustro_node_agent.Seen.{mark_seen}
use lustro_node_agent.Client.{Request, Http, NodeAgentClient, Node}
use lustro_node_agent.Client.Wire.{using_client, validate_http_client, is_present, object_of}
use lustro_node_agent.Client.Wire.Keeps.{
  AllowsLog, AllowsRequest, Keeps-log_entry, Keeps-using_client,
}
use lustro_node_agent.Client.Payload.{payload_text, payload_lang}
use lustro_node_agent.Client.Process.{
  result_url, result_bytes, mark_processed, settle_replay, submit, classify_and_submit, process_wu,
}
use lustro_node_agent.Client.Process.Admit.{admit-Keeps}
use lustro_node_agent.Client.Process.Activity.{deliver-Keeps, report_activity-Keeps}

-- To mark a work unit as seen keeps `I`, also where that raises.
abbrev pub AllowsMark : Platform → (Node → Type 0) → Type 0
AllowsMark P I =
    (wu : Fields) (s : Node) → I s → I (record s { replay = final (mark_seen P wu s.replay) })

module _ (P : Platform) (C : NodeAgentClient) where
  -- A request to a URL that passed the egress check keeps `I`.
  abbrev pub AllowsChecked : (Node → Type 0) → Type 0
  AllowsChecked I = (q : Request) (url : Text) → check P C.egress url ≡ ok q.url → AllowsRequest I q

  module _ {I : Node → Type 0} (log : AllowsLog C I) (marks : AllowsMark P I) where
    mark_processed-Keeps : (wu : Fields) → Keeps I (mark_processed P C wu)
    unfolding mark_processed
    mark_processed-Keeps wu = record {
      at = λ s i.
          elim (mark_seen P wu s.replay)
              as (λ o. I (record s { replay = final o }) → I (final (settle_replay P C s o))) [
                | returned _ r ↦ λ k. k
                | raised e r ↦ λ k. k
              ]
            (marks wu s i);
    }

    pub submit-Keeps :
        AllowsChecked I
        → (wu : Fields) (wu_id url : Text) (body : Fields) (h : Http)
        → check P C.egress (result_url P C wu_id) ≡ ok url
        → Keeps I (submit P C wu wu_id url body h)
    unfolding submit
    submit-Keeps allows wu wu_id url body h passed =
        Keeps-bind _ _ (deliver-Keeps P C log h _ (allows _ _ passed)) λ r.
          Keeps-bind _ _ (mark_processed-Keeps wu) λ _.
            Keeps-bind _ _ (report_activity-Keeps P C log wu_id h (λ to reach. allows _ _ reach))
              (λ _. Keeps-pure r)

  -- The part of `process_wu` that owns the client keeps `I`.
  abbrev pub SubmitKeeps : (Node → Type 0) → Option Http → Type 0
  SubmitKeeps I http =
      (wu : Fields) (wu_id url : Text) (body : Fields)
      → check P C.egress (result_url P C wu_id) ≡ ok url
      → Keeps I (using_client C http (submit P C wu wu_id url body))

  module _ {I : Node → Type 0} (log : AllowsLog C I) (http : Option Http) where
    classify_and_submit-Keeps :
        SubmitKeeps I http
        → (wu : Fields) (wu_id : Text) → Keeps I (classify_and_submit P C wu wu_id http)
    unfolding classify_and_submit
    classify_and_submit-Keeps submits wu wu_id =
        Keeps-bind-lift
          (C.classify (payload_text P (get "payload" wu)) (payload_lang P (get "payload" wu))) _
          λ r _. Keeps-bind-lift (result_bytes P C wu_id r) _ λ signed _.
            Keeps-bind-lift (check P C.egress (result_url P C wu_id)) _ λ url passed.
              Keeps-bind-lift (validate_http_client (is_present C.httpx) (object_of http)) _ λ _ _.
                Keeps-bind _ _ (submits wu wu_id url _ passed)
                  λ resp. Keeps-bind _ _ (Keeps-log_entry C log _) (λ _. Keeps-pure _)

    pub process_wu-Keeps : SubmitKeeps I http → (wu : Value) → Keeps I (process_wu P C wu http)
    unfolding process_wu
    process_wu-Keeps submits wu = Keeps-bind _ _ (Keeps-lift _) λ fields.
        Keeps-bind _ _ (admit-Keeps P C log fields)
          (λ wu_id. classify_and_submit-Keeps submits fields wu_id)

  -- Every request so far went to the allowed scheme, host and port.
  abbrev pub OnlyEdge : Node → Type 0
  OnlyEdge s = All (λ q. Reaches P C.egress q.url) s.sent

  pub OnlyEdge-AllowsChecked : AllowsChecked OnlyEdge
  OnlyEdge-AllowsChecked q url passed s sent =
      let (reaches, same) = (check_iff P C.egress url q.url).0 passed in
      All-append (λ q. Reaches P C.egress q.url) s.sent (q ∷ []) sent (rw same reaches, tt)

  pub process_wu-Keeps-OnlyEdge :
      (wu : Value) (http : Option Http) → Keeps OnlyEdge (process_wu P C wu http)
  process_wu-Keeps-OnlyEdge wu http =
      let submits = submit-Keeps (λ s file i. i) (λ s r i. i) OnlyEdge-AllowsChecked in
      process_wu-Keeps (λ s file i. i) http
        (λ fields wu_id url body passed.
          let k = λ (h : Http). submits fields wu_id url body h passed in
          Keeps-using_client C OnlyEdge http _ (λ s i. i) (λ s i. i) k k)
        wu

  -- Whatever the work unit and the network do, and whether it returns or raises: if all requests so
  -- far went to URLs that parse to the guard's scheme and host and to a port that fits, then so do
  -- all requests after `process_wu`.
  pub process_wu-OnlyEdge :
      (wu : Value) (http : Option Http) (s : Node)
      → OnlyEdge s
      → OnlyEdge (final (process_wu P C wu http s))
  process_wu-OnlyEdge wu http s = (process_wu-Keeps-OnlyEdge wu http).at s

  abbrev pub HasOpen : ℕ → Node → Type 0
  HasOpen n s = s.open_clients ≡ n

  submit-HasOpen :
      (n : ℕ) (wu : Fields) (wu_id url : Text) (body : Fields) (h : Http)
      → check P C.egress (result_url P C wu_id) ≡ ok url
      → Keeps (HasOpen n) (submit P C wu wu_id url body h)
  submit-HasOpen n = submit-Keeps (λ s file i. i) (λ s r i. i) (λ q url passed s i. i)

  pub process_wu-Keeps-HasOpen :
      (n : ℕ) (wu : Value) (http : Option Http) → Keeps (HasOpen n) (process_wu P C wu http)
  process_wu-Keeps-HasOpen n wu http =
      process_wu-Keeps (λ s file i. i) http
        (λ fields wu_id url body passed.
          Keeps-using_client C (HasOpen (n + 1)) http _ (λ s i. omega arith) (λ s i. omega arith)
            (λ h. submit-HasOpen n fields wu_id url body h passed)
            (λ h. submit-HasOpen (n + 1) fields wu_id url body h passed))
        wu

  -- Every HTTP client that `process_wu` opens it closes, whether it returns or raises.
  pub process_wu-open_clients :
      (wu : Value) (http : Option Http) (s : Node)
      → (final (process_wu P C wu http s)).open_clients ≡ s.open_clients
  process_wu-open_clients wu http s = (process_wu-Keeps-HasOpen s.open_clients wu http).at s refl
