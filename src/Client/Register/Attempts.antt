-- ===== src/Client/Register/Attempts.antt =====
-- How many requests `register_agent` makes.
use lustro_node_agent.Base.{
  ℕ, zero, suc, ◌+◌, ◌*◌, ◌≤◌, ◌≡◌, refl, Bool, true, false, Option, none, some, List, [], ◌∷◌,
  ◌++◌, length, length-append, arith, if◌then◌else◌,
}
use lustro_node_agent.Base.Text.{Text, is_empty}
use lustro_node_agent.Base.Value.{Fields, truthy}
use lustro_node_agent.Base.Result.{Exn, Result, ok, err, attribute_error}
use lustro_node_agent.Base.Exec.{
  Outcome, Exec, returned, raised, final, continue, pure, lift, Keeps, ◌>>=◌,
}
use lustro_node_agent.Platform.{Platform}
use lustro_node_agent.Egress.{check}
use lustro_node_agent.Client.{Request, Reply, Http, answered, failed, NodeAgentClient, Node}
use lustro_node_agent.Client.Wire.{
  send, settle_reply, closed, using_client, validate_http_client, is_present, object_of,
}
use lustro_node_agent.Client.Wire.Keeps.{Keeps-log_entry, Keeps-raise_for_status}
use lustro_node_agent.Client.Process.{deliver}
use lustro_node_agent.Client.Register.{
  nonce_of, nonce_url, register_url, agent_nonce, attempt_registration, on_failure, register_loop,
  register_agent, registration_body,
}

-- `m` makes at most `k` requests, whether it returns or raises.
record Makes {A : Type 0} (k : ℕ) (m : Exec Node A) : Type 0 where
  at : (s : Node) → length (final (m s)).sent ≤ length s.sent + k

Makes-of_Keeps :
    {A : Type 0} (m : Exec Node A) → ((l : List Request) → Keeps (λ t. t.sent ≡ l) m) → Makes 0 m
Makes-of_Keeps m keeps = record { at = λ s. rw ((keeps s.sent).at s refl) (omega arith) }

module _ {A B : Type 0} where
  continue_bound :
      (n k : ℕ) (o : Outcome Node A) (f : A → Exec Node B)
      → length (final o).sent ≤ n
      → ((a : A) → Makes k (f a))
      → length (final (continue o f)).sent ≤ n + k
  continue_bound n k (returned a t) f first rest = omega (arith, first, (rest a).at t)
  continue_bound n k (raised e t) f first rest = omega (arith, first)

  Makes-bind :
      (j k : ℕ) (m : Exec Node A) (f : A → Exec Node B)
      → Makes j m
      → ((a : A) → Makes k (f a))
      → Makes (j + k) (m >>= f)
  Makes-bind j k m f first rest = record {
    at = λ s. omega (arith, continue_bound (length s.sent + j) k (m s) f (first.at s) rest);
  }

  Makes-bind-lift :
      (k : ℕ) (r : Result A) (f : A → Exec Node B)
      → ((a : A) → Makes k (f a))
      → Makes k (lift r >>= f)
  Makes-bind-lift k (ok a) f rest = rest a
  Makes-bind-lift k (err e) f rest = record { at = λ s. omega arith }

Makes-pure : {A : Type 0} (k : ℕ) (a : A) → Makes k (pure a)
Makes-pure k a = record { at = λ s. omega arith }

Makes-if :
    {A : Type 0} (k : ℕ) (b : Bool) (m n : Exec Node A)
    → Makes k m
    → Makes k n
    → Makes k (if b then m else n)
Makes-if k true m n first second = first
Makes-if k false m n first second = second

module _ (P : Platform) (C : NodeAgentClient) where
  final-settle_reply : (t : Node) (o : Reply) → final (settle_reply C t o) ≡ t
  final-settle_reply t (answered r) = refl
  final-settle_reply t (failed e) = refl

  send-Makes : (h : Http) (q : Request) → Makes 1 (send C h q)
  unfolding send
  send-Makes h q = record {
    at = λ s.
        rw (final-settle_reply (record s { sent = s.sent ++ q ∷ [] }) (h.reply s.sent q))
          (omega (arith, length-append s.sent (q ∷ [])));
  }

  deliver-Makes : (h : Http) (q : Request) → Makes 1 (deliver P C h q)
  deliver-Makes h q = Makes-bind 1 0 _ _ (send-Makes h q) λ r.
      Makes-bind 0 0 _ _ (Makes-of_Keeps _ (λ l. Keeps-raise_for_status C h r))
        (λ _. Makes-pure 0 r)

  agent_nonce-Makes : (h : Http) → Makes 1 (agent_nonce P C h)
  unfolding agent_nonce
  agent_nonce-Makes h = Makes-bind-lift 1 (check P C.egress (nonce_url P C)) _ λ url.
      Makes-bind 1 0 _ _ (deliver-Makes h _) λ resp. Makes-bind-lift 0 resp.json _ λ answer.
        Makes-bind-lift 0 (nonce_of answer) _ λ nonce.
          Makes-if 0 (truthy nonce) _ _ (Makes-pure 0 nonce) (record { at = λ s. omega arith })

  attempt_registration-Makes :
      (url invite_token : Text) (body : Fields) (h : Http)
      → Makes 2 (attempt_registration P C url invite_token body h)
  unfolding attempt_registration
  attempt_registration-Makes url invite_token body h =
      Makes-if 2 (is_empty invite_token) _ _
        (Makes-bind 1 1 _ _ (agent_nonce-Makes h)
          λ nonce. Makes-bind 1 0 _ _ (deliver-Makes h _) (λ _. Makes-pure 0 tt))
        (Makes-bind 1 1 _ _ (deliver-Makes h _) (λ _. Makes-pure 1 tt))

  using_client-Makes :
      {A : Type 0} (k : ℕ) (http : Option Http) (body : Http → Exec Node A)
      → ((h : Http) → Makes k (body h))
      → Makes k (using_client C http body)
  unfolding using_client
  using_client-Makes k (some h) body makes = makes h
  using_client-Makes {A} k none body makes = record { at = λ s. opened-Makes C.httpx s }
    where
      closed-Makes :
          (n : ℕ) (o : Outcome Node A)
          → length (final o).sent ≤ n
          → length (final (closed o)).sent ≤ n
      closed-Makes n (returned a t) h = h
      closed-Makes n (raised e t) h = h

      opened-Makes :
          (o : Option Http) (s : Node)
          → length
              (final {S = Node} {A = A} (elim o [
                | none ↦ raised attribute_error s
                | some h ↦ closed (body h (record s { open_clients = s.open_clients + 1 }))
              ])).sent
            ≤ length s.sent + k
      opened-Makes none s = omega arith
      opened-Makes (some h) s =
          closed-Makes (length s.sent + k) (body h (record s { open_clients = s.open_clients + 1 }))
            ((makes h).at (record s { open_clients = s.open_clients + 1 }))

  on_failure_bound :
      (n k : ℕ) (handler : Exn → Exec Node (Unit {0})) (o : Outcome Node (Unit {0}))
      → ((e : Exn) → Makes k (handler e))
      → length (final o).sent ≤ n
      → length (final (on_failure P C handler o)).sent ≤ n + k
  on_failure_bound n k handler (returned a t) makes h = omega (arith, h)
  on_failure_bound n k handler (raised e t) makes h = omega (arith, h, (makes e).at t)

  module _ (url invite_token : Text) (body : Fields) (http : Option Http) where
    register_loop-Makes :
        (rounds : ℕ)
        → Makes (2 * (rounds + 1)) (register_loop P C rounds url invite_token body http)
    unfolding register_loop
    register_loop-Makes zero =
        using_client-Makes 2 http (attempt_registration P C url invite_token body)
          (attempt_registration-Makes url invite_token body)
    register_loop-Makes (suc rounds) =
        let rest = register_loop-Makes rounds in
        let tries = attempt_registration P C url invite_token body in
        let first =
          using_client-Makes 2 http tries (attempt_registration-Makes url invite_token body) in
        record {
          at = λ s. omega (
            arith,
            on_failure_bound (length s.sent + 2) (2 * (rounds + 1))
                (λ e. register_loop P C rounds url invite_token body http)
                (using_client C http tries s) (λ e. rest) (first.at s),
          );
        }

  -- `register_agent` makes at most six requests, whatever the edge answers.
  pub register_agent_bound :
      (http : Option Http) (invite_token : Text) (s : Node)
      → length (final (register_agent P C http invite_token s)).sent ≤ length s.sent + 6
  unfolding register_agent
  register_agent_bound http invite_token s =
      (Makes-bind-lift 6 (check P C.egress (register_url P C)) _ λ url.
          Makes-bind-lift 6 (validate_http_client (is_present C.httpx) (object_of http)) _ λ _.
            Makes-bind 6 0 _ _ (register_loop-Makes url invite_token (registration_body P C) http 2)
              (λ _. Makes-of_Keeps _ (λ l. Keeps-log_entry C (λ s file i. i) _))).at
        s
