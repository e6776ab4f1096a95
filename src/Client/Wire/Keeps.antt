-- ===== src/Client/Wire/Keeps.antt =====
-- Which invariants the steps of a client method keep.
use lustro_node_agent.Base.{◌≡◌, Option, none, some, [], ◌∷◌, ◌++◌, ◌+◌, ◌-◌, arith}
use lustro_node_agent.Base.Value.{Fields}
use lustro_node_agent.Base.Result.{attribute_error}
use lustro_node_agent.Base.Exec.{Outcome, Exec, returned, raised, final, Keeps}
use lustro_node_agent.Client.{Request, Response, answered, failed, Http, NodeAgentClient, Node}
use lustro_node_agent.Client.Wire.{
  attempt, closed, settle_log, settle_reply, log_entry, send, raise_for_status, using_client,
}

-- An entry in the job log keeps `I`.
abbrev pub AllowsLog : NodeAgentClient → (Node → Type 0) → Type 0
AllowsLog C I =
    (entry : Fields) (s : Node) → I s → I (record s { job_log = final (C.journal entry s.job_log) })

-- To send `q` keeps `I`.
abbrev pub AllowsRequest : (Node → Type 0) → Request → Type 0
AllowsRequest I q = (s : Node) → I s → I (record s { sent = s.sent ++ q ∷ [] })

final-attempt : {A : Type 0} (m : Exec Node A) (s : Node) → final (attempt m s) ≡ final (m s)
final-attempt m s = ground arith

pub Keeps-attempt :
    {A : Type 0} {I : Node → Type 0} (m : Exec Node A) → Keeps I m → Keeps I (attempt m)
Keeps-attempt m k = record { at = λ s h. rw final-attempt (k.at s h) }

module _ (C : NodeAgentClient) {I : Node → Type 0} where
  pub Keeps-log_entry : AllowsLog C I → (entry : Fields) → Keeps I (log_entry C entry)
  unfolding log_entry
  Keeps-log_entry allows entry = record {
    at = λ s h.
        elim (C.journal entry s.job_log)
            as (λ o. I (record s { job_log = final o }) → I (final (settle_log C s o))) [
              | returned _ file ↦ λ i. i
              | raised e file ↦ λ i. i
            ]
          (allows entry s h);
  }

  pub Keeps-send : (h : Http) (q : Request) → AllowsRequest I q → Keeps I (send C h q)
  unfolding send
  Keeps-send h q allows = record {
    at = λ s i.
        elim (h.reply s.sent q)
          as (λ o. I (final (settle_reply C (record s { sent = s.sent ++ q ∷ [] }) o))) [
            | answered r ↦ allows s i
            | failed e ↦ allows s i
          ];
  }

  pub Keeps-raise_for_status : (h : Http) (r : Response) → Keeps I (raise_for_status C h r)
  unfolding raise_for_status
  Keeps-raise_for_status h r = record {
    at = λ s i.
        elim (h.status_raises r.status)
          as (λ o. I (final (elim o [ none ↦ returned tt s | some e ↦ raised e s ]))) [
            | none ↦ i
            | some e ↦ i
          ];
  }

  -- A client that is opened for the body is closed after it: `I` may change to `K` in between.
  pub Keeps-using_client :
      {A : Type 0} (K : Node → Type 0) (http : Option Http) (body : Http → Exec Node A)
      → ((s : Node) → I s → K (record s { open_clients = s.open_clients + 1 }))
      → ((s : Node) → K s → I (record s { open_clients = s.open_clients - 1 }))
      → ((h : Http) → Keeps I (body h))
      → ((h : Http) → Keeps K (body h))
      → Keeps I (using_client C http body)
  unfolding using_client
  Keeps-using_client {A} K (some h) body opens closes own other = own h
  Keeps-using_client {A} K none body opens closes own other = record {
    at = λ s i. opened-Keeps C.httpx s i;
  }
    where
      closed-Keeps : (o : Outcome Node A) → K (final o) → I (final (closed o))
      closed-Keeps (returned a t) j = closes t j
      closed-Keeps (raised e t) j = closes t j

      opened-Keeps :
          (o : Option Http) (s : Node)
          → I s
          → I (
              final (elim o [
                | none ↦ raised attribute_error s
                | some h ↦ closed (body h (record s { open_clients = s.open_clients + 1 }))
              ]))
      opened-Keeps none s i = i
      opened-Keeps (some h) s i =
          closed-Keeps (body h (record s { open_clients = s.open_clients + 1 }))
            ((other h).at _ (opens s i))
