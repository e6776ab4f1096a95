-- ===== src/Client/Session/Parts.antt =====
-- An invariant that every part of a method keeps is kept by every call, by every sequence of calls,
-- and by restarts.
use lustro_node_agent.Base.{◌+◌, ◌-◌, ◌≡◌, Option, some}
use lustro_node_agent.Base.Value.{Value}
use lustro_node_agent.Base.Result.{ok}
use lustro_node_agent.Base.Exec.{Keeps}
use lustro_node_agent.Platform.{Platform}
use lustro_node_agent.Seen.{Seen, load_seen}
use lustro_node_agent.Client.{Http, NodeAgentClient, Node}
use lustro_node_agent.Client.Wire.Keeps.{AllowsLog, Keeps-using_client}
use lustro_node_agent.Client.Wire.{using_client}
use lustro_node_agent.Client.Process.{process_wu, submit}
use lustro_node_agent.Client.Process.Keeps.{
  AllowsMark, AllowsChecked, SubmitKeeps, submit-Keeps, process_wu-Keeps,
}
use lustro_node_agent.Client.Register.{registration_body}
use lustro_node_agent.Client.Safety.{
  attempt_registration-Keeps, pull_with-Keeps, register_agent-Keeps, pull_and_process-Keeps,
}
use lustro_node_agent.Client.Ship.Shipped.{IgnoresCursor, ship_with-Keeps, ship_logs-Keeps}
use lustro_node_agent.Client.Session.{
  Call, process, register, pull, ship, perform, restarted, Step, call, restart, Reach, here, later,
}

module _ (P : Platform) (C : NodeAgentClient) where
  -- A log entry, a mark, a checked request and a write of the cursor keep `I`.
  pub record Allows (I : Node → Type 0) : Type 0 where
    pub log : AllowsLog C I
    pub marks : AllowsMark P I
    pub checked : AllowsChecked P C I
    pub cursor : IgnoresCursor I

  -- `I` holds outside a client that a method owns, and `K` inside.
  pub record Parts (I K : Node → Type 0) : Type 0 where
    pub outside : Allows I
    pub inside : Allows K
    pub opens : (s : Node) → I s → K (record s { open_clients = s.open_clients + 1 })
    pub closes : (s : Node) → K s → I (record s { open_clients = s.open_clients - 1 })

  module _ {I K : Node → Type 0} (p : Parts I K) where
    submits : (http : Option Http) → SubmitKeeps P C I http
    submits http wu wu_id url body passed =
        Keeps-using_client C K http _ p.opens p.closes
          (λ h.
            submit-Keeps P C p.outside.log p.outside.marks p.outside.checked wu wu_id url body h
              passed)
          (λ h.
            submit-Keeps P C p.inside.log p.inside.marks p.inside.checked wu wu_id url body h
              passed)

    processes :
        (J : Node → Type 0)
        → Allows J
        → (h : Http) (wu : Value) → Keeps J (process_wu P C wu (some h))
    unfolding using_client submit
    processes J a h = process_wu-Keeps P C a.log (some h) (λ wu wu_id url body passed.
        submit-Keeps P C a.log a.marks a.checked wu wu_id url body h passed)

    pub perform-Keeps : (c : Call) (s : Node) → I s → I (perform P C c s)
    perform-Keeps (process wu http) s =
        (process_wu-Keeps P C p.outside.log http (submits http) wu).at s
    perform-Keeps (register http invite_token) s =
        (register_agent-Keeps P C p.outside.log http invite_token λ url passed.
            Keeps-using_client C K http _ p.opens p.closes
              (λ h.
                attempt_registration-Keeps P C p.outside.log p.outside.checked url invite_token
                  (registration_body P C) h passed)
              (λ h.
                attempt_registration-Keeps P C p.inside.log p.inside.checked url invite_token
                  (registration_body P C) h passed)).at
          s
    perform-Keeps (pull http) s =
        (pull_and_process-Keeps P C p.outside.log http λ url passed.
            Keeps-using_client C K http _ p.opens p.closes
              (λ h.
                pull_with-Keeps P C p.outside.log p.outside.checked url h passed
                  (processes I p.outside h))
              (λ h.
                pull_with-Keeps P C p.inside.log p.inside.checked url h passed
                  (processes K p.inside h))).at
          s
    perform-Keeps (ship http) s =
        (ship_logs-Keeps P C p.outside.log p.outside.cursor http λ rows batch url stop _ _ passed.
            Keeps-using_client C K http _ p.opens p.closes
              (λ h.
                ship_with-Keeps P C p.outside.log p.outside.cursor url batch stop h
                  (p.outside.checked _ _ passed))
              (λ h.
                ship_with-Keeps P C p.inside.log p.inside.cursor url batch stop h
                  (p.inside.checked _ _ passed))).at
          s

    -- A restart keeps `I`.
    abbrev pub AllowsRestart : Type 0
    AllowsRestart =
        (s : Node) (m : Seen) → load_seen P s.replay.file ≡ ok m → I s → I (restarted P C m s)

    pub Step-Keeps : AllowsRestart → {s t : Node} → Step P C s t → I s → I t
    Step-Keeps restarts (call c) i = perform-Keeps c _ i
    Step-Keeps restarts (restart loaded) i = restarts _ _ loaded i

    pub Reach-Keeps : AllowsRestart → {s t : Node} → Reach P C s t → I s → I t
    Reach-Keeps restarts here i = i
    Reach-Keeps restarts (later r st) i = Step-Keeps restarts st (Reach-Keeps restarts r i)
