-- ===== src/Cli/Run/Outcomes.antt =====
-- How `run` may end: idle, with the reason, or after one session of its client.
use lustro_node_agent.Base.{ℕ, ◌≡◌, ◌≢◌, ◌⊎◌, true, false, none, some}
use lustro_node_agent.Base.Text.{Text, is_empty}
use lustro_node_agent.Base.Result.{Exn, ok, err}
use lustro_node_agent.Base.Exec.{Outcome, returned, raised, final}
use lustro_node_agent.Keys.{Entry, ensure_keypair, public_key_raw_b64}
use lustro_node_agent.Egress.{EgressGuard, make_guard}
use lustro_node_agent.Seen.{Seen, load_seen}
use lustro_node_agent.Classifier.{stub_classify}
use lustro_node_agent.Client.{NodeAgentClient, Node}
use lustro_node_agent.Client.Session.{restarted}
use lustro_node_agent.Client.Register.{register_agent}
use lustro_node_agent.Client.Pull.{pull_and_process}
use lustro_node_agent.Cli.{text_or_empty, Agent, Machine, RunArgs, Classify, edge_of, agent_client}

-- What a pull leaves of the command: exit code 0, or its exception.
abbrev pub exit_of : {A : Type 0} → Agent → Outcome Node A → Outcome Agent ℕ
exit_of s (returned _ n) = returned 0 (record s { node = n })
exit_of s (raised e n) = raised e (record s { node = n })

-- The command failed, and has changed nothing but the key file: it made no request, wrote no log,
-- and did not register.
pub record Idle (s : Agent) (o : Outcome Agent ℕ) : Type 0 where
  pub same_node : (final o).node ≡ s.node
  pub same_registered : (final o).registered ≡ s.registered
  pub fails : (t : Agent) → o ≢ returned 0 t

module _ {K : Type 0} (M : Machine K) where
  -- `register_agent` with the token of the environment
  abbrev pub registration : NodeAgentClient → Node → Outcome Node (Unit {0})
  registration C n =
      register_agent M.platform C none (text_or_empty (M.environ "LUSTRO_NODE_INVITE_TOKEN")) n

  -- How the command ends in the state `s`, from the loaded sets on
  pub data Worked (key : K) (C : NodeAgentClient) (s : Agent) (o : Outcome Agent ℕ) : Type 0 where
    -- The registration failed: exit code 2, and nothing was pulled.
    refused :
        (e : Exn) (n : Node)
        → s.registered ≡ none
        → registration C s.node ≡ raised e n
        → o ≡ returned 2 (record s { node = n })
        → Worked key C s o
    -- It succeeded: the file is written, and one work unit is pulled.
    joined :
        (n : Node)
        → s.registered ≡ none
        → registration C s.node ≡ returned tt n
        → o
          ≡ exit_of
              (record s { registered = some (public_key_raw_b64 M.keys M.platform key); node = n })
              (pull_and_process M.platform C none n)
        → Worked key C s o
    -- The file was there: one work unit is pulled.
    known :
        (k : Text)
        → s.registered ≡ some k
        → o ≡ exit_of s (pull_and_process M.platform C none s.node)
        → Worked key C s o

  -- Why a command stops before it has a client that has loaded its sets
  pub data Stops (args : RunArgs K) (s : Agent) : Type 0 where
    no_edge : is_empty (edge_of M args.edge) ≡ true → Stops args s
    no_key :
        (e : Exn) (entry : Entry)
        → ensure_keypair M.keys args.fresh args.others s.key ≡ raised e entry
        → Stops args s
    no_model : (e : Exn) → args.stub ≡ false → M.model ≡ err e → Stops args s
    bad_edge : (e : Exn) → make_guard M.platform (edge_of M args.edge) ≡ err e → Stops args s
    bad_record : (e : Exn) → load_seen M.platform s.node.replay.file ≡ err e → Stops args s

  pub record Session (args : RunArgs K) (s : Agent) (o : Outcome Agent ℕ) : Type 0 where
    pub key : K
    pub entry : Entry
    pub guard : EgressGuard
    pub classify : Classify
    pub seen : Seen
    pub keyed : ensure_keypair M.keys args.fresh args.others s.key ≡ returned key entry
    pub chosen :
        ((args.stub ≡ true) × (classify ≡ stub_classify))
        ⊎ ((args.stub ≡ false) × (M.model ≡ ok classify))
    pub guards : make_guard M.platform (edge_of M args.edge) ≡ ok guard
    pub loaded : load_seen M.platform s.node.replay.file ≡ ok seen
    pub worked :
        Worked key
          (agent_client M key guard classify)
          (record s {
            key = entry;
            node = restarted M.platform (agent_client M key guard classify) seen s.node;
          })
          o
