-- ===== src/Cli/Run/Calls.antt =====
-- What a session of `run` does to the node, as calls of its client.
use lustro_node_agent.Base.{ℕ, ◌≡◌, refl, sym, subst, none, some}
use lustro_node_agent.Base.Exec.{Outcome, returned, raised, final}
use lustro_node_agent.Keys.{public_key_raw_b64}
use lustro_node_agent.Client.{NodeAgentClient, Node}
use lustro_node_agent.Client.Session.{register, pull, Reach, here, later, call, restart, restarted}
use lustro_node_agent.Client.Pull.{pull_and_process}
use lustro_node_agent.Cli.{text_or_empty, Agent, Machine, RunArgs, agent_client}
use lustro_node_agent.Cli.Run.Outcomes.{
  exit_of, registration, Worked, refused, joined, known, Session,
}

module _ {K : Type 0} (M : Machine K) where
  exit_of-node :
      {A : Type 0} (t : Agent) (p : Outcome Node A) → (final (exit_of t p)).node ≡ final p
  exit_of-node t (returned _ n) = refl
  exit_of-node t (raised e n) = refl

  module _ (before : Node) (key : K) (C : NodeAgentClient) where
    pulls :
        (t : Agent)
        → Reach M.platform C before t.node
        → Reach M.platform C before
            (final (exit_of t (pull_and_process M.platform C none t.node))).node
    pulls t r =
        subst (Reach M.platform C before)
          (sym (exit_of-node t (pull_and_process M.platform C none t.node)))
          (later r (call (pull none)))

    registers :
        (t : Agent) {o : Outcome Node (Unit {0})}
        → registration M C t.node ≡ o
        → Reach M.platform C before t.node
        → Reach M.platform C before (final o)
    registers t tried r =
        let token = text_or_empty (M.environ "LUSTRO_NODE_INVITE_TOKEN") in
        subst (λ (p : Outcome Node (Unit {0})). Reach M.platform C before (final p)) tried
          (later r (call (register none token)))

    Worked-Reach :
        (t : Agent) (o : Outcome Agent ℕ)
        → Reach M.platform C before t.node
        → Worked M key C t o
        → Reach M.platform C before (final o).node
    Worked-Reach t o r (refused e n missing tried out) = rw out (registers t tried r)
    Worked-Reach t o r (joined n missing tried out) =
        let u : Agent = record t {
          registered = some (public_key_raw_b64 M.keys M.platform key);
          node = n;
        } in
        rw out (pulls u (registers t tried r))
    Worked-Reach t o r (known k there out) = rw out (pulls t r)

  module _ (args : RunArgs K) (s : Agent) where
    -- What a session does to the node, as calls of its client
    pub Session-Reach :
        (o : Outcome Agent ℕ) (q : Session M args s o)
        → Reach M.platform (agent_client M q.key q.guard q.classify) s.node (final o).node
    Session-Reach o q =
        let C = agent_client M q.key q.guard q.classify in
        let started : Agent = record s {
          key = q.entry;
          node = restarted M.platform C q.seen s.node;
        } in
        Worked-Reach s.node q.key C started o (later here (restart q.loaded)) q.worked
