-- ===== src/Client/Session/Tests.antt =====
-- A restart, a work unit, a shipment and a registration over the sample edge.
use lustro_node_agent.Base.{◌≡◌, refl, none, List, [], ◌∷◌, inl, arith}
use lustro_node_agent.Base.Text.{text}
use lustro_node_agent.Base.Value.{dict}
use lustro_node_agent.Base.Result.{ok}
use lustro_node_agent.JobLog.Growing.{GrownFrom}
use lustro_node_agent.Seen.{nothing_seen, load_seen}
use lustro_node_agent.Seen.Marking.{Bounded}
use lustro_node_agent.Seen.Tests.{set_laws}
use lustro_node_agent.Client.{Node}
use lustro_node_agent.Client.Process.Keeps.{OnlyEdge}
use lustro_node_agent.Client.Session.{
  Call, process, register, ship, perform_all, restarted, call, restart, Reach, here, later,
}
use lustro_node_agent.Client.Session.Invariants.{Reach-OnlyEdge, Reach-GrownFrom, calls-Bounded}
use lustro_node_agent.Samples.{platform, client, work_unit, fresh_node}

abbrev some_calls : List Call
some_calls = process (dict work_unit) none ∷ ship none ∷ register none (text "invite") ∷ []

abbrev used_node : Node
used_node =
    perform_all platform client some_calls (restarted platform client nothing_seen fresh_node)

loaded : load_seen platform none ≡ ok nothing_seen
unfolding load_seen
loaded = refl

a_session : Reach platform client fresh_node used_node
a_session =
    later
      (later (later (later here (restart loaded)) (call (process (dict work_unit) none)))
        (call (ship none)))
      (call (register none (text "invite")))

Reach-OnlyEdge_example : OnlyEdge platform client used_node
Reach-OnlyEdge_example = Reach-OnlyEdge platform client a_session tt

Reach-GrownFrom_example : GrownFrom [] used_node.replay.file
Reach-GrownFrom_example = Reach-GrownFrom platform client a_session (inl refl)

calls-Bounded_example :
    Bounded platform (perform_all platform client some_calls fresh_node).replay.memory
calls-Bounded_example = calls-Bounded platform client set_laws some_calls fresh_node (omega arith)
