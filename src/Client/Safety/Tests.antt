-- ===== src/Client/Safety/Tests.antt =====
-- `register_agent` and `pull_and_process` over the sample edge, and a body of two chunks.
use lustro_node_agent.Base.{length, ◌≡◌, ◌≤◌, ◌↔◌, refl, Option, none, [], ◌∷◌}
use lustro_node_agent.Base.Text.{text}
use lustro_node_agent.Base.Exec.{final}
use lustro_node_agent.Client.{Node}
use lustro_node_agent.Client.Register.Attempts.{register_agent_bound}
use lustro_node_agent.Client.Register.{register_agent}
use lustro_node_agent.Client.Pull.{pull_and_process}
use lustro_node_agent.Client.Pull.{max_wu_response_bytes, read_chunks}
use lustro_node_agent.Client.Pull.Bounds.{joined, read_chunks_iff}
use lustro_node_agent.Base.Result.{Exn, ok}
use lustro_node_agent.Samples.{platform, client, fresh_node}

abbrev registered : Node
registered = final (register_agent platform client none (text "invite") fresh_node)

abbrev pulled : Node
pulled = final (pull_and_process platform client none fresh_node)

two_chunks : read_chunks [] ((1 ∷ 2 ∷ []) ∷ (3 ∷ []) ∷ []) none ≡ ok (1 ∷ 2 ∷ 3 ∷ [])
unfolding read_chunks
two_chunks = refl

read_chunks_iff_example :
    (read_chunks [] ((1 ∷ 2 ∷ []) ∷ (3 ∷ []) ∷ []) none ≡ ok (1 ∷ 2 ∷ 3 ∷ [])) ↔ (
      (◌≡◌ {A = Option Exn} none none)
      × (1 ∷ 2 ∷ 3 ∷ [] ≡ joined ((1 ∷ 2 ∷ []) ∷ (3 ∷ []) ∷ []))
      × (3 ≤ max_wu_response_bytes))
read_chunks_iff_example = read_chunks_iff ((1 ∷ 2 ∷ []) ∷ (3 ∷ []) ∷ []) none (1 ∷ 2 ∷ 3 ∷ [])

register_agent_bound_example : length registered.sent ≤ 6
register_agent_bound_example = register_agent_bound platform client none (text "invite") fresh_node
