-- ===== src/Client/Session.antt =====
-- The life of a node: calls of the methods of `NodeAgentClient` in any order, each of which may
-- return or raise, and restarts, after which a new client loads the anti-replay file.
pub mod Parts
pub mod Invariants
pub mod Replay
mod Tests
use lustro_node_agent.Base.{Option, List, [], ◌∷◌, ◌≡◌}
use lustro_node_agent.Base.Text.{Text}
use lustro_node_agent.Base.Value.{Value}
use lustro_node_agent.Base.Result.{ok}
use lustro_node_agent.Base.Exec.{final}
use lustro_node_agent.Platform.{Platform}
use lustro_node_agent.Seen.{Seen, load_seen}
use lustro_node_agent.Client.{Http, NodeAgentClient, Node}
use lustro_node_agent.Client.Process.{process_wu}
use lustro_node_agent.Client.Register.{register_agent}
use lustro_node_agent.Client.Pull.{pull_and_process}
use lustro_node_agent.Client.Ship.{ship_logs}

pub data Call : Type 0 where
  process : Value → Option Http → Call
  register : Option Http → Text → Call
  pull : Option Http → Call
  ship : Option Http → Call

module _ (P : Platform) (C : NodeAgentClient) where
  -- The state that a call leaves, whether it returns or raises.
  abbrev pub perform : Call → Node → Node
  perform (process wu http) s = final (process_wu P C wu http s)
  perform (register http invite_token) s = final (register_agent P C http invite_token s)
  perform (pull http) s = final (pull_and_process P C http s)
  perform (ship http) s = final (ship_logs P C http s)

  abbrev pub perform_all : List Call → Node → Node
  perform_all [] s = s
  perform_all (c ∷ calls) s = perform_all calls (perform c s)

  -- `NodeAgentClient.__init__` on the files that a node left: the sets start empty and are loaded.
  abbrev pub restarted : Seen → Node → Node
  restarted m s = record s { replay = record { memory = m; file = s.replay.file } }

  pub data Step (s : Node) : Node → Type 0 where
    call : (c : Call) → Step s (perform c s)
    restart : {m : Seen} → load_seen P s.replay.file ≡ ok m → Step s (restarted m s)

  pub data Reach (s : Node) : Node → Type 0 where
    here : Reach s s
    later : {t u : Node} → Reach s t → Step t u → Reach s u
