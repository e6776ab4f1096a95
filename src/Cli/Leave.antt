-- ===== src/Cli/Leave.antt =====
-- `leave`: the state directory is deleted.
pub mod Tests
use lustro_node_agent.Base.{ℕ, [], Bool, Option, none, some, if◌then◌else◌}
use lustro_node_agent.Base.Result.{Exn}
use lustro_node_agent.Base.Exec.{Outcome, Exec, returned, raised}
use lustro_node_agent.Keys.{absent}
use lustro_node_agent.Seen.{nothing_seen}
use lustro_node_agent.Client.{Node}
use lustro_node_agent.Cli.{Agent}

-- `shutil.rmtree(STATE_DIR)`, where `none` is that there is no such directory, and whether an
-- exception of it is an `OSError` with `EBUSY`.
pub record FileSystem : Type 0 where
  pub rmtree : Agent → Outcome (Option Agent) (Unit {0})
  pub is_busy : Exn → Bool

module _ (F : FileSystem) where
  abbrev pub settle_removal : Outcome (Option Agent) (Unit {0}) → Outcome (Option Agent) ℕ
  settle_removal (returned _ d) = returned 0 d
  settle_removal (raised e d) = if F.is_busy e then returned 0 d else raised e d

  -- `cmd_leave`
  unfoldable pub cmd_leave : Exec (Option Agent) ℕ
  cmd_leave none = returned 0 none
  cmd_leave (some s) = settle_removal (F.rmtree s)

-- What a process finds that starts in a state directory without files
abbrev pub new_node : Node
new_node = record {
  replay = record { memory = nothing_seen; file = none };
  job_log = none;
  shipped = none;
  sent = [];
  open_clients = 0;
}

abbrev pub new_agent : Agent
new_agent = record { key = absent; registered = none; node = new_node }

-- A process that starts in what a command has left
abbrev pub start_of : Option Agent → Agent
start_of none = new_agent
start_of (some s) = record s {
  node = record s.node {
    replay = record { memory = nothing_seen; file = s.node.replay.file };
    sent = [];
    open_clients = 0;
  };
}
