-- ===== src/Cli/Leave/Tests.antt =====
-- `rmtree` that removes the directory, and one that is at a mount point.
use lustro_node_agent.Base.{◌≡◌, refl, true, some}
use lustro_node_agent.Base.Result.{os_error}
use lustro_node_agent.Base.Exec.{returned, raised}
use lustro_node_agent.Cli.Leave.{FileSystem, cmd_leave, new_agent}
use lustro_node_agent.Cli.Tests.{agent, registered_agent}

abbrev pub mounted : FileSystem
mounted = record { rmtree = λ s. raised os_error (some new_agent); is_busy = λ e. true }

left : cmd_leave mounted (some agent) ≡ returned 0 (some new_agent)
unfolding cmd_leave
left = refl

left_registered : cmd_leave mounted (some registered_agent) ≡ returned 0 (some new_agent)
unfolding cmd_leave
left_registered = refl
