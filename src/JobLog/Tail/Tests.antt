-- ===== src/JobLog/Tail/Tests.antt =====
-- A log that comes to be while it is awaited.
use lustro_node_agent.Base.{◌≡◌, refl, true, none, some, List, [], ◌∷◌, ◌++◌}
use lustro_node_agent.Base.Text.{text, strip}
use lustro_node_agent.JobLog.{parse_line, parse_error}
use lustro_node_agent.JobLog.Tail.{Event, appended, polled, iter_lines}
use lustro_node_agent.JobLog.Tail.Delivery.{rounds}
use lustro_node_agent.Samples.{platform, loads}

abbrev events : List Event
events = polled ∷ appended (text "12\n") ∷ polled ∷ appended (text "3\n") ∷ []

followed :
    iter_lines platform true true none (events ++ rounds 2)
    ≡ none ∷ some (parse_error (text "12")) ∷ some (parse_error (text "3")) ∷ none ∷ []
unfolding iter_lines parse_line loads strip
followed = refl
