-- ===== src/Client/Ship/Tests.antt =====
-- `_ship_logs` over the sample edge, with one row in the job log.
use lustro_node_agent.Base.{◌≡◌, none, some, List, [], ◌∷◌, ◌++◌, All}
use lustro_node_agent.Base.Exec.{final}
use lustro_node_agent.Client.{Request, Node}
use lustro_node_agent.Client.Ship.{ship_logs}
use lustro_node_agent.Client.Ship.Shipped.{IsShipment, ship_logs-IsShipment}
use lustro_node_agent.Samples.{platform, client, fresh_node, dumps, seen_value}

abbrev logged_node : Node
logged_node = record fresh_node { job_log = some (dumps seen_value ++ 10 ∷ []) }

abbrev shipped_node : Node
shipped_node = final (ship_logs platform client none logged_node)

ship_logs-IsShipment_example :
    (more : List Request) × (shipped_node.sent ≡ more) × All (IsShipment platform client) more
ship_logs-IsShipment_example = ship_logs-IsShipment platform client none logged_node
