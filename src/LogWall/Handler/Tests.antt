-- ===== src/LogWall/Handler/Tests.antt =====
-- A server whose writes do not fail.
use mathlib.Core.List.{map, filter_map}
use lustro_node_agent.Base.{
  ◌≡◌, ◌≢◌, ap, Bool, true, refl, inl, inr, false, none, some, List, [], All, ◌∷◌, ◌++◌, arith,
}
use lustro_node_agent.Base.Text.{Text, text, text_eq, utf8}
use lustro_node_agent.Base.Exec.{final}
use lustro_node_agent.JobLog.{parse_line}
use lustro_node_agent.JobLog.Tail.{Event, appended, polled, file_lines, records_of}
use lustro_node_agent.JobLog.Tail.Delivery.{added, rounds}
use lustro_node_agent.LogWall.Live.{opened}
use lustro_node_agent.LogWall.Handler.{
  HttpServer, Connection, events_head, serve_events, get, handle,
}
use lustro_node_agent.LogWall.Handler.Frames.{received, Sendable}
use lustro_node_agent.LogWall.Handler.Received.{serve_events-receives}
use lustro_node_agent.LogWall.Handler.Secret.{handle-foreign}
use lustro_node_agent.LogWall.Hosts.{Foreign, named}
use lustro_node_agent.Samples.{platform, loads}

abbrev server : HttpServer
server = record {
  head = λ status headers. text "HTTP/1.0\r\n\r\n";
  fails = λ before t. none;
  is_gone = λ e. false;
  page_html = text "<!doctype html>";
}

abbrev connection : Connection
connection = record { wall = opened; sent = [] }

abbrev events : List Event
events = polled ∷ appended (text "12\n") ∷ polled ∷ appended (text "3\n") ∷ []

sendable : All (Sendable platform) (records_of platform (added events))
unfolding file_lines filter_map parse_line loads utf8
sendable = (
  record { one_line = refl; bytes = _; encoded = refl },
  (record { one_line = refl; bytes = _; encoded = refl }, tt),
)

not_localhost : text "evil" ≢ text "localhost"
unfolding text_eq
not_localhost h = let same : false ≡ true = ap (λ t. text_eq t (text "localhost")) h in cc same

no_address : Text → Bool
no_address t = false

stranger : Foreign no_address (some (text "evil:8787"))
unfolding no_address
stranger =
    named (text "evil") (text ":8787")
      ((refl, refl, refl), ((refl, refl, refl), ((refl, refl, refl), ((refl, refl, refl), tt))))
      (inr (text "8787", refl)) not_localhost refl

serve_events-receives_example :
    (body : Text) × ((final
        (serve_events platform server none (events ++ rounds 5) connection)).sent
      ≡ ([] ++ events_head platform server) ++ body)
    × (received body ≡ map platform.dumps (records_of platform (added events)))
serve_events-receives_example =
    serve_events-receives platform server connection none events 5 4 refl (λ before t. refl)
      (inr (text "12", refl), (inr (text "3", refl), tt)) (omega arith) sendable

handle-foreign_example :
    handle platform server none [] get no_address
      (some (text "evil:8787"))
      (text "/events")
      (λ key. none)
      connection
    ≡ handle platform server
        (some (text "12\n"))
        events
        get
        no_address
        (some (text "evil:8787"))
        (text "/events")
        (λ key. none)
        connection
handle-foreign_example =
    handle-foreign platform server no_address (some (text "evil:8787")) (text "/events")
      (λ key. none) get none (some (text "12\n")) [] events connection (inr (inl stranger))
