-- ===== src/LogWall/Tests.antt =====
-- Requests to the log wall over a small log.
use mathlib.Core.List.{filter_map}
use lustro_node_agent.Base.{ℕ, pos, ◌≡◌, ◌≤◌, refl, Bool, false, none, some, List, [], ◌∷◌, ◌++◌}
use lustro_node_agent.Base.Text.{Text, text, text_eq, utf8, strip, is_break}
use lustro_node_agent.Base.Value.{Value}
use lustro_node_agent.Base.Result.{ok}
use lustro_node_agent.JobLog.{TextFile, read_all, parse_line}
use lustro_node_agent.Egress.{before_first}
use lustro_node_agent.LogWall.{
  Query, send_records, max_api_log_limit, limit_of, last_records, selected, by_event, by_text,
  answer_limit, in_range, file_size, serve_api_log, host_allowed, host_name, drop_brackets, do_get,
}
use lustro_node_agent.LogWall.Limits.{serve_api_log_bound}
use lustro_node_agent.Samples.{platform, dumps, loads, seen_value}

abbrev small_log : TextFile
small_log = some (dumps seen_value ++ 10 ∷ [])

abbrev no_query : Query
no_query k = none

abbrev no_address : Text → Bool
no_address t = false

served : serve_api_log platform no_query small_log ≡ ok (send_records (seen_value ∷ []))
unfolding serve_api_log file_size utf8 dumps selected by_event by_text read_all parse_line strip
    is_break loads text_eq limit_of in_range answer_limit filter_map
served = refl

serve_api_log_bound_example :
    (n : ℕ) × (records : List Value) × (limit_of platform.parse_int none ≡ pos n)
    × (selected platform no_query small_log ≡ ok records)
    × (seen_value ∷ [] ≡ last_records n records)
    × (1 ≤ n)
    × (1 ≤ n)
    × (n ≤ max_api_log_limit)
serve_api_log_bound_example =
    serve_api_log_bound platform no_query small_log (seen_value ∷ []) served

asked :
    do_get platform no_address (some (text "localhost:8787")) (text "/api/log") no_query small_log
    ≡ ok (send_records (seen_value ∷ []))
unfolding do_get host_allowed host_name drop_brackets before_first text_eq
asked = served
