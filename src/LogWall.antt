-- ===== src/LogWall.antt =====
-- node_agent/logwall.py: which hosts may ask, the routes, and the log API. An answer names what
-- LogWall/Handler writes to the client.
pub mod Handler
pub mod Limits
pub mod Hosts
pub mod Live
mod Tests
use mathlib.Core.List.{reverse, filter}
use lustro_node_agent.Base.{
  ℕ, ℤ, pos, negsuc, ◌-◌, ◌*◌, Bool, true, false, ◌||◌, ◌&&◌, Option, none, some, List, [], ◌∷◌,
  ltb, leb, ◌==◌, length, drop, String, if◌then◌else◌,
}
use lustro_node_agent.Base.Text.{Text, text, text_eq, is_empty, utf8}
use lustro_node_agent.Base.Value.{Value, Fields, str, dict, field, end, get}
use lustro_node_agent.Base.Result.{Result, ok, err, ◌>>=◌, attribute_error, type_error, other_error}
use lustro_node_agent.Platform.{Platform}
use lustro_node_agent.Egress.{before_first}
use lustro_node_agent.JobLog.{TextFile, read_all}
use lustro_node_agent.Seen.{hashable}

abbrev pub max_api_log_limit : ℕ
max_api_log_limit = 1000

abbrev pub default_api_log_limit : ℕ
default_api_log_limit = 100

-- What a handler sends
pub data Answer : Type 0 where
  send_json : ℕ → Value → Answer
  send_records : List Value → Answer
  send_html : Answer
  send_events : Answer

abbrev pub error_body : String → Value
error_body message = dict (field "error" (str (text message)) end)

unfoldable pub drop_brackets : Text → Text
drop_brackets [] = []
drop_brackets (c ∷ t) = let rest = drop_brackets t in if c == b'[' || c == b']' then rest else c ∷ t

-- `host.split(":")[0].strip("[]")`
unfoldable pub host_name : Text → Text
host_name host = reverse (drop_brackets (reverse (drop_brackets (before_first b':' host))))

-- `_host_allowed`, where `is_ip` says that `ipaddress.ip_address` does not raise
unfoldable pub host_allowed : (Text → Bool) → Option Text → Bool
host_allowed is_ip none = false
host_allowed is_ip (some header) =
    let host = host_name header in
    if is_empty host then false else if text_eq host (text "localhost") then true else is_ip host

unfoldable pub member : Text → List Text → Bool
member t [] = false
member t (u ∷ us) = text_eq t u || member t us

-- `r.get("event") in allowed`
unfoldable pub event_allowed : List Text → Value → Result Bool
event_allowed allowed (dict fs) = elim (get "event" fs) as (λ _. Result Bool) [
  | str t ↦ ok (member t allowed)
  | v ↦ if hashable v then ok false else err type_error
]
event_allowed allowed _ = err attribute_error

unfoldable pub starts_with : Text → Text → Bool
starts_with [] t = true
starts_with (x ∷ p) [] = false
starts_with (x ∷ p) (y ∷ t) = x == y && starts_with p t

-- `q in t`
unfoldable pub contains : Text → Text → Bool
contains q [] = starts_with q []
contains q (c ∷ t) = starts_with q (c ∷ t) || contains q t

unfoldable pub filter_events : List Text → List Value → Result (List Value)
filter_events allowed [] = ok []
filter_events allowed (r ∷ records) = do
  keep ← event_allowed allowed r
  rest ← filter_events allowed records
  ok (if keep then r ∷ rest else rest)

-- The limit as a number from 1 to `MAX_API_LOG_LIMIT`
unfoldable pub in_range : ℤ → Option ℕ
in_range (pos n) = if ltb n 1 || ltb max_api_log_limit n then none else some n
in_range (negsuc n) = none

-- `records[-limit:]` for a positive limit
abbrev pub last_records : ℕ → List Value → List Value
last_records n records = drop (length records - n) records

-- `params["limit"]`, or the default. An `IndexError` and a `ValueError` give -1.
unfoldable pub limit_of : (Text → Option ℤ) → Option (List Text) → ℤ
limit_of parse_int none = pos default_api_log_limit
limit_of parse_int (some []) = negsuc 0
limit_of parse_int (some (t ∷ _)) = elim (parse_int t) [ some z ↦ z | none ↦ negsuc 0 ]

-- The answer to a limit, with the records that the filters left
unfoldable pub answer_limit : Option ℕ → List Value → Answer
answer_limit none records = send_json 400 (error_body "limit must be between 1 and 1000")
answer_limit (some n) records = send_records (last_records n records)

-- `path.stat().st_size`: the file holds the UTF-8 of its text.
unfoldable pub file_size : TextFile → ℕ
file_size none = 0
file_size (some t) = elim (utf8 t) [ some b ↦ length b | none ↦ 0 ]

-- `urllib.parse.parse_qs`: the values of a key, if it is there
abbrev pub Query : Type 0
Query = String → Option (List Text)

module _ (P : Platform) where
  unfoldable pub matching : Text → List Value → List Value
  unfolding contains
  matching q [] = []
  matching q (r ∷ records) =
      let rest = matching q records in if contains q (P.lower (P.dumps r)) then r ∷ rest else rest

  -- `if "event" in params`
  unfoldable pub by_event : Option (List Text) → List Value → Result (List Value)
  by_event none records = ok records
  by_event (some allowed) records = filter_events allowed records

  -- `if "q" in params`
  unfoldable pub by_text : Option (List Text) → List Value → Result (List Value)
  by_text none records = ok records
  by_text (some []) records = err other_error
  by_text (some (q ∷ _)) records = ok (matching (P.lower q) records)

  -- The two filters
  unfoldable pub selected : Query → TextFile → Result (List Value)
  selected params file = do
    events ← by_event (params "event") (read_all P file)
    by_text (params "q") events

  -- `_serve_api_log`
  unfoldable pub serve_api_log : Query → TextFile → Result Answer
  serve_api_log params file =
      if ltb (10 * 1024 * 1024) (file_size file)
      then ok (send_json 413 (error_body "job log too large for API; use dump-log"))
      else do
        records ← selected params file
        ok (answer_limit (in_range (limit_of P.parse_int (params "limit"))) records)

  -- `do_GET` for a `Host` header, the path and the query of the URL
  unfoldable pub do_get : (Text → Bool) → Option Text → Text → Query → TextFile → Result Answer
  do_get is_ip host path params file =
      if host_allowed is_ip host
      then (if text_eq path (text "/")
          then ok send_html
          else if text_eq path (text "/api/log")
          then serve_api_log params file
          else if text_eq path (text "/events")
          then ok send_events
          else ok (send_json 404 (error_body "not found")))
      else ok (send_json 403 (error_body "host not allowed"))
