-- ===== src/JobLog/Tail.antt =====
-- `JobLog.iter_lines`: the log as it is read line by line, and as it is followed while others append
-- to it.
pub mod Delivery
pub mod Following
mod Tests
use mathlib.Core.List.{filter_map, map}
use lustro_node_agent.Base.{
  ℕ, zero, suc, Bool, true, false, ◌||◌, Option, none, some, List, [], ◌∷◌, ◌++◌, ◌==◌, length,
  if◌then◌else◌,
}
use lustro_node_agent.Base.Text.{Text, is_empty}
use lustro_node_agent.Base.Value.{Value}
use lustro_node_agent.Platform.{Platform}
use lustro_node_agent.JobLog.{TextFile, parse_line}

-- `f.readline()` on the text that is not read yet: \r, \n and \r\n end a line, and are read as \n.
unfoldable pub first_line : Text → Text
first_line [] = []
first_line (c ∷ t) = let rest = first_line t in if c == 10 || c == 13 then 10 ∷ [] else c ∷ rest

abbrev pub skip_feed : Text → Text
skip_feed [] = []
skip_feed (c ∷ t) = if c == 10 then t else c ∷ t

-- What is not read after it
unfoldable pub after_line : Text → Text
after_line [] = []
after_line (c ∷ t) =
    let rest = after_line t in if c == 10 then t else if c == 13 then skip_feed t else rest

-- The lines of a text, at most so many
unfoldable pub lines_within : ℕ → Text → List Text
unfolding first_line after_line
lines_within zero t = []
lines_within (suc n) [] = []
lines_within (suc n) (c ∷ t) = first_line (c ∷ t) ∷ lines_within n (after_line (c ∷ t))

-- `for line in f`: every line has a code point.
unfoldable pub file_lines : Text → List Text
unfolding lines_within
file_lines t = lines_within (length t) t

-- What happens while the log is followed: another process appends a text, or the loop of the
-- generator goes one round, which reads once.
pub data Event : Type 0 where
  appended : Text → Event
  polled : Event

module _ (P : Platform) where
  abbrev pub yield_record : Option Value → List (Option Value) → List (Option Value)
  yield_record none rest = rest
  yield_record (some v) rest = some v ∷ rest

  -- The loop of a follower, on the text that it has not read: a round reads a line, if there is one,
  -- and else yields `None`. A blank line yields nothing.
  unfoldable pub follow_from : Text → List Event → List (Option Value)
  unfolding first_line after_line parse_line
  follow_from unread [] = []
  follow_from unread (appended t ∷ events) = follow_from (unread ++ t) events
  follow_from [] (polled ∷ events) = none ∷ follow_from [] events
  follow_from (c ∷ t) (polled ∷ events) =
      yield_record (parse_line P (first_line (c ∷ t))) (follow_from (after_line (c ∷ t)) events)

  -- `while not self._path.exists()`: a log that comes to be is read from its start.
  unfoldable pub await_log : List Event → List (Option Value)
  unfolding follow_from
  await_log [] = []
  await_log (appended t ∷ events) = follow_from t events
  await_log (polled ∷ events) = none ∷ await_log events

  abbrev pub read_from : Bool → Text → Text
  read_from since_end t = if since_end then [] else t

  unfoldable pub follow_log : Bool → TextFile → List Event → List (Option Value)
  unfolding await_log follow_from
  follow_log since_end none events = await_log events
  follow_log since_end (some t) events = follow_from (read_from since_end t) events

  abbrev pub records_of : Text → List Value
  records_of t = filter_map (parse_line P) (file_lines t)

  abbrev pub contents_from : Bool → TextFile → Text
  contents_from since_end none = []
  contents_from since_end (some t) = read_from since_end t

  -- `iter_lines`: what it yields, `none` for `None`
  unfoldable pub iter_lines : Bool → Bool → TextFile → List Event → List (Option Value)
  unfolding follow_log file_lines parse_line
  iter_lines follow since_end file events =
      if follow
      then follow_log since_end file events
      else map some (records_of (contents_from since_end file))
