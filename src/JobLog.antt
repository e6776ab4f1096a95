-- ===== src/JobLog.antt =====
-- node_agent/joblog.py: the append-only log, one JSON object a line. A file is the text that it
-- holds, or `none` where it does not exist.
pub mod Growing
pub mod Lines
pub mod Reading
pub mod Tail
pub mod Tests
use mathlib.Core.List.{filter_map}
use lustro_node_agent.Base.{String, Option, none, some, List, [], ◌∷◌, ◌++◌, if◌then◌else◌}
use lustro_node_agent.Base.Text.{Text, text, utf8, strip, splitlines, is_empty}
use lustro_node_agent.Base.Value.{Value, Fields, end, field, str, dict, set_key}
use lustro_node_agent.Base.Result.{unicode_error}
use lustro_node_agent.Base.Exec.{Outcome, Exec, returned, raised}
use lustro_node_agent.Platform.{Platform}

abbrev pub TextFile : Type 0
TextFile = Option Text

abbrev pub contents : TextFile → Text
contents none = []
contents (some t) = t

-- `path.open("a", encoding="utf-8")`, then `f.write(line + "\n")`. Opening creates the file. A text
-- that UTF-8 cannot encode raises, and writes nothing.
unfoldable pub append_line : Text → Exec TextFile (Unit {0})
append_line line file = elim (utf8 line) [
  | none ↦ raised unicode_error (some (contents file))
  | some _ ↦ returned tt (some (contents file ++ (line ++ 10 ∷ [])))
]

-- `{**base, **more}`
unfoldable pub merge : Fields → Fields → Fields
merge base end = base
merge base (field k v more) = merge (set_key k v base) more

abbrev pub parse_error : Text → Value
parse_error line = dict (field "event" (str (text "_parse_error")) (field "raw" (str line) end))

module _ (P : Platform) where
  unfoldable pub record_of : Fields → TextFile → Fields
  unfolding merge
  record_of entry file = merge (field "ts" (P.now (contents file)) end) entry

  -- `JobLog.append`
  unfoldable pub append : Fields → Exec TextFile (Unit {0})
  unfolding append_line record_of
  append entry file = append_line (P.dumps (dict (record_of entry file))) file

  -- `_parse_line` after its `strip`
  abbrev parse_stripped : Text → Option Value
  parse_stripped line =
      if is_empty line
      then none
      else elim (P.loads line) [ none ↦ some (parse_error line) | some v ↦ some v ]

  -- `_parse_line`
  unfoldable pub parse_line : Text → Option Value
  unfolding strip
  parse_line line = parse_stripped (strip line)

  -- `read_all`
  unfoldable pub read_all : TextFile → List Value
  unfolding parse_line splitlines
  read_all none = []
  read_all (some t) = filter_map parse_line (splitlines t)
