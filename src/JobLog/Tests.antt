-- ===== src/JobLog/Tests.antt =====
-- The job log at concrete inputs.
use lustro_node_agent.Base.{◌≡◌, refl, [], ◌∷◌, ◌++◌, none, some, if◌then◌else◌}
use lustro_node_agent.Base.Text.{text, text_eq, is_break, utf8, strip}
use lustro_node_agent.Base.Value.{Value, Fields, str, float, field, end, dict, set_key}
use lustro_node_agent.Base.Exec.{returned}
use lustro_node_agent.Platform.{Platform}
use lustro_node_agent.JobLog.{TextFile, record_of, append}
use lustro_node_agent.JobLog.Reading.{PlainLine}
use lustro_node_agent.Samples.{platform, dumps}

abbrev pub entry : Fields
entry = field "event" (str (text "no_work")) end

abbrev stamped : Value
stamped = dict (field "ts" (float 0) entry)

-- It parses the one entry that the tests write.
abbrev pub parsing : Platform
parsing = record platform { loads = λ t. if text_eq t (dumps stamped) then some stamped else none }

abbrev pub log : TextFile
log = some (dumps stamped ++ 10 ∷ [])

pub appended : append parsing entry none ≡ returned tt log
unfolding append dumps set_key utf8
appended = refl

pub plain_entry : PlainLine parsing (dict (record_of parsing entry none))
unfolding record_of set_key dumps text_eq is_break strip
plain_entry = record { one_line = refl; stripped = refl; nonempty = refl; parses = refl }
