-- ===== src/Seen/Tests.antt =====
-- The anti-replay record at concrete inputs.
use lustro_node_agent.Base.{◌≡◌, refl, true, [], ◌∷◌, ◌++◌, none, some, inl}
use lustro_node_agent.Base.Text.{text, text_eq, text_eq_refl, is_break, utf8, strip}
use lustro_node_agent.Base.Value.{Value, Fields, str, field, end, dict, get}
use lustro_node_agent.Base.Result.{ok}
use lustro_node_agent.Base.Exec.{returned}
use lustro_node_agent.JobLog.{TextFile}
use lustro_node_agent.JobLog.Reading.{PlainLine, BrokenLine}
use lustro_node_agent.Seen.{mark, seen_record, persist_seen, load_seen, same_element}
use lustro_node_agent.Seen.Sets.{SetLaws}
use lustro_node_agent.Seen.Reload.{load_seen-persist_seen_broken}
use lustro_node_agent.Samples.{platform, work_unit, dumps, loads}

same_element_refl : (v : Value) → same_element platform v v ≡ true
same_element_refl (str t) = text_eq_refl t
same_element_refl _ = refl

pub set_laws : SetLaws platform
set_laws = record {
  same_refl = same_element_refl;
  order_head = λ x xs. (x, xs, [], xs, refl, refl);
}

two_marked :
    mark platform (str (text "b")) (str (text "a") ∷ []) ≡ ok (str (text "a") ∷ str (text "b") ∷ [])
unfolding mark text_eq
two_marked = refl

-- A nonce with a line separator (U+2028), which JSON leaves as it is.
abbrev nonce_unit : Fields
nonce_unit = field "wu_id" (str (text "wu-1")) (field "nonce" (str (8232 ∷ [])) end)

abbrev broken_file : TextFile
broken_file = some (dumps (dict nonce_unit) ++ 10 ∷ [])

written : persist_seen platform nonce_unit none ≡ returned tt broken_file
unfolding persist_seen dumps get utf8
written = refl

broken_line : BrokenLine platform (dict (seen_record platform nonce_unit))
unfolding seen_record get dumps loads is_break strip
broken_line = record {
  before = text "{\"wu_id\":\"wu-1\",\"nonce\":\"";
  separator = 8232;
  after = text "\",}";
  split = refl;
  breaks = refl;
  not_cr = refl;
  before_plain = refl;
  after_plain = refl;
  before_kept = refl;
  after_kept = refl;
  before_fails = refl;
  after_fails = refl;
}

load_seen-persist_seen_broken_example : load_seen platform broken_file ≡ load_seen platform none
unfolding get
load_seen-persist_seen_broken_example =
    load_seen-persist_seen_broken platform nonce_unit none broken_file (inl refl) broken_line refl
      written

abbrev new_file : TextFile
new_file = some (dumps (dict (seen_record platform work_unit)) ++ 10 ∷ [])

stored : persist_seen platform work_unit none ≡ returned tt new_file
unfolding persist_seen dumps get utf8 seen_record
stored = refl

plain_line : PlainLine platform (dict (seen_record platform work_unit))
unfolding seen_record get dumps loads is_break strip text_eq
plain_line = record { one_line = refl; stripped = refl; nonempty = refl; parses = refl }
