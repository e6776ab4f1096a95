-- ===== src/Client/Tests.antt =====
-- Runs of `process_wu` over the sample edge, and the theorems at that input.
use lustro_node_agent.Base.{◌≡◌, ◌≢◌, refl, ap, none, List, inl, length, arith}
use lustro_node_agent.Base.Text.{Text, utf8, text_eq, is_break, strip}
use lustro_node_agent.Base.Value.{Fields, end, dict, get, has_key, set_key, truthy}
use lustro_node_agent.Base.Exec.{Outcome, returned, raised, final}
use lustro_node_agent.Egress.{check, allowed_host}
use lustro_node_agent.CorePin.{
  verify_wu_signature, verify_with, load_pinned_public_key, effective_pinned_key, same_id,
}
use lustro_node_agent.Base.Result.{Result, ok, err}
use lustro_node_agent.JobLog
use lustro_node_agent.JobLog.Reading.{PlainLine}
use lustro_node_agent.Seen.{Seen, seen, mark_seen, mark, persist_seen, seen_record, load_seen}
use lustro_node_agent.Client.{Node, Request}
use lustro_node_agent.Client.Wire.{
  validate_http_client, log_entry, send, raise_for_status, using_client,
}
use lustro_node_agent.Client.Payload.{payload_text, payload_lang}
use lustro_node_agent.Client.Validate.{
  as_object, validate_fields, canonical_wu_bytes, decode_core_sig,
}
use lustro_node_agent.Client.Process.{
  result_bytes, result_body, result_url, activity_url, report_activity, is_seen, mark_processed,
  verify_core, admit, submit, processed_entry, classify_and_submit, process_wu,
}
use lustro_node_agent.Client.Process.Admit.{Admitted}
use lustro_node_agent.Client.Process.Processed.{Processed, process_wu-Processed, process_wu-sends}
use lustro_node_agent.Client.Process.Replay.{Refused, process_wu-replay}
use lustro_node_agent.Client.Batch.{is_blank, slice_from, rows_of, byte_lines}
use lustro_node_agent.Client.Ship.{
  ship_logs, ship_url, ship_batch, ship_result, shipped_rows, write_cursor,
}
use lustro_node_agent.Client.Session.{perform, restarted, ship, Reach, here, later, call}
use lustro_node_agent.Client.Session.Replay.{Reach-replay}
use lustro_node_agent.Samples.{platform, client, work_unit, fresh_node, urlparse, dumps, loads}

abbrev value_of : Outcome Node Fields → Fields
value_of (returned a s) = a
value_of (raised e s) = end

unfoldable pub run : Node → Outcome Node Fields
unfolding allowed_host process_wu as_object admit is_seen verify_core seen validate_fields has_key
    get truthy utf8 text_eq canonical_wu_bytes decode_core_sig verify_wu_signature verify_with
    load_pinned_public_key effective_pinned_key same_id classify_and_submit payload_text
    payload_lang result_bytes result_body result_url check urlparse validate_http_client
    using_client submit send raise_for_status mark_processed mark_seen mark persist_seen seen_record
    report_activity activity_url log_entry JobLog.append set_key processed_entry dumps loads
run s = process_wu platform client (dict work_unit) none s

unfoldable pub after_run : Node
unfolding run
after_run = final (run fresh_node)

pub answer : Fields
unfolding run
answer = value_of (run fresh_node)

-- The run posts the result and then its report, and returns.
run_sends : length after_run.sent ≡ 2
unfolding after_run
run_sends = refl

pub returns :
    process_wu platform client (dict work_unit) none fresh_node ≡ returned answer after_run
unfolding after_run answer
returns = refl

process_wu-Processed_example :
    (fields : Fields) × (dict work_unit ≡ dict fields)
    × Processed platform client fields fresh_node after_run answer
process_wu-Processed_example =
    process_wu-Processed platform client (dict work_unit) none fresh_node returns

sent_something :
    (final (process_wu platform client (dict work_unit) none fresh_node)).sent ≢ fresh_node.sent
unfolding run
sent_something h = absurd (omega (arith, ap (λ (l : List Request). length l) h))

process_wu-sends_example :
    (fields : Fields) × (wu_id : Text) × (dict work_unit ≡ dict fields)
    × Admitted platform client fresh_node fields wu_id
process_wu-sends_example =
    process_wu-sends platform client (dict work_unit) none fresh_node sent_something

process_wu-replay_example : Refused platform client work_unit none after_run
process_wu-replay_example =
    process_wu-replay platform client work_unit work_unit none none fresh_node returns (omega arith)
      refl

pub plain_record : PlainLine platform (dict (seen_record platform work_unit))
unfolding run is_break strip
plain_record = record { one_line = refl; stripped = refl; nonempty = refl; parses = refl }

memory_of : Result Seen → Seen
memory_of (ok m) = m
memory_of (err e) = fresh_node.replay.memory

pub stored : Seen
unfolding after_run
stored = memory_of (load_seen platform after_run.replay.file)

pub stores : load_seen platform after_run.replay.file ≡ ok stored
unfolding after_run stored load_seen memory_of
stores = refl

shipped : Node
unfolding after_run
shipped = perform platform client (ship none) after_run

reloaded : Seen
unfolding shipped
reloaded = memory_of (load_seen platform shipped.replay.file)

loaded : load_seen platform shipped.replay.file ≡ ok reloaded
unfolding shipped reloaded load_seen ship_logs is_blank slice_from rows_of byte_lines ship_url
    ship_batch ship_result shipped_rows write_cursor memory_of
loaded = refl

Reach-shipped : Reach platform client after_run shipped
unfolding shipped
Reach-shipped = later here (call (ship none))

Reach-replay_example :
    Refused platform client work_unit none (restarted platform client reloaded shipped)
Reach-replay_example =
    Reach-replay platform client work_unit work_unit none none fresh_node shipped reloaded returns
      (inl refl) plain_record Reach-shipped loaded refl
