-- ===== src/Client/Process/Lasting.antt =====
-- The anti-replay record of a processed work unit, in a file that has grown since.
use lustro_node_agent.Base.{◌≡◌, ◌∙◌, sym, ap, subst, true, Option}
use lustro_node_agent.Base.Value.{dict, Fields, str, get}
use lustro_node_agent.Base.Result.{ok}
use lustro_node_agent.Base.Exec.{returned}
use lustro_node_agent.Platform.{Platform}
use lustro_node_agent.JobLog.{TextFile, contents}
use lustro_node_agent.JobLog.Lines.{IsComplete}
use lustro_node_agent.JobLog.Growing.{GrownFrom}
use lustro_node_agent.JobLog.Reading.{PlainLine}
use lustro_node_agent.Seen.{Seen, seen_record, seen, load_seen}
use lustro_node_agent.Seen.Lasting.{load_seen-Extends}
use lustro_node_agent.Client.{Http, NodeAgentClient, Node}
use lustro_node_agent.Client.Process.{process_wu}
use lustro_node_agent.Client.Process.Processed.{process_wu-Processed}
use lustro_node_agent.Client.Process.Replay.{
  Refused, process_wu-seen, seen-of_member, Processed-stored, validate_fields-wu_id, dict-injective,
}

module _ (P : Platform) (C : NodeAgentClient) (wu : Fields) (http : Option Http) (s : Node)
    {t : Node} {body : Fields} (e : process_wu P C (dict wu) http s ≡ returned body t)
    (whole : IsComplete (contents s.replay.file))
    (plain : PlainLine P (dict (seen_record P wu))) where
  -- After `process_wu` has returned, from a file of complete lines and where JSON puts the new record
  -- on one line, the file is again of complete lines.
  pub process_wu-IsComplete : IsComplete (contents t.replay.file)
  process_wu-IsComplete =
      let (fields, same, p) = process_wu-Processed P C (dict wu) http s e in
      let known = subst (λ x. PlainLine P (dict (seen_record P x))) (dict-injective same) plain in
      (Processed-stored P C fields s t p whole known).0

  -- A client that loads a file which has grown from that one refuses every work unit with its id.
  pub process_wu-grown :
      (C' : NodeAgentClient) (wu' : Fields) (http' : Option Http) (file : TextFile) (m : Seen)
      (n : Node)
      → GrownFrom (contents t.replay.file) file
      → load_seen P file ≡ ok m
      → n.replay.memory ≡ m
      → get "wu_id" wu' ≡ get "wu_id" wu
      → Refused P C' wu' http' n
  process_wu-grown C' wu' http' file m n (longer, _) loaded started same_id =
      let (fields, same, p) = process_wu-Processed P C (dict wu) http s e in
      let known = subst (λ x. PlainLine P (dict (seen_record P x))) (dict-injective same) plain in
      let (ended, stored) = Processed-stored P C fields s t p whole known in
      let id = validate_fields-wu_id fields p.wu_id p.admitted.valid in
      let same_wu = same_id ∙ ap (get "wu_id") (dict-injective same) ∙ id in
      let found =
        load_seen-Extends P (str p.wu_id) t.replay.file file m ended longer loaded stored in
      process_wu-seen P C' wu' http' n (
        subst (λ (q : Seen). seen P q wu' ≡ ok true) (sym started)
          (seen-of_member P m wu' p.wu_id same_wu found))
