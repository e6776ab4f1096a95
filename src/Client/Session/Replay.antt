-- ===== src/Client/Session/Replay.antt =====
-- Anti-replay over the life of a node.
use lustro_node_agent.Base.{◌≡◌, ap, ◌∙◌, subst, Option}
use lustro_node_agent.Base.Value.{Fields, dict, str, get}
use lustro_node_agent.Base.Result.{ok}
use lustro_node_agent.Base.Exec.{returned}
use lustro_node_agent.Platform.{Platform}
use lustro_node_agent.JobLog.{contents}
use lustro_node_agent.JobLog.Lines.{IsComplete}
use lustro_node_agent.JobLog.Reading.{PlainLine}
use lustro_node_agent.Seen.{Seen, seen_record, load_seen}
use lustro_node_agent.Seen.Lasting.{load_seen-Extends}
use lustro_node_agent.Client.{Http, NodeAgentClient, Node}
use lustro_node_agent.Client.Process.{process_wu}
use lustro_node_agent.Client.Process.Processed.{Processed, process_wu-Processed}
use lustro_node_agent.Client.Process.Replay.{
  Refused, process_wu-seen, Processed-stored, seen-of_member, validate_fields-wu_id, dict-injective,
}
use lustro_node_agent.Client.Session.{Reach, restarted}
use lustro_node_agent.Client.Session.Invariants.{Reach-GrownFrom}

module _ (P : Platform) (C : NodeAgentClient) where
  Processed-Refused :
      (wu wu' : Fields) (http' : Option Http) (s t u : Node) {body : Fields} (m : Seen)
      → Processed P C wu s t body
      → IsComplete (contents s.replay.file)
      → PlainLine P (dict (seen_record P wu))
      → Reach P C t u
      → load_seen P u.replay.file ≡ ok m
      → get "wu_id" wu' ≡ get "wu_id" wu
      → Refused P C wu' http' (restarted P C m u)
  Processed-Refused wu wu' http' s t u m p whole plain r loaded same_id =
      let (ended, stored) = Processed-stored P C wu s t p whole plain in
      let (longer, _) = Reach-GrownFrom P C r ended in
      let found =
        load_seen-Extends P (str p.wu_id) t.replay.file u.replay.file m ended longer loaded
          stored in
      let id = validate_fields-wu_id wu p.wu_id p.admitted.valid in
      process_wu-seen P C wu' http' (restarted P C m u)
        (seen-of_member P m wu' p.wu_id (same_id ∙ id) found)

  -- After `process_wu` has returned, from a file of complete lines and where JSON puts the new record
  -- on one line: however many calls and restarts follow, and whatever the sets evict meanwhile, the
  -- node refuses every work unit with the same id once it is started anew from its file.
  pub Reach-replay :
      (wu wu' : Fields) (http http' : Option Http) (s : Node) {t : Node} (u : Node) {body : Fields}
      (m : Seen)
      → process_wu P C (dict wu) http s ≡ returned body t
      → IsComplete (contents s.replay.file)
      → PlainLine P (dict (seen_record P wu))
      → Reach P C t u
      → load_seen P u.replay.file ≡ ok m
      → get "wu_id" wu' ≡ get "wu_id" wu
      → Refused P C wu' http' (restarted P C m u)
  Reach-replay wu wu' http http' s {t} u m e whole plain r loaded same_id =
      let (fields, same, p) = process_wu-Processed P C (dict wu) http s e in
      let known = subst (λ x. PlainLine P (dict (seen_record P x))) (dict-injective same) plain in
      Processed-Refused fields wu' http' s t u m p whole known r loaded
        (same_id ∙ ap (get "wu_id") (dict-injective same))
