-- ===== src/Client/Process/Activity.antt =====
-- `_report_activity` makes at most one request, and leaves the anti-replay record alone.
use lustro_node_agent.Base.{◌≡◌}
use lustro_node_agent.Base.Text.{Text}
use lustro_node_agent.Base.Result.{Result, ok, err}
use lustro_node_agent.Base.Exec.{
  Keeps, Keeps-bind, Keeps-bind-lift, Keeps-if, Keeps-raise, Keeps-pure,
}
use lustro_node_agent.Platform.{Platform}
use lustro_node_agent.Egress.{check}
use lustro_node_agent.Client.{Request, Http, NodeAgentClient, Node}
use lustro_node_agent.Client.Wire.Keeps.{
  AllowsLog, AllowsRequest, Keeps-log_entry, Keeps-attempt, Keeps-send, Keeps-raise_for_status,
}
use lustro_node_agent.Client.Process.{
  activity_url, activity_request, activity_outcome, deliver, report_activity,
}

module _ (P : Platform) (C : NodeAgentClient) {I : Node → Type 0} (ignores : AllowsLog C I) where
  pub deliver-Keeps : (h : Http) (q : Request) → AllowsRequest I q → Keeps I (deliver P C h q)
  deliver-Keeps h q allows =
      Keeps-bind _ _ (Keeps-send C h q allows)
        λ r. Keeps-bind _ _ (Keeps-raise_for_status C h r) (λ _. Keeps-pure r)

  activity_outcome-Keeps :
      (wu_id : Text) (r : Result (Unit {0})) → Keeps I (activity_outcome P C wu_id r)
  unfolding activity_outcome
  activity_outcome-Keeps wu_id (ok _) = Keeps-log_entry C ignores _
  activity_outcome-Keeps wu_id (err e) =
      Keeps-if _ _ _ (Keeps-log_entry C ignores _) (Keeps-raise e)

  pub report_activity-Keeps :
      (wu_id : Text) (h : Http)
      → ((url : Text)
          → check P C.egress (activity_url P C) ≡ ok url
          → AllowsRequest I (activity_request P C url wu_id))
      → Keeps I (report_activity P C wu_id h)
  unfolding report_activity
  report_activity-Keeps wu_id h allows = Keeps-if _ _ _ (Keeps-pure tt) (
      Keeps-bind-lift _ _ λ url passed.
        Keeps-bind _ _
          (Keeps-attempt _
            (Keeps-bind _ _ (deliver-Keeps h _ (allows url passed)) (λ _. Keeps-pure tt)))
          (activity_outcome-Keeps wu_id))
