-- ===== src/Browser/Lasting.antt =====
-- The anti-replay record over every use of a page.
use mathlib.Core.List.{append-nil}
use lustro_node_agent.Base.{◌≡◌, sym, subst, Option, none, some, List, [], ◌∷◌}
use lustro_node_agent.Base.Text.{Text, Bytes}
use lustro_node_agent.Base.Value.{dict, Fields, get}
use lustro_node_agent.Base.Result.{ok}
use lustro_node_agent.Base.Exec.{
  Outcome, returned, raised, final, Keeps, Keeps-pure, Keeps-if, Keeps-bind, Keeps-lift,
}
use lustro_node_agent.JobLog.{contents}
use lustro_node_agent.JobLog.Lines.{IsComplete}
use lustro_node_agent.JobLog.Reading.{PlainLine}
use lustro_node_agent.JobLog.Growing.{GrownFrom, Extends-trans}
use lustro_node_agent.Egress.{make_guard}
use lustro_node_agent.Storage.{clear}
use lustro_node_agent.Seen.{Seen, ReplayStore, seen_record, load_seen}
use lustro_node_agent.Client.{Http, NodeAgentClient, Node}
use lustro_node_agent.Client.Register.{register_agent}
use lustro_node_agent.Client.Pull.{pull_and_process}
use lustro_node_agent.Client.Process.{process_wu}
use lustro_node_agent.Client.Process.Replay.{Refused}
use lustro_node_agent.Client.Process.Lasting.{process_wu-IsComplete, process_wu-grown}
use lustro_node_agent.Client.Session.{Reach, here, later, call, register as registering, pull}
use lustro_node_agent.Client.Session.Invariants.{Reach-GrownFrom}
use lustro_node_agent.Browser.{
  BrowserNode, Page, backend, ensure_client, load_client, in_node, settle_node, set_registered,
  register_once, pubkey, register, run_once, leave, new_node,
}
use lustro_node_agent.Browser.Keeps.{ensure_keyring-Keeps}
use lustro_node_agent.Browser.Shipping.Kept.{ship_logs-returns}
use lustro_node_agent.Browser.Session.{
  Use, registers, runs, asks_pubkey, ships, leaves, reloads, perform, perform_all,
}

module _ (W : Page) (before : Text) where
  -- The anti-replay file of the page holds complete lines, behind the text `before`.
  Grown : BrowserNode → Type 0
  Grown s = GrownFrom before s.node.replay.file

  settle_node-Grown :
      {A : Type 0} (s : BrowserNode) (o : Outcome Node A)
      → GrownFrom before (final o).replay.file
      → Grown (final (settle_node W s o))
  unfolding Grown
  settle_node-Grown s (returned a n) g = g
  settle_node-Grown s (raised e n) g = g

  Reach-Grown :
      (C : NodeAgentClient) (s t : Node)
      → Reach W.platform C s t
      → GrownFrom before s.replay.file
      → GrownFrom before t.replay.file
  Reach-Grown C s t r (first, whole) =
      let (second, ended) = Reach-GrownFrom W.platform C r whole in
      (Extends-trans before (contents s.replay.file) (contents t.replay.file) first second, ended)

  registers-Keeps :
      (C : NodeAgentClient)
      → Keeps Grown (in_node W (register_agent W.platform C (some (backend W)) []))
  unfolding Grown
  registers-Keeps C = record {
    at = λ s g.
        settle_node-Grown s (register_agent W.platform C (some (backend W)) [] s.node)
          (Reach-Grown C s.node _ (later here (call (registering (some (backend W)) []))) g);
  }

  pulls-Keeps :
      (C : NodeAgentClient)
      → Keeps Grown (in_node W (pull_and_process W.platform C (some (backend W))))
  unfolding Grown
  pulls-Keeps C = record {
    at = λ s g.
        settle_node-Grown s (pull_and_process W.platform C (some (backend W)) s.node)
          (Reach-Grown C s.node _ (later here (call (pull (some (backend W))))) g);
  }

  load_client-Keeps : (fresh : Bytes) → Keeps Grown (load_client W fresh)
  unfolding Grown
  load_client-Keeps fresh =
      Keeps-bind _ _ (ensure_keyring-Keeps W (λ s ring seed messages g. g) fresh) λ ring.
        Keeps-bind _ _ (Keeps-lift (make_guard W.platform W.edge)) λ guard. record {
          at = λ s.
              (Keeps-bind {I = Grown} _ _ (Keeps-lift (load_seen W.platform s.node.replay.file))
                  λ seen. record { at = λ t g. g }).at
                s;
        }

  client_or_load :
      (fresh : Bytes) (client : Option NodeAgentClient) (s : BrowserNode)
      → Grown s
      → Grown (final (elim client [ some C ↦ returned C s | none ↦ load_client W fresh s ]))
  client_or_load fresh (some C) s g = g
  client_or_load fresh none s g = (load_client-Keeps fresh).at s g

  ensure_client-Keeps : (fresh : Bytes) → Keeps Grown (ensure_client W fresh)
  unfolding ensure_client
  ensure_client-Keeps fresh = record { at = λ s. client_or_load fresh s.client s }

  set_registered-Keeps : Keeps Grown (set_registered W)
  unfolding Grown
  set_registered-Keeps = record { at = λ s g. g }

  register_once-Keeps : (C : NodeAgentClient) → Keeps Grown (register_once W C)
  register_once-Keeps C = record {
    at = λ s.
        (Keeps-if s.registered _ _ (Keeps-pure tt)
            (Keeps-bind _ _ (registers-Keeps C) (λ _. set_registered-Keeps))).at
          s;
  }

  pubkey-Keeps : (fresh : Bytes) → Keeps Grown (pubkey W fresh)
  unfolding pubkey Grown
  pubkey-Keeps fresh =
      Keeps-bind _ _ (ensure_keyring-Keeps W (λ s ring seed messages g. g) fresh)
        (λ ring. Keeps-pure _)

  perform-Grown : (u : Use) (s : BrowserNode) → Grown s → Grown (perform W u s)
  unfolding register run_once leave new_node clear Grown
  perform-Grown (registers fresh) s g =
      (Keeps-bind {I = Grown} _ _ (ensure_client-Keeps fresh) λ C.
          Keeps-bind _ _ (registers-Keeps C)
            λ _. Keeps-bind _ _ set_registered-Keeps (λ _. pubkey-Keeps fresh)).at
        s g
  perform-Grown (runs fresh) s g =
      (Keeps-bind {I = Grown} _ _ (ensure_client-Keeps fresh)
          λ C. Keeps-bind _ _ (register_once-Keeps C) (λ _. pulls-Keeps C)).at
        s g
  perform-Grown (asks_pubkey fresh) s g = (pubkey-Keeps fresh).at s g
  perform-Grown (ships fresh) s g =
      let (t, returns, kept) = ship_logs-returns W fresh s in
      rw (returns) (subst (λ (r : ReplayStore). GrownFrom before r.file) (sym kept.replay) g)
  perform-Grown leaves s g = g
  perform-Grown reloads s g = g

  perform_all-Grown : (uses : List Use) (s : BrowserNode) → Grown s → Grown (perform_all W uses s)
  perform_all-Grown [] s g = g
  perform_all-Grown (u ∷ uses) s g = perform_all-Grown uses (perform W u s) (perform-Grown u s g)

module _ (W : Page) where
  -- After `process_wu` has returned, from an anti-replay file of complete lines and where JSON puts
  -- the new record on one line, and with the file that it left in the page: after any uses of the
  -- page, `leave` and new nodes among them, a client that loads the file refuses every work unit with
  -- the same id, and sends nothing for it.
  pub perform_all-processed :
      (C C' : NodeAgentClient) (wu wu' : Fields) (http http' : Option Http) (s : Node) {t : Node}
      {body : Fields} (uses : List Use) (b : BrowserNode) (m : Seen) (n : Node)
      → process_wu W.platform C (dict wu) http s ≡ returned body t
      → IsComplete (contents s.replay.file)
      → PlainLine W.platform (dict (seen_record W.platform wu))
      → b.node.replay.file ≡ t.replay.file
      → load_seen W.platform (perform_all W uses b).node.replay.file ≡ ok m
      → n.replay.memory ≡ m
      → get "wu_id" wu' ≡ get "wu_id" wu
      → Refused W.platform C' wu' http' n
  unfolding Grown
  perform_all-processed C C' wu wu' http http' s {t} uses b m n e whole plain kept loaded started
        same_id =
      let P = W.platform in
      let before = contents t.replay.file in
      let ended = process_wu-IsComplete P C wu http s e whole plain in
      let start : GrownFrom before b.node.replay.file =
        subst (GrownFrom before) (sym kept) (([], sym (append-nil before)), ended) in
      process_wu-grown P C wu http s e whole plain C' wu' http'
        (perform_all W uses b).node.replay.file m n (perform_all-Grown W before uses b start) loaded
        started same_id
