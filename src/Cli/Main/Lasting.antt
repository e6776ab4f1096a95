-- ===== src/Cli/Main/Lasting.antt =====
-- The anti-replay record over all runs of the program.
use mathlib.Core.List.{append-nil}
use lustro_node_agent.Base.{
  ℕ, ◌≡◌, ◌≢◌, inl, inr, refl, sym, ap, subst, Bool, true, false, Option, none, some, List, [], ◌∷◌,
  All, if◌then◌else◌,
}
use lustro_node_agent.Base.Text.{Text}
use lustro_node_agent.Base.Value.{dict, Fields, get}
use lustro_node_agent.Base.Result.{ok}
use lustro_node_agent.Base.Exec.{Outcome, returned, raised, final}
use lustro_node_agent.JobLog.{TextFile, contents}
use lustro_node_agent.JobLog.Lines.{IsComplete}
use lustro_node_agent.JobLog.Growing.{Extends-trans, GrownFrom}
use lustro_node_agent.Platform.{Platform}
use lustro_node_agent.Seen.{Seen, seen_record, load_seen}
use lustro_node_agent.Client.{Http, NodeAgentClient, Node}
use lustro_node_agent.Client.Process.Replay.{Refused}
use lustro_node_agent.Client.Process.{process_wu}
use lustro_node_agent.Client.Process.Lasting.{process_wu-IsComplete, process_wu-grown}
use lustro_node_agent.JobLog.Reading.{PlainLine}
use lustro_node_agent.Client.Session.Invariants.{Reach-GrownFrom}
use lustro_node_agent.Cli.{Agent, RunArgs, agent_client, cmd_run}
use lustro_node_agent.Cli.Run.{cmd_run-Session}
use lustro_node_agent.Cli.Run.Calls.{Session-Reach}
use lustro_node_agent.Cli.Leave.{start_of}
use lustro_node_agent.Cli.Serve.{Output}
use lustro_node_agent.Cli.Main.Codes.{start_of-made}
use lustro_node_agent.Cli.Main.{
  Command, run, dump_log, leave, serve_log, Namespace, Host, World, build_parser, run_args,
  settle_run, settle_printed, settle_served, dispatch, exit_or, main,
}

-- The anti-replay file of a state directory
abbrev pub replay_of : Option Agent → TextFile
replay_of d = (start_of d).node.replay.file

-- A run of the program: the host that it finds, with its environment, model and edge, and its
-- arguments
abbrev pub Run : Type 0 → Type 0
Run K = Host K × List Text

module _ {K : Type 0} where
  -- The world after the program has run with each of the hosts and arguments in turn
  abbrev pub run_all : List (Run K) → World → World
  run_all [] w = w
  run_all ((H, argv) ∷ runs) w = run_all runs (final (main H argv w))

  -- The run is not `leave`.
  abbrev pub Stays : Run K → Type 0
  Stays (H, argv) =
      (args : Namespace) → H.parse_args build_parser argv ≡ some args → args.func ≢ leave

Grows : TextFile → TextFile → Type 0
Grows file file' = GrownFrom (contents file) file'

Grows-same : (file file' : TextFile) → IsComplete (contents file) → file' ≡ file → Grows file file'
unfolding Grows
Grows-same file file' whole same =
    subst (GrownFrom (contents file)) (sym same) (([], sym (append-nil _)), whole)

Grows-trans : (a b c : TextFile) → Grows a b → Grows b c → Grows a c
unfolding Grows
Grows-trans a b c (first, _) (second, whole) =
    (Extends-trans (contents a) (contents b) (contents c) first second, whole)

Grows-IsComplete : (a b : TextFile) → Grows a b → IsComplete (contents b)
unfolding Grows
Grows-IsComplete a b (_, whole) = whole

module _ {K : Type 0} (H : Host K) where
  cmd_run-Grows :
      (args : RunArgs K) (s : Agent)
      → IsComplete (contents s.node.replay.file)
      → Grows s.node.replay.file (final (cmd_run H.machine args s)).node.replay.file
  unfolding Grows
  cmd_run-Grows args s whole = elim (cmd_run-Session H.machine args s) [
    | inl (idle, _) ↦
        Grows-same s.node.replay.file _ whole (ap (λ (n : Node). n.replay.file) idle.same_node)
    | inr session ↦
        Reach-GrownFrom H.machine.platform
          (agent_client H.machine session.key session.guard session.classify)
          (Session-Reach H.machine args s _ session) whole
  ]

  settle_run-replay :
      (w : World) (o : Outcome Agent ℕ)
      → replay_of (final (settle_run H w o)).directory ≡ (final o).node.replay.file
  settle_run-replay w (returned n s) = refl
  settle_run-replay w (raised e s) = refl

  settle_printed-replay :
      (w : World) (o : Outcome (List Text) ℕ)
      → replay_of (final (settle_printed H w o)).directory ≡ replay_of w.directory
  settle_printed-replay w (returned n lines) =
      ap (λ (s : Agent). s.node.replay.file) (start_of-made w.directory)
  settle_printed-replay w (raised e lines) =
      ap (λ (s : Agent). s.node.replay.file) (start_of-made w.directory)

  settle_served-replay :
      (w : World) (o : Outcome (List Output) ℕ)
      → replay_of (final (settle_served H w o)).directory ≡ replay_of w.directory
  settle_served-replay w (returned n outputs) = refl
  settle_served-replay w (raised e outputs) = refl

  module _ (w : World) (whole : IsComplete (contents (replay_of w.directory))) where
    run_in-Grows :
        (args : Namespace) (empty : Bool)
        → Grows (replay_of w.directory) (
            replay_of
              (final (
                if empty
                then returned 2 w
                else settle_run H w
                    (cmd_run H.machine (run_args H args) (start_of w.directory)))).directory)
    run_in-Grows args true = Grows-same (replay_of w.directory) _ whole refl
    run_in-Grows args false =
        let o = cmd_run H.machine (run_args H args) (start_of w.directory) in
        subst (Grows (replay_of w.directory)) (sym (settle_run-replay w o))
          (cmd_run-Grows (run_args H args) (start_of w.directory) whole)

    dispatch-Grows :
        (c : Command) (args : Namespace)
        → c ≢ leave
        → Grows (replay_of w.directory) (replay_of (final (dispatch H c args w)).directory)
    unfolding dispatch
    dispatch-Grows run args stays = run_in-Grows args _
    dispatch-Grows dump_log args stays =
        Grows-same (replay_of w.directory) _ whole (settle_printed-replay w _)
    dispatch-Grows leave args stays = absurd (stays refl)
    dispatch-Grows serve_log args stays =
        Grows-same (replay_of w.directory) _ whole (settle_served-replay w _)

    exit_or-Grows :
        (r : Option Namespace)
        → ((args : Namespace) → r ≡ some args → args.func ≢ leave)
        → Grows (replay_of w.directory) (replay_of (final (exit_or H r w)).directory)
    exit_or-Grows none stays = Grows-same (replay_of w.directory) _ whole refl
    exit_or-Grows (some args) stays = dispatch-Grows args.func args (stays args refl)

module _ {K : Type 0} where
  run_all-Grows :
      (runs : List (Run K)) (w : World)
      → All Stays runs
      → IsComplete (contents (replay_of w.directory))
      → Grows (replay_of w.directory) (replay_of (run_all runs w).directory)
  unfolding main
  run_all-Grows [] w stays whole = Grows-same (replay_of w.directory) _ whole refl
  run_all-Grows ((H, argv) ∷ runs) w (first, stays) whole =
      let u = final (main H argv w) in
      let step = exit_or-Grows H w whole (H.parse_args build_parser argv) first in
      Grows-trans (replay_of w.directory) (replay_of u.directory) _ step (
        run_all-Grows runs u stays
          (Grows-IsComplete (replay_of w.directory) (replay_of u.directory) step))

  -- After `process_wu` has returned, from an anti-replay file of complete lines and where JSON puts
  -- the new record on one line, and with the file that it left in the state directory: after any
  -- runs of the program one after another, none of them `leave`, each with its own arguments,
  -- environment, libraries, model and edge, and whatever their exit codes and exceptions, a client
  -- that loads the file refuses every work unit with the same id, and sends nothing for it.
  pub run_all-processed :
      (P : Platform) (C C' : NodeAgentClient) (wu wu' : Fields) (http http' : Option Http)
      (s : Node) {t : Node} {body : Fields} (runs : List (Run K)) (w : World) (m : Seen) (n : Node)
      → process_wu P C (dict wu) http s ≡ returned body t
      → IsComplete (contents s.replay.file)
      → PlainLine P (dict (seen_record P wu))
      → replay_of w.directory ≡ t.replay.file
      → All Stays runs
      → load_seen P (replay_of (run_all runs w).directory) ≡ ok m
      → n.replay.memory ≡ m
      → get "wu_id" wu' ≡ get "wu_id" wu
      → Refused P C' wu' http' n
  unfolding Grows
  run_all-processed P C C' wu wu' http http' s runs w m n e whole plain kept stays loaded started
        same_id =
      let before = ap contents kept in
      let ended = process_wu-IsComplete P C wu http s e whole plain in
      let grown = run_all-Grows runs w stays (subst IsComplete (sym before) ended) in
      process_wu-grown P C wu http s e whole plain C' wu' http'
        (replay_of (run_all runs w).directory) m n
        (subst (λ x. GrownFrom x (replay_of (run_all runs w).directory)) before grown) loaded
        started same_id
