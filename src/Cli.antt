-- ===== src/Cli.antt =====
-- node_agent/cli.py: the commands, with their exit codes and what they do to the state directory.
-- What `run` and `leave` print is not kept.
pub mod Run
pub mod Registered
pub mod Leave
pub mod Closed
pub mod Dump
pub mod Main
pub mod Serve
pub mod Tests
use lustro_node_agent.Base.{ℕ, Bool, true, false, Option, none, some, List, [], if◌then◌else◌}
use lustro_node_agent.Base.Text.{Text, Bytes, is_empty}
use lustro_node_agent.Base.Value.{Fields}
use lustro_node_agent.Base.Result.{Exn, Result, ok, err, runtime_error}
use lustro_node_agent.Base.Exec.{Outcome, Exec, returned, raised, pure, raise, lift, ◌>>=◌, ◌>>◌}
use lustro_node_agent.Platform.{Platform}
use lustro_node_agent.CorePin.{Environ}
use lustro_node_agent.Egress.{EgressGuard, make_guard}
use lustro_node_agent.JobLog
use lustro_node_agent.JobLog.{TextFile}
use lustro_node_agent.Keys.{Entry, KeyLibrary, ensure_keypair, public_key_raw_b64}
use lustro_node_agent.Seen.{Seen, load_seen}
use lustro_node_agent.Classifier.{stub_classify}
use lustro_node_agent.Client.{Http, Classification, NodeAgentClient, Node}
use lustro_node_agent.Client.Wire.{is_present}
use lustro_node_agent.Client.Register.{register_agent}
use lustro_node_agent.Client.Pull.{pull_and_process}

-- A state directory and a process that works in it.
pub record Agent : Type 0 where
  pub key : Entry
  -- The file `registered`
  pub registered : TextFile
  pub node : Node

abbrev pub Classify : Type 0
Classify = Text → Option Text → Result Classification

-- What a process is given: libraries, the environment, and what `ModelClassifier()` gives.
pub record Machine (K : Type 0) : Type 0 where
  pub platform : Platform
  pub keys : KeyLibrary K
  pub environ : Environ
  pub model : Result Classify
  pub httpx : Option Http
  pub pinned_constant : Text
  pub exn_name : Exn → Text

-- The arguments of `run`, the key that `generate` would return, and what others do to the key path
-- meanwhile.
pub record RunArgs (K : Type 0) : Type 0 where
  pub edge : Option Text
  pub stub : Bool
  pub fresh : K
  pub others : Entry → Entry

-- `os.environ.get(name, "")`
abbrev pub text_or_empty : Option Text → Text
text_or_empty none = []
text_or_empty (some t) = t

-- `given or fallback`
abbrev pub given_or : Option Text → Text → Text
given_or none fallback = fallback
given_or (some t) fallback = if is_empty t then fallback else t

module _ {K : Type 0} (M : Machine K) where
  unfoldable pub edge_of : Option Text → Text
  edge_of given = given_or given (text_or_empty (M.environ "LUSTRO_NODE_EDGE_URL"))

  unfoldable pub agent_client : K → EgressGuard → Classify → NodeAgentClient
  agent_client key guard classify = record {
    egress = guard;
    classify = classify;
    public_key_raw_b64 = public_key_raw_b64 M.keys M.platform key;
    sign = M.keys.sign key;
    journal = JobLog.append M.platform;
    participant_token = text_or_empty (M.environ "LUSTRO_NODE_TOKEN");
    pinned_constant = M.pinned_constant;
    environ = M.environ;
    httpx = M.httpx;
    exn_name = M.exn_name;
  }

  abbrev pub settle_key : {A : Type 0} → Agent → Outcome Entry A → Outcome Agent A
  settle_key s (returned a e) = returned a (record s { key = e })
  settle_key s (raised x e) = raised x (record s { key = e })

  abbrev pub settle_node : {A : Type 0} → Agent → Outcome Node A → Outcome Agent A
  settle_node s (returned a n) = returned a (record s { node = n })
  settle_node s (raised e n) = raised e (record s { node = n })

  abbrev pub load_key : RunArgs K → Exec Agent K
  load_key args s = settle_key s (ensure_keypair M.keys args.fresh args.others s.key)

  abbrev pub start : Seen → Exec Agent (Unit {0})
  start seen s =
      returned tt
        (record s { node = record s.node { replay = record s.node.replay { memory = seen } } })

  -- `_load_seen` of the new client
  abbrev pub load_sets : Exec Agent (Unit {0})
  load_sets s = (do seen ← lift (load_seen M.platform s.node.replay.file); start seen) s

  -- The `try` around the registration, whose `except Exception` ends the command.
  abbrev pub settle_registration : K → Agent → Outcome Node (Unit {0}) → Outcome Agent Bool
  settle_registration key s (returned _ n) =
      returned true
        (record s { registered = some (public_key_raw_b64 M.keys M.platform key); node = n })
  settle_registration key s (raised e n) = returned false (record s { node = n })

  abbrev pub register_with : NodeAgentClient → Node → Outcome Node (Unit {0})
  register_with C n =
      register_agent M.platform C none (text_or_empty (M.environ "LUSTRO_NODE_INVITE_TOKEN")) n

  unfoldable pub ensure_registered : K → NodeAgentClient → Exec Agent Bool
  ensure_registered key C s =
      if is_present s.registered
      then returned true s
      else settle_registration key s (register_with C s.node)

  abbrev pub pull_once : NodeAgentClient → Exec Agent (Option Fields)
  pull_once C s = settle_node s (pull_and_process M.platform C none s.node)

  -- `cmd_run` from the registration on
  unfoldable pub work : K → NodeAgentClient → Bool → Exec Agent ℕ
  work key C false = pure 2
  work key C true = do pull_once C; pure 0

  abbrev pub classifier_of : Bool → Result Classify
  classifier_of stub = if stub then ok stub_classify else M.model

  abbrev pub is_runtime_error : Exn → Bool
  is_runtime_error runtime_error = true
  is_runtime_error _ = false

  -- From the loaded sets on
  abbrev pub run_client : K → NodeAgentClient → Exec Agent ℕ
  run_client key C = do load_sets; is_registered ← ensure_registered key C; work key C is_registered

  -- From the classifier on
  abbrev pub run_with : K → Text → Result Classify → Exec Agent ℕ
  run_with key edge (ok classify) = do
    guard ← lift (make_guard M.platform edge)
    run_client key (agent_client key guard classify)
  run_with key edge (err e) = if is_runtime_error e then pure 2 else raise e

  -- `cmd_run`
  unfoldable pub cmd_run : RunArgs K → Exec Agent ℕ
  unfolding edge_of ensure_registered work
  cmd_run args =
      if is_empty (edge_of args.edge)
      then pure 2
      else do key ← load_key args; run_with key (edge_of args.edge) (classifier_of args.stub)
