-- ===== src/Cli/Tests.antt =====
-- A machine on which the edge accepts every request.
use lustro_node_agent.Base.{pos, ◌≡◌, ◌⊎◌, inl, leb, ◌++◌, refl, true, false, none, some, [], ◌∷◌}
use mathlib.Core.List.{map}
use lustro_node_agent.Base.Text.{Text, Bytes, text, text_eq, utf8}
use lustro_node_agent.Base.Result.{ok}
use lustro_node_agent.Base.Exec.{returned, final}
use lustro_node_agent.Keys.{
  file, KeyLibrary, ensure_keypair, load_private, parse_private, read_bytes, exists,
}
use lustro_node_agent.Cli.{
  Agent, Machine, RunArgs, edge_of, ensure_registered, work, agent_client, cmd_run,
}
use lustro_node_agent.Cli.Closed.{model_of, Vouched, cmd_run-closed}
use lustro_node_agent.Cli.Dump.{cmd_dump_log, cmd_dump_log-append}
use lustro_node_agent.Classifier.Model.{Artifact, model_classifier}
use lustro_node_agent.JobLog.Tests.{parsing, entry, log, plain_entry, appended}
use lustro_node_agent.Cli.Registered.{cmd_run-registered}
use lustro_node_agent.Cli.Run.Outcomes.{Idle, Stops, Session}
use lustro_node_agent.Cli.Run.{cmd_run-Session}
use lustro_node_agent.Cli.Serve.{
  ServeArgs, Sockets, bound, default_port, warned, is_local, host_of, cmd_serve_log,
}
use lustro_node_agent.Samples.{platform, fresh_node, http, urlparse, starts_with, dumps}
use lustro_node_agent.Client.{Response, answered}
use lustro_node_agent.Client.Wire.{
  validate_http_client, check_method, using_client, send, log_entry,
}
use lustro_node_agent.Client.Pull.{
  pull_and_process, pull_with, stream_callable, handle_pulled, pull_url,
}
use lustro_node_agent.Egress.{make_guard, check, request_host, netloc_host, allowed_host}
use lustro_node_agent.Seen.{load_seen}
use lustro_node_agent.JobLog
use lustro_node_agent.JobLog.{append_line, read_all}
use lustro_node_agent.Base.Value.{null, set_key}

abbrev plain : KeyLibrary Bytes
plain = record {
  load_pem = λ b. some b;
  to_pem = λ k. k;
  public_bytes_raw = λ k. k;
  sign = λ k m. m;
}

abbrev pub machine : Machine Bytes
machine = record {
  platform = platform;
  keys = plain;
  environ = λ name. none;
  model = ok (λ content lang. ok (record { label = text "factual"; score = 0 }));
  httpx = some http;
  pinned_constant = text "core";
  exn_name = λ e. text "Error";
}

abbrev pub args : RunArgs Bytes
args = record {
  edge = some (text "https://edge");
  stub = true;
  fresh = text "key";
  others = λ e. e;
}

abbrev pub agent : Agent
agent = record { key = file (text "key"); registered = none; node = fresh_node }

cmd_run-Session_example :
    (Idle agent (cmd_run machine args agent) × Stops machine args agent)
    ⊎ Session machine args agent (cmd_run machine args agent)
cmd_run-Session_example = cmd_run-Session machine args agent

abbrev pub sockets : Sockets
sockets = record {
  parse_int = λ t. none;
  environ = λ name. none;
  bind = λ host port. ok tt;
  is_bind_error = λ e. true;
  serve = λ host port. ok tt;
  is_interrupt = λ e. true;
}

abbrev everywhere : ServeArgs
everywhere = record { host = some (text "0.0.0.0"); port = none }

serves :
    cmd_serve_log sockets everywhere []
    ≡ returned 0 (warned (text "0.0.0.0") ∷ bound (text "0.0.0.0") (pos default_port) ∷ [])
unfolding cmd_serve_log host_of is_local text_eq
serves = refl

abbrev no_work : Response
no_work = record { status = 204; chunks = []; fault = none; json = ok null; body_text = [] }

abbrev pub idle : Machine Bytes
idle = record machine { httpx = some (record http { reply = λ past q. answered no_work }) }

abbrev pub registered_agent : Agent
registered_agent = record agent { registered = some (text "key") }

idle_run :
    cmd_run idle args registered_agent ≡ returned 0 (final (cmd_run idle args registered_agent))
unfolding cmd_run edge_of ensure_registered work ensure_keypair load_private parse_private
    read_bytes exists make_guard load_seen urlparse agent_client pull_and_process check request_host
    netloc_host validate_http_client check_method using_client pull_with stream_callable send
    handle_pulled log_entry JobLog.append append_line utf8 text_eq starts_with pull_url allowed_host
    dumps set_key
idle_run = refl

cmd_run-registered_example :
    (k : Text) × ((final (cmd_run idle args registered_agent)).registered ≡ some k)
    × ((registered_agent.registered ≡ none) ⊎ (registered_agent.registered ≡ some k))
cmd_run-registered_example =
    cmd_run-registered idle args registered_agent (final (cmd_run idle args registered_agent))
      idle_run

abbrev missing : Artifact Bytes
missing = record {
  read_text = λ name. none;
  read_bytes = λ name. none;
  reopen = λ name. none;
  sha256_hex = λ b. b;
  imports = ok tt;
  path_exists = λ t. true;
  embedder = λ v dir. ok tt;
  joblib_load = λ b. ok b;
  infer = λ m features content. ok 0;
  to_float = λ v. ok 0;
  zero_point_six = 6;
  zero_point_five = 5;
  at_least = λ a b. leb b a;
  rounded = λ a. a;
}

abbrev real : Machine Bytes
real = record machine {
  model = model_of machine missing (model_classifier platform missing true (λ name. none));
}

abbrev without_stub : RunArgs Bytes
without_stub = record args { stub = false }

cmd_run-closed_example :
    Idle agent (cmd_run real without_stub agent)
    ⊎ ((q : Session real without_stub agent (cmd_run real without_stub agent)) × Vouched real
          missing q.classify)
cmd_run-closed_example = cmd_run-closed real missing true refl without_stub agent refl refl

cmd_dump_log-append_example :
    (line : Text) × (cmd_dump_log parsing (text "joblog.jsonl") log []
      ≡ returned 0 (map parsing.dumps (read_all parsing none) ++ line ∷ []))
    × (log ≡ some ([] ++ (line ++ 10 ∷ [])))
cmd_dump_log-append_example =
    cmd_dump_log-append parsing (text "joblog.jsonl") entry none log (inl refl) plain_entry appended
