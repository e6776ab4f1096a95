-- ===== src/Cli/Main/Tests.antt =====
-- The program with `serve-log`.
use lustro_node_agent.Seen.{load_seen}
use lustro_node_agent.Keys.{ensure_keypair, load_private, parse_private, read_bytes, exists}
use lustro_node_agent.Cli.{edge_of, ensure_registered, work, agent_client, cmd_run}
use lustro_node_agent.Samples.{urlparse, starts_with, dumps}
use lustro_node_agent.Client.Wire.{
  validate_http_client, check_method, using_client, send, log_entry,
}
use lustro_node_agent.Client.Pull.{
  pull_and_process, pull_with, stream_callable, handle_pulled, pull_url,
}
use lustro_node_agent.Egress.{make_guard, check, request_host, netloc_host, allowed_host}
use lustro_node_agent.JobLog
use lustro_node_agent.JobLog.{append_line}
use lustro_node_agent.Base.Value.{set_key}
use lustro_node_agent.Client.Tests
use lustro_node_agent.Client.Tests.{after_run, returns, plain_record, stored, stores}
use lustro_node_agent.Client.Process.Replay.{Refused}
use lustro_node_agent.Cli.Main.Lasting.{Run, Stays, replay_of, run_all, run_all-processed}
use lustro_node_agent.Samples.{platform, client, fresh_node, work_unit}
use lustro_node_agent.Base.{
  inl, ap, Option, ◌≡◌, ◌⊎◌, refl, false, none, some, [], ◌∷◌, ℕ, Bool, true, List, All,
}
use lustro_node_agent.Base.Text.{Bytes, text, text_eq, utf8}
use lustro_node_agent.Base.Result.{other_error, runtime_error, ok, err}
use lustro_node_agent.Base.Exec.{returned, final}
use lustro_node_agent.Cli.Serve.{is_local, host_of, cmd_serve_log}
use lustro_node_agent.Cli.Leave.Tests.{mounted}
use lustro_node_agent.Cli.Main.{
  Command, Namespace, Host, World, run, serve_log, leave, build_parser, dispatch, main,
}
use lustro_node_agent.Cli.Main.Codes.{Leaves, main-codes}
use lustro_node_agent.Cli.Tests.{machine, idle, agent, registered_agent, sockets}

abbrev serving : Namespace
serving = record {
  func = serve_log;
  text_of = λ name. none;
  int_of = λ name. none;
  flag_of = λ name. false;
}

abbrev host : Host Bytes
host = record {
  machine = machine;
  files = mounted;
  sockets = sockets;
  parse_args = λ parser argv. some serving;
  system_exit = other_error;
  joblog_path = text "joblog.jsonl";
  fresh = text "key";
  others = λ e. e;
}

abbrev world : World
world = record { directory = some agent; printed = []; served = [] }

ended :
    main host (text "serve-log" ∷ []) world
    ≡ returned 0 (final (main host (text "serve-log" ∷ []) world))
unfolding main dispatch cmd_serve_log host_of is_local text_eq
ended = refl

main-codes_example :
    (args : Namespace) × (host.parse_args build_parser (text "serve-log" ∷ []) ≡ some args)
    × ((◌≡◌ {A = ℕ} 0 0) ⊎ (◌≡◌ {A = ℕ} 0 2))
    × Leaves args.func 0 world (final (main host (text "serve-log" ∷ []) world))
main-codes_example = main-codes host (text "serve-log" ∷ []) world ended

abbrev used_world : World
used_world = record world { directory = some (record registered_agent { node = after_run }) }

-- The arguments are those of `run`, and the edge has no work, or it is down.
abbrev running : Bool → Namespace
running stub = record {
  func = run;
  text_of = λ name. some (text "https://edge");
  int_of = λ name. none;
  flag_of = λ name. stub;
}

-- A run with an edge that has no work, one that serves the log, and one whose model does not load
abbrev runs : List (Run Bytes)
runs =
    (record host { machine = idle; parse_args = λ parser argv. some (running true) }, [])
    ∷ (host, text "serve-log" ∷ [])
    ∷ (
      record host {
        machine = record machine { model = err runtime_error };
        parse_args = λ parser argv. some (running false);
      },
      [],
    )
    ∷ []

still_stores : load_seen platform (replay_of (run_all runs used_world).directory) ≡ ok stored
unfolding Tests.run after_run main dispatch cmd_serve_log host_of is_local text_eq cmd_run edge_of
    ensure_registered work ensure_keypair load_private parse_private read_bytes exists make_guard
    load_seen urlparse agent_client pull_and_process check request_host netloc_host
    validate_http_client check_method using_client pull_with stream_callable send handle_pulled
    log_entry JobLog.append append_line utf8 starts_with pull_url allowed_host dumps set_key
still_stores = stores

func_of : Option Namespace → Command
func_of none = leave
func_of (some args) = args.func

stays : All Stays runs
unfolding func_of
stays = (
  λ args h e. cc (ap func_of h),
  (λ args h e. cc (ap func_of h), (λ args h e. cc (ap func_of h), tt)),
)

run_all-processed_example :
    Refused platform client work_unit none
      (record fresh_node { replay = record { memory = stored; file = none } })
run_all-processed_example =
    run_all-processed platform client client work_unit work_unit none none fresh_node runs
      used_world stored (record fresh_node { replay = record { memory = stored; file = none } })
      returns (inl refl) plain_record refl stays still_stores refl refl
