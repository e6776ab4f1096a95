-- ===== src/Cli/Main.antt =====
-- `build_parser` and `main` of node_agent/cli.py, over `argparse`. The world of a command is the state
-- directory, if it is there, and what is printed and served.
pub mod Ends
pub mod Codes
pub mod Lasting
mod Tests
use lustro_node_agent.Base.{ℕ, ℤ, String, Bool, Option, none, some, List, [], ◌∷◌, if◌then◌else◌}
use lustro_node_agent.Base.Text.{Text, is_empty}
use lustro_node_agent.Base.Exec.{Outcome, Exec, returned, raised}
use lustro_node_agent.Base.Result.{Exn}
use lustro_node_agent.JobLog.{TextFile}
use lustro_node_agent.Keys.{Entry}
use lustro_node_agent.Cli.{Agent, Machine, RunArgs, edge_of, cmd_run}
use lustro_node_agent.Cli.Dump.{cmd_dump_log}
use lustro_node_agent.Cli.Leave.{FileSystem, cmd_leave, new_agent, start_of}
use lustro_node_agent.Cli.Serve.{ServeArgs, Sockets, Output, cmd_serve_log}

-- The command that `set_defaults(func=…)` names
pub data Command : Type 0 where
  run dump_log leave serve_log : Command

-- What `add_argument` says of an option
pub data Kind : Type 0 where
  takes_text takes_int store_true : Kind

pub record Argument : Type 0 where
  pub name : String
  pub kind : Kind

pub record SubParser : Type 0 where
  pub name : String
  pub arguments : List Argument
  pub func : Command

-- `build_parser`
unfoldable pub build_parser : List SubParser
build_parser =
    record {
      name = "run";
      arguments =
          record { name = "--edge"; kind = takes_text }
          ∷ record { name = "--stub"; kind = store_true }
          ∷ [];
      func = run;
    }
    ∷ record { name = "dump-log"; arguments = []; func = dump_log }
    ∷ record { name = "leave"; arguments = []; func = leave }
    ∷ record {
      name = "serve-log";
      arguments =
          record { name = "--host"; kind = takes_text }
          ∷ record { name = "--port"; kind = takes_int }
          ∷ record { name = "--no-open"; kind = store_true }
          ∷ [];
      func = serve_log;
    }
    ∷ []

-- What `parse_args` gives. An option that was not given has no text, no number and no flag.
pub record Namespace : Type 0 where
  pub func : Command
  pub text_of : String → Option Text
  pub int_of : String → Option ℤ
  pub flag_of : String → Bool

-- The libraries, and what they give in this run of the program
pub record Host (K : Type 0) : Type 0 where
  pub machine : Machine K
  pub files : FileSystem
  pub sockets : Sockets
  -- `parser.parse_args(argv)`: `none` is that it exits, with a usage message.
  pub parse_args : List SubParser → List Text → Option Namespace
  pub system_exit : Exn
  pub joblog_path : Text
  -- The key that `generate` would return, and what others do to the key path meanwhile
  pub fresh : K
  pub others : Entry → Entry

pub record World : Type 0 where
  pub directory : Option Agent
  pub printed : List Text
  pub served : List Output

-- The job log of a state directory
abbrev pub log_of : Option Agent → TextFile
log_of none = none
log_of (some s) = s.node.job_log

abbrev pub made : Option Agent → Agent
made none = new_agent
made (some s) = s

module _ {K : Type 0} (H : Host K) where
  abbrev pub run_args : Namespace → RunArgs K
  run_args args = record {
    edge = args.text_of "edge";
    stub = args.flag_of "stub";
    fresh = H.fresh;
    others = H.others;
  }

  abbrev pub serve_args : Namespace → ServeArgs
  serve_args args = record { host = args.text_of "host"; port = args.int_of "port" }

  abbrev pub settle_run : World → Outcome Agent ℕ → Outcome World ℕ
  settle_run w (returned n s) = returned n (record w { directory = some s })
  settle_run w (raised e s) = raised e (record w { directory = some s })

  -- Without an edge the directory is not touched.
  abbrev pub run_in : Namespace → Exec World ℕ
  run_in args w =
      if is_empty (edge_of H.machine (args.text_of "edge"))
      then returned 2 w
      else settle_run w (cmd_run H.machine (run_args args) (start_of w.directory))

  abbrev pub settle_directory : World → Outcome (Option Agent) ℕ → Outcome World ℕ
  settle_directory w (returned n d) = returned n (record w { directory = d })
  settle_directory w (raised e d) = raised e (record w { directory = d })

  -- `JobLog(…)` makes the directory.
  abbrev pub settle_printed : World → Outcome (List Text) ℕ → Outcome World ℕ
  settle_printed w (returned n lines) =
      returned n (record w { directory = some (made w.directory); printed = lines })
  settle_printed w (raised e lines) =
      raised e (record w { directory = some (made w.directory); printed = lines })

  abbrev pub settle_served : World → Outcome (List Output) ℕ → Outcome World ℕ
  settle_served w (returned n outputs) = returned n (record w { served = outputs })
  settle_served w (raised e outputs) = raised e (record w { served = outputs })

  -- `args.func(args)`
  unfoldable pub dispatch : Command → Namespace → Exec World ℕ
  dispatch run args w = run_in args w
  dispatch dump_log args w =
      settle_printed w
        (cmd_dump_log H.machine.platform H.joblog_path (log_of w.directory) w.printed)
  dispatch leave args w = settle_directory w (cmd_leave H.files w.directory)
  dispatch serve_log args w = settle_served w (cmd_serve_log H.sockets (serve_args args) w.served)

  abbrev pub exit_or : Option Namespace → Exec World ℕ
  exit_or none w = raised H.system_exit w
  exit_or (some args) w = dispatch args.func args w

  -- `main`
  unfoldable pub main : List Text → Exec World ℕ
  unfolding build_parser dispatch
  main argv = exit_or (H.parse_args build_parser argv)
