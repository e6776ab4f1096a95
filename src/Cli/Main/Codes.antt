-- ===== src/Cli/Main/Codes.antt =====
-- How the program ends, and which commands leave the state directory alone.
use lustro_node_agent.Base.{
  subst, ℕ, ◌≡◌, ◌⊎◌, inl, inr, refl, Bool, true, false, Option, none, some, List, [], ◌∷◌,
  if◌then◌else◌, ap, arith,
}
use lustro_node_agent.Base.Text.{Text, is_empty}
use lustro_node_agent.Base.Value.{Value}
use lustro_node_agent.Base.Result.{Result, ok, err}
use lustro_node_agent.Base.Exec.{Outcome, returned, raised, pure, raise, settle}
use lustro_node_agent.Client.{NodeAgentClient}
use lustro_node_agent.Egress.{make_guard}
use lustro_node_agent.Platform.{Platform}
use lustro_node_agent.JobLog.{TextFile, read_all}
use lustro_node_agent.Cli.{
  Agent, Machine, RunArgs, Classify, edge_of, agent_client, classifier_of, is_runtime_error,
  load_key, load_sets, ensure_registered, pull_once, work, run_client, run_with, cmd_run,
}
use lustro_node_agent.Cli.Registered.{IsRegistered, cmd_run-registered}
use lustro_node_agent.Cli.Dump.{cmd_dump_log, dump_rows, print_rows}
use lustro_node_agent.Cli.Leave.{FileSystem, settle_removal, cmd_leave, start_of}
use lustro_node_agent.Cli.Serve.{Output}
use lustro_node_agent.Cli.Main.Ends.{
  Ends, Succeeds, Ends-continue, Ends-if, WasBound, EndsBound, cmd_serve_log-Ends,
  cmd_serve_log-EndsBound,
}
use lustro_node_agent.Cli.Main.{
  made, Command, run, dump_log, leave, serve_log, Namespace, Host, World, build_parser, run_args,
  serve_args, settle_run, settle_directory, settle_printed, settle_served, log_of, dispatch,
  exit_or, main,
}

module _ {K : Type 0} (M : Machine K) where
  work-Ends :
      (key : K) (C : NodeAgentClient) (is_registered : Bool) (s : Agent)
      → Ends (work M key C is_registered s)
  unfolding work
  work-Ends key C false s = inr refl
  work-Ends key C true s = Ends-continue (pull_once M C s) (λ _. pure 0) (λ _ _. inl refl)

  run_client-Ends : (key : K) (C : NodeAgentClient) (s : Agent) → Ends (run_client M key C s)
  run_client-Ends key C s =
      Ends-continue (load_sets M s) _
        λ _ t. Ends-continue (ensure_registered M key C t) _ (λ r u. work-Ends key C r u)

  run_with-Ends :
      (key : K) (edge : Text) (r : Result Classify) (s : Agent) → Ends (run_with M key edge r s)
  run_with-Ends key edge (ok classify) s =
      Ends-continue (settle (make_guard M.platform edge) s) _
        (λ guard t. run_client-Ends key (agent_client M key guard classify) t)
  run_with-Ends key edge (err e) s =
      Ends-if (is_runtime_error M e) (pure 2) (raise e) s (inr refl) tt

  cmd_run-Ends : (args : RunArgs K) (s : Agent) → Ends (cmd_run M args s)
  unfolding cmd_run
  cmd_run-Ends args s = Ends-if (is_empty (edge_of M args.edge)) (pure 2) _ s (inr refl) (
      Ends-continue (load_key M args s) _
        (λ key t. run_with-Ends key (edge_of M args.edge) (classifier_of M args.stub) t))

settle_removal-Succeeds :
    (F : FileSystem) (o : Outcome (Option Agent) (Unit {0})) → Succeeds (settle_removal F o)
settle_removal-Succeeds F (returned _ d) = refl
settle_removal-Succeeds F (raised e d) = go (F.is_busy e)
  where
    go : (busy : Bool) → Succeeds {S = Option Agent} (if busy then returned 0 d else raised e d)
    go true = refl
    go false = tt

cmd_leave-Succeeds : (F : FileSystem) (d : Option Agent) → Succeeds (cmd_leave F d)
unfolding cmd_leave
cmd_leave-Succeeds F none = refl
cmd_leave-Succeeds F (some s) = settle_removal-Succeeds F (F.rmtree s)

module _ (P : Platform) where
  print_rows-Succeeds : (rows : List Value) (s : List Text) → Succeeds (print_rows P rows s)
  print_rows-Succeeds [] s = refl
  print_rows-Succeeds (row ∷ rows) s = print_rows-Succeeds rows _

  dump_rows-Succeeds :
      (path : Text) (rows : List Value) (s : List Text) → Succeeds (dump_rows P path rows s)
  dump_rows-Succeeds path [] s = refl
  dump_rows-Succeeds path (row ∷ rows) s = print_rows-Succeeds (row ∷ rows) s

  cmd_dump_log-Succeeds :
      (path : Text) (file : TextFile) (s : List Text) → Succeeds (cmd_dump_log P path file s)
  unfolding cmd_dump_log
  cmd_dump_log-Succeeds path file s = dump_rows-Succeeds path (read_all P file) s

-- What a command that returned `n` leaves of the state directory: `run` with exit code 0 leaves the
-- agent registered, with the text that the file `registered` had, if it was there; `dump-log` may make
-- an empty directory; `leave` has no other exit code than 0; and `serve-log` leaves the directory alone, and ends
-- with code 0 only after the dashboard was bound.
abbrev pub Leaves : Command → ℕ → World → World → Type 0
Leaves run n w u =
    n ≡ 0
    → (k : Text) × ((start_of u.directory).registered ≡ some k)
      × (((start_of w.directory).registered ≡ none) ⊎ ((start_of w.directory).registered ≡ some k))
Leaves dump_log n w u = (n ≡ 0) × (start_of u.directory ≡ start_of w.directory)
Leaves leave n w u = n ≡ 0
Leaves serve_log n w u = (u.directory ≡ w.directory) × (n ≡ 0 → WasBound u.served)

-- How a command ends in the world `w`
EndsIn : Command → World → Outcome World ℕ → Type 0
EndsIn c w (returned n u) = ((n ≡ 0) ⊎ (n ≡ 2)) × Leaves c n w u
EndsIn c w (raised e u) = Unit

pub start_of-made : (d : Option Agent) → start_of (some (made d)) ≡ start_of d
start_of-made none = refl
start_of-made (some s) = refl

module _ {K : Type 0} (H : Host K) where
  settle_run-EndsIn :
      (w : World) (o : Outcome Agent ℕ)
      → Ends o
      → ((t : Agent) → o ≡ returned 0 t → IsRegistered (start_of w.directory) t)
      → EndsIn run w (settle_run H w o)
  unfolding EndsIn
  settle_run-EndsIn w (returned n s) e joins =
      (e, λ success. joins s (ap (λ m. returned m s) success))
  settle_run-EndsIn w (raised x s) e joins = tt

  settle_directory-EndsIn :
      (w : World) (o : Outcome (Option Agent) ℕ)
      → Succeeds o
      → EndsIn leave w (settle_directory H w o)
  unfolding EndsIn
  settle_directory-EndsIn w (returned n d) e = (inl e, e)
  settle_directory-EndsIn w (raised x d) e = tt

  settle_printed-EndsIn :
      (w : World) (o : Outcome (List Text) ℕ)
      → Succeeds o
      → EndsIn dump_log w (settle_printed H w o)
  unfolding EndsIn
  settle_printed-EndsIn w (returned n lines) e = (inl e, (e, start_of-made w.directory))
  settle_printed-EndsIn w (raised x lines) e = tt

  settle_served-EndsIn :
      (w : World) (o : Outcome (List Output) ℕ)
      → Ends o
      → EndsBound o
      → EndsIn serve_log w (settle_served H w o)
  unfolding EndsIn
  settle_served-EndsIn w (returned n outputs) e b = (e, (refl, b))
  settle_served-EndsIn w (raised x outputs) e b = tt

  run_in-EndsIn :
      (args : Namespace) (w : World) (empty : Bool)
      → EndsIn run w (
          if empty
          then returned 2 w
          else settle_run H w (cmd_run H.machine (run_args H args) (start_of w.directory)))
  unfolding EndsIn
  run_in-EndsIn args w true = (inr refl, λ success. absurd (omega (arith, success)))
  run_in-EndsIn args w false =
      settle_run-EndsIn w _ (cmd_run-Ends H.machine (run_args H args) (start_of w.directory))
        (λ t h. cmd_run-registered H.machine (run_args H args) (start_of w.directory) t h)

  dispatch-EndsIn : (c : Command) (args : Namespace) (w : World) → EndsIn c w (dispatch H c args w)
  unfolding dispatch
  dispatch-EndsIn run args w =
      run_in-EndsIn args w (is_empty (edge_of H.machine (args.text_of "edge")))
  dispatch-EndsIn dump_log args w =
      settle_printed-EndsIn w _
        (cmd_dump_log-Succeeds H.machine.platform H.joblog_path (log_of w.directory) w.printed)
  dispatch-EndsIn leave args w =
      settle_directory-EndsIn w _ (cmd_leave-Succeeds H.files w.directory)
  dispatch-EndsIn serve_log args w =
      settle_served-EndsIn w _ (cmd_serve_log-Ends H.sockets (serve_args H args) w.served)
        (cmd_serve_log-EndsBound H.sockets (serve_args H args) w.served)

  exit_or-returned :
      (r : Option Namespace) (w : World) {n : ℕ} {u : World}
      → exit_or H r w ≡ returned n u
      → (args : Namespace) × (r ≡ some args) × ((n ≡ 0) ⊎ (n ≡ 2)) × Leaves args.func n w u
  unfolding EndsIn
  exit_or-returned none w h = cc
  exit_or-returned (some args) w h =
      let (code, leaves) = subst (EndsIn args.func w) h (dispatch-EndsIn args.func args w) in
      (args, refl, code, leaves)

  -- Where the program returns, its arguments were accepted by the parser and its exit code is 0 or 2.
  -- For `dump-log` and `leave` it is 0. After `run` with exit code 0 the file `registered` is there,
  -- and holds what it held before, if it was there; `serve-log` has left the state directory as it
  -- was, and with exit code 0 its last output is that the dashboard was bound; and after `dump-log` a
  -- process that starts finds in the state directory what it would have found before.
  pub main-codes :
      (argv : List Text) (w : World) {n : ℕ} {u : World}
      → main H argv w ≡ returned n u
      → (args : Namespace) × (H.parse_args build_parser argv ≡ some args)
        × ((n ≡ 0) ⊎ (n ≡ 2))
        × Leaves args.func n w u
  unfolding main
  main-codes argv w h = exit_or-returned (H.parse_args build_parser argv) w h
