-- ===== src/Cli/Run.antt =====
-- `run` is one session of the client that it makes: the anti-replay file loaded, a registration where
-- there was none, and one pull.
pub mod Outcomes
pub mod Calls
use lustro_node_agent.Base.{
  ℕ, ◌≡◌, ◌≢◌, ◌⊎◌, inl, inr, refl, sym, subst, Bool, if◌then◌else◌, true, false, none, some, arith,
}
use lustro_node_agent.Base.Text.{Text, is_empty}
use lustro_node_agent.Base.Result.{Exn, Result, ok, err, Result-cases, ok-injective, runtime_error}
use lustro_node_agent.Base.Exec.{
  Outcome, returned, raised, final, pure, raise, continue, ◌>>=◌, returned-injective,
}
use lustro_node_agent.JobLog.{TextFile}
use lustro_node_agent.Keys.{Entry, ensure_keypair, public_key_raw_b64}
use lustro_node_agent.Egress.{EgressGuard, make_guard}
use lustro_node_agent.Seen.{Seen, load_seen}
use lustro_node_agent.Classifier.{stub_classify}
use lustro_node_agent.Client.{NodeAgentClient, Node}
use lustro_node_agent.Client.Session.{register, pull, Reach, here, later, call, restart, restarted}
use lustro_node_agent.Client.Wire.{is_present}
use lustro_node_agent.Client.Register.{register_agent}
use lustro_node_agent.Client.Pull.{pull_and_process}
use lustro_node_agent.Cli.{
  text_or_empty, register_with, is_runtime_error, settle_key, classifier_of, load_key, Agent,
  Machine, RunArgs, Classify, edge_of, agent_client, ensure_registered, settle_registration,
  settle_node, work, run_client, run_with, cmd_run,
}
use lustro_node_agent.Cli.Run.Outcomes.{
  exit_of, Idle, registration, Worked, refused, joined, known, Stops, no_edge, no_key, no_model,
  bad_edge, bad_record, Session,
}

module _ {K : Type 0} (M : Machine K) where
  settle_node-exit :
      {A : Type 0} (s : Agent) (o : Outcome Node A)
      → continue (settle_node M s o) (λ _. pure 0) ≡ exit_of s o
  settle_node-exit s (returned a n) = refl
  settle_node-exit s (raised e n) = refl

  module _ (key : K) (C : NodeAgentClient) (s : Agent) where
    registered_or_not :
        (o : Outcome Node (Unit {0}))
        → s.registered ≡ none
        → registration M C s.node ≡ o
        → Worked M key C s (continue (settle_registration M key s o) (work M key C))
    unfolding work
    registered_or_not (returned _ n) missing tried =
        let t : Agent = record s {
          registered = some (public_key_raw_b64 M.keys M.platform key);
          node = n;
        } in
        joined n missing tried (settle_node-exit t (pull_and_process M.platform C none n))
    registered_or_not (raised e n) missing tried = refused e n missing tried refl

    worked_from :
        (before : TextFile)
        → s.registered ≡ before
        → Worked M key C s (
            continue
              (if is_present before
                then returned true s
                else settle_registration M key s (register_with M C s.node))
              (work M key C))
    unfolding work
    worked_from none missing = registered_or_not (register_with M C s.node) missing refl
    worked_from (some k) there =
        known k there (settle_node-exit s (pull_and_process M.platform C none s.node))

    run_registered : Worked M key C s (continue (ensure_registered M key C s) (work M key C))
    unfolding ensure_registered
    run_registered = worked_from s.registered refl

  stopped : (s : Agent) (e : Exn) (stops : Bool) → Idle s ((if stops then pure 2 else raise e) s)
  stopped s e true = record {
    same_node = refl;
    same_registered = refl;
    fails = λ t h. absurd (omega (arith, returned-injective h));
  }
  stopped s e false = record { same_node = refl; same_registered = refl; fails = λ t h. cc }

  classifier_of-chosen :
      (stub : Bool) (c : Classify)
      → classifier_of M stub ≡ ok c
      → ((stub ≡ true) × (c ≡ stub_classify)) ⊎ ((stub ≡ false) × (M.model ≡ ok c))
  classifier_of-chosen true c h = inl (refl, sym (ok-injective h))
  classifier_of-chosen false c h = inr (refl, h)

  classifier_of-failed :
      (stub : Bool) (e : Exn) → classifier_of M stub ≡ err e → (stub ≡ false) × (M.model ≡ err e)
  classifier_of-failed true e h = cc
  classifier_of-failed false e h = (refl, h)

  module _ (args : RunArgs K) (s : Agent) where
    abbrev Ran : Outcome Agent ℕ → Type 0
    Ran o = (Idle s o × Stops M args s) ⊎ Session M args s o

    raised-Idle :
        (e : Exn) (t : Agent) → t.node ≡ s.node → t.registered ≡ s.registered → Idle s (raised e t)
    raised-Idle e t same_node same_registered = record {
      same_node = same_node;
      same_registered = same_registered;
      fails = λ u h. cc;
    }

    module _ (key : K) (entry : Entry)
        (keyed : ensure_keypair M.keys args.fresh args.others s.key ≡ returned key entry) where
      abbrev keyed_agent : Agent
      keyed_agent = record s { key = entry }

      run_guarded :
          (classify : Classify) (guard : EgressGuard)
          → classifier_of M args.stub ≡ ok classify
          → make_guard M.platform (edge_of M args.edge) ≡ ok guard
          → Ran (run_client M key (agent_client M key guard classify) keyed_agent)
      run_guarded classify guard chosen guards =
          let C = agent_client M key guard classify in
          elim (Result-cases (load_seen M.platform s.node.replay.file)) [
            | inl (seen, loaded) ↦
                let started : Agent = record s {
                  key = entry;
                  node = restarted M.platform C seen s.node;
                } in
                let worked = run_registered key C started in
                inr (record {
                  key = key;
                  entry = entry;
                  guard = guard;
                  classify = classify;
                  seen = seen;
                  keyed = keyed;
                  chosen = classifier_of-chosen args.stub classify chosen;
                  guards = guards;
                  loaded = loaded;
                  worked = rw (loaded) worked;
                })
            | inr (e, fails) ↦
                inl (rw (fails) (raised-Idle e keyed_agent refl refl), bad_record e fails)
          ]

      run_with-Ran :
          (r : Result Classify)
          → classifier_of M args.stub ≡ r
          → Ran (run_with M key (edge_of M args.edge) r keyed_agent)
      run_with-Ran (ok classify) chosen =
          elim (Result-cases (make_guard M.platform (edge_of M args.edge))) [
            | inl (guard, guards) ↦ rw (guards) (run_guarded classify guard chosen guards)
            | inr (e, fails) ↦
                inl (rw (fails) (raised-Idle e keyed_agent refl refl), bad_edge e fails)
          ]
      run_with-Ran (err e) chosen =
          let i = stopped keyed_agent e (is_runtime_error M e) in
          let (real, model) = classifier_of-failed args.stub e chosen in
          inl (
            record {
              same_node = i.same_node;
              same_registered = i.same_registered;
              fails = i.fails;
            },
            no_model e real model,
          )

    abbrev runs_with : K → Agent → Outcome Agent ℕ
    runs_with key = run_with M key (edge_of M args.edge) (classifier_of M args.stub)

    with_key :
        (o : Outcome Entry K)
        → ensure_keypair M.keys args.fresh args.others s.key ≡ o
        → Ran (continue (settle_key M s o) runs_with)
    with_key (returned key e) keyed = run_with-Ran key e keyed (classifier_of M args.stub) refl
    with_key (raised x e) keyed =
        inl (raised-Idle x (record s { key = e }) refl refl, no_key x e keyed)

    if_edge :
        (empty : Bool)
        → is_empty (edge_of M args.edge) ≡ empty
        → Ran ((if empty then pure 2 else (load_key M args >>= runs_with)) s)
    if_edge true missing = inl (stopped s runtime_error true, no_edge missing)
    if_edge false given = with_key (ensure_keypair M.keys args.fresh args.others s.key) refl

    -- `run` fails and leaves all but the key file alone, because there is no edge, or the key, the
    -- model, the guard of the edge or the anti-replay file cannot be loaded; or it does this: it has
    -- the key of the file, the stub with `--stub` and the model without, and the guard of the edge; it
    -- loads the anti-replay file; it registers if there is no file `registered`, and ends with code 2
    -- if that fails; and then it pulls one work unit, and ends with code 0 or the exception of the
    -- pull.
    pub cmd_run-Session :
        (Idle s (cmd_run M args s) × Stops M args s) ⊎ Session M args s (cmd_run M args s)
    unfolding cmd_run
    cmd_run-Session = if_edge (is_empty (edge_of M args.edge)) refl
