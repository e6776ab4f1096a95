-- ===== src/Cli/Registered.antt =====
-- Where `run` succeeds, the agent is registered.
use lustro_node_agent.Base.{
  ℕ, ◌≡◌, ◌⊎◌, inl, inr, refl, sym, ap, ◌∙◌, subst, Bool, true, false, none, some, if◌then◌else◌,
  arith,
}
use lustro_node_agent.Base.Text.{Text, is_empty}
use lustro_node_agent.Base.Result.{Result, ok, err}
use lustro_node_agent.Base.Exec.{
  Outcome, returned, raised, pure, raise, continue-returned, settle-returned, returned-injective,
  ◌>>=◌,
}
use lustro_node_agent.JobLog.{TextFile}
use lustro_node_agent.Egress.{make_guard}
use lustro_node_agent.Seen.{load_seen}
use lustro_node_agent.Keys.{Entry, ensure_keypair}
use lustro_node_agent.Client.{NodeAgentClient, Node}
use lustro_node_agent.Client.Wire.{is_present}
use lustro_node_agent.Client.Pull.{pull_and_process}
use lustro_node_agent.Cli.{
  Agent, Machine, RunArgs, Classify, edge_of, agent_client, ensure_registered, register_with,
  settle_registration, settle_key, settle_node, load_key, load_sets, pull_once, work, run_client,
  run_with, classifier_of, is_runtime_error, cmd_run,
}

-- The file `registered` that a call leaves
abbrev registered_of : {A : Type 0} → Outcome Agent A → TextFile
registered_of (returned a s) = s.registered
registered_of (raised e s) = s.registered

-- `t` is registered, with the text that `s` had, if it had one.
abbrev pub IsRegistered : Agent → Agent → Type 0
IsRegistered s t =
    (k : Text) × (t.registered ≡ some k) × ((s.registered ≡ none) ⊎ (s.registered ≡ some k))

module _ {K : Type 0} (M : Machine K) where
  settle_node-registered :
      {A : Type 0} (s t : Agent) (o : Outcome Node A) {a : A}
      → settle_node M s o ≡ returned a t
      → t.registered ≡ s.registered
  settle_node-registered s t (returned b n) h = sym (ap registered_of h)
  settle_node-registered s t (raised e n) h = cc

  settle_key-registered :
      {A : Type 0} (s t : Agent) (o : Outcome Entry A) {a : A}
      → settle_key M s o ≡ returned a t
      → t.registered ≡ s.registered
  settle_key-registered s t (returned b n) h = sym (ap registered_of h)
  settle_key-registered s t (raised e n) h = cc

  settled :
      (key : K) (s t : Agent) (o : Outcome Node (Unit {0}))
      → settle_registration M key s o ≡ returned true t
      → (k : Text) × (t.registered ≡ some k)
  settled key s t (returned _ n) h = (_, sym (ap registered_of h))
  settled key s t (raised e n) h = cc

  ensured_from :
      (key : K) (C : NodeAgentClient) (s t : Agent) (before : TextFile)
      → s.registered ≡ before
      → (if is_present before
          then returned true s
          else settle_registration M key s (register_with M C s.node))
        ≡ returned true t
      → IsRegistered s t
  ensured_from key C s t none missing h =
      let (k, now) = settled key s t (register_with M C s.node) h in (k, now, inl missing)
  ensured_from key C s t (some k) there h = (k, sym (ap registered_of h) ∙ there, inr there)

  ensured :
      (key : K) (C : NodeAgentClient) (s t : Agent)
      → ensure_registered M key C s ≡ returned true t
      → IsRegistered s t
  unfolding ensure_registered
  ensured key C s t h = ensured_from key C s t s.registered refl h

  worked :
      (key : K) (C : NodeAgentClient) (is_registered : Bool) (s t : Agent)
      → work M key C is_registered s ≡ returned 0 t
      → (is_registered ≡ true) × (t.registered ≡ s.registered)
  unfolding work
  worked key C false s t h = absurd (omega (arith, returned-injective h))
  worked key C true s t h =
      let (body, u, pulled, rest) = continue-returned (pull_once M C s) (λ _. pure 0) h in
      let same : u.registered ≡ t.registered = ap registered_of rest in
      (
        refl,
        sym same ∙ settle_node-registered s u (pull_and_process M.platform C none s.node) pulled,
      )

  load_sets-registered : (s t : Agent) → load_sets M s ≡ returned tt t → t.registered ≡ s.registered
  load_sets-registered s t h =
      let (seen, _, rest) = settle-returned (load_seen M.platform s.node.replay.file) s _ h in
      sym (ap registered_of rest)

  run_client-IsRegistered :
      (key : K) (C : NodeAgentClient) (s t : Agent)
      → run_client M key C s ≡ returned 0 t
      → IsRegistered s t
  run_client-IsRegistered key C s t h =
      let (_, u, loaded, h₁) = continue-returned (load_sets M s) _ h in
      let (b, v, registers, h₂) = continue-returned (ensure_registered M key C u) _ h₁ in
      let (is_true, kept) = worked key C b v t h₂ in
      let (k, now, before) = ensured key C u v (rw is_true at registers) in
      let same = load_sets-registered s u loaded in
      (k, kept ∙ now, subst (λ r. (r ≡ none) ⊎ (r ≡ some k)) same before)

  run_with-IsRegistered :
      (key : K) (edge : Text) (r : Result Classify) (s t : Agent)
      → run_with M key edge r s ≡ returned 0 t
      → IsRegistered s t
  run_with-IsRegistered key edge (ok classify) s t h =
      let (guard, _, rest) = settle-returned (make_guard M.platform edge) s _ h in
      run_client-IsRegistered key (agent_client M key guard classify) s t rest
  run_with-IsRegistered key edge (err e) s t h = stopped (is_runtime_error M e) h
    where
      stopped :
          (stops : Bool)
          → ((if stops then pure {A = ℕ} 2 else raise e) s) ≡ returned 0 t
          → IsRegistered s t
      stopped true two = absurd (omega (arith, returned-injective two))
      stopped false raises = cc

  -- Where `run` returns 0, the file `registered` is there, and holds what it held before if it was
  -- there before.
  pub cmd_run-registered :
      (args : RunArgs K) (s t : Agent)
      → cmd_run M args s ≡ returned 0 t
      → (k : Text) × (t.registered ≡ some k) × ((s.registered ≡ none) ⊎ (s.registered ≡ some k))
  unfolding cmd_run
  cmd_run-registered args s t h = with_edge (is_empty (edge_of M args.edge)) h
    where
      run_key : K → Agent → Outcome Agent ℕ
      run_key key = run_with M key (edge_of M args.edge) (classifier_of M args.stub)

      with_edge :
          (empty : Bool)
          → ((if empty then pure 2 else (load_key M args >>= run_key)) s) ≡ returned 0 t
          → IsRegistered s t
      with_edge true two = absurd (omega (arith, returned-injective two))
      with_edge false runs =
          let (key, u, loaded, rest) = continue-returned (load_key M args s) run_key runs in
          let (k, now, before) =
            run_with-IsRegistered key (edge_of M args.edge) (classifier_of M args.stub) u t rest in
          let same =
            settle_key-registered s u (ensure_keypair M.keys args.fresh args.others s.key) loaded in
          (k, now, subst (λ r. (r ≡ none) ⊎ (r ≡ some k)) same before)
