-- ===== src/Browser/Refines.antt =====
-- `run_once` of the page is one session of its client: the anti-replay file loaded where the client is
-- made, a registration where there was none, and one pull.
use lustro_node_agent.Base.{
  ◌≡◌, ◌≢◌, ◌⊎◌, inl, inr, refl, ap, subst, Bool, true, false, if◌then◌else◌, Option, none, some,
  [],
}
use lustro_node_agent.Base.Text.{Bytes}
use lustro_node_agent.Base.Value.{Fields}
use lustro_node_agent.Base.Result.{Exn, ok, err, Result-cases}
use lustro_node_agent.Base.Exec.{
  Outcome, Exec, returned, raised, final, continue, pure, lift, ◌>>=◌, ◌>>◌,
}
use lustro_node_agent.Egress.{EgressGuard, make_guard}
use lustro_node_agent.Seen.{Seen, load_seen}
use lustro_node_agent.Client.{NodeAgentClient, Node}
use lustro_node_agent.Client.Register.{register_agent}
use lustro_node_agent.Client.Pull.{pull_and_process}
use lustro_node_agent.Client.Session.{restarted}
use lustro_node_agent.Keyring.{PureKeyring}
use lustro_node_agent.Browser.{
  BrowserNode, Page, backend, browser_client, ensure_keyring, ensure_client, load_client, in_node,
  keep_client, settle_node, set_registered, register_once, run_once,
}
use lustro_node_agent.Browser.Keeps.{ensure_keyring-Keeps}

module _ (W : Page) where
  -- The client `C` with which a call goes on from the state `t`: the one that the page had, or one
  -- with the guard of the edge, of the ring of the page, that has loaded the anti-replay file.
  pub data ClientOf (fresh : Bytes) (s : BrowserNode) (C : NodeAgentClient) (t : BrowserNode)
      : Type 0 where
    kept : s.client ≡ some C → t ≡ s → ClientOf fresh s C t
    made :
        (ring : PureKeyring) (u : BrowserNode) (guard : EgressGuard) (seen : Seen)
        → s.client ≡ none
        → ensure_keyring W fresh s ≡ returned ring u
        → make_guard W.platform W.edge ≡ ok guard
        → load_seen W.platform s.node.replay.file ≡ ok seen
        → C ≡ browser_client W ring guard
        → t ≡ record u { client = some C; node = restarted W.platform C seen s.node }
        → t.registered ≡ s.registered
        → ClientOf fresh s C t

  abbrev registration : NodeAgentClient → Node → Outcome Node (Unit {0})
  registration C n = register_agent W.platform C (some (backend W)) [] n

  abbrev pulled : NodeAgentClient → Node → Outcome Node (Option Fields)
  pulled C n = pull_and_process W.platform C (some (backend W)) n

  -- How the call ends with that client and from that state
  pub data Worked (C : NodeAgentClient) (t : BrowserNode) (o : Outcome BrowserNode (Option Fields))
      : Type 0 where
    -- The registration failed, and nothing was pulled.
    refused :
        (e : Exn) (n : Node)
        → t.registered ≡ false
        → registration C t.node ≡ raised e n
        → o ≡ raised e (record t { node = n })
        → Worked C t o
    -- It succeeded, and one work unit is pulled.
    joined :
        (n : Node)
        → t.registered ≡ false
        → registration C t.node ≡ returned tt n
        → o ≡ settle_node W (record t { registered = true; node = n }) (pulled C n)
        → Worked C t o
    -- The page was registered, and one work unit is pulled.
    known : t.registered ≡ true → o ≡ settle_node W t (pulled C t.node) → Worked C t o

  -- No client could be made: the call raised, and has left the node alone.
  pub record Idle (s : BrowserNode) (o : Outcome BrowserNode (Option Fields)) : Type 0 where
    pub same_node : (final o).node ≡ s.node
    pub fails : (a : Option Fields) (t : BrowserNode) → o ≢ returned a t

  -- Why a call has no client: the page has none, and the keyring, the guard of the edge or the
  -- anti-replay file cannot be loaded.
  pub data Stops (fresh : Bytes) (s : BrowserNode) : Type 0 where
    no_ring :
        (e : Exn) (u : BrowserNode)
        → s.client ≡ none
        → ensure_keyring W fresh s ≡ raised e u
        → Stops fresh s
    bad_edge : (e : Exn) → s.client ≡ none → make_guard W.platform W.edge ≡ err e → Stops fresh s
    bad_record :
        (e : Exn)
        → s.client ≡ none
        → load_seen W.platform s.node.replay.file ≡ err e
        → Stops fresh s

  pub record Session (fresh : Bytes) (s : BrowserNode) (o : Outcome BrowserNode (Option Fields))
      : Type 0 where
    pub client : NodeAgentClient
    pub started : BrowserNode
    pub of_page : ClientOf fresh s client started
    pub worked : Worked client started o

  abbrev work : NodeAgentClient → Exec BrowserNode (Option Fields)
  work C = register_once W C >> in_node W (pull_and_process W.platform C (some (backend W)))

  module _ (C : NodeAgentClient) (t : BrowserNode) where
    joined_or_not :
        (o : Outcome Node (Unit {0}))
        → t.registered ≡ false
        → registration C t.node ≡ o
        → Worked C t (
            continue
              (continue (settle_node W t o) (λ _. set_registered W))
              (λ _. in_node W (pull_and_process W.platform C (some (backend W)))))
    joined_or_not (returned _ n) missing tried = joined n missing tried refl
    joined_or_not (raised e n) missing tried = refused e n missing tried refl

    worked_from :
        (is_registered : Bool)
        → t.registered ≡ is_registered
        → Worked C t (
            continue
              ((if is_registered
                  then pure tt
                  else (in_node W (register_agent W.platform C (some (backend W)) [])
                      >> set_registered W))
                t)
              (λ _. in_node W (pull_and_process W.platform C (some (backend W)))))
    worked_from true there = known there refl
    worked_from false missing = joined_or_not (registration C t.node) missing refl

    work-Worked : Worked C t (work C t)
    work-Worked = worked_from t.registered refl

  module _ (fresh : Bytes) (s : BrowserNode) where
    abbrev Ran : Outcome BrowserNode (Option Fields) → Type 0
    Ran o = (Idle s o × Stops fresh s) ⊎ Session fresh s o

    raised-Idle : (e : Exn) (t : BrowserNode) → t.node ≡ s.node → Idle s (raised e t)
    raised-Idle e t same = record { same_node = same; fails = λ a u h. cc }

    abbrev with_ring : PureKeyring → Exec BrowserNode NodeAgentClient
    with_ring ring = do
      guard ← lift (make_guard W.platform W.edge)
      λ t.
          (do
            seen ← lift (load_seen W.platform t.node.replay.file)
            keep_client W (browser_client W ring guard) seen)
            t

    with_ring-Ran :
        (o : Outcome BrowserNode PureKeyring)
        → s.client ≡ none
        → ensure_keyring W fresh s ≡ o
        → ((final o).node ≡ s.node) × ((final o).registered ≡ s.registered)
        → Ran (continue (continue o with_ring) work)
    with_ring-Ran (raised e t) missing made_ring (same, _) =
        inl (raised-Idle e t same, no_ring e t missing made_ring)
    with_ring-Ran (returned ring u) missing made_ring (same, same_registered) =
        elim (Result-cases (make_guard W.platform W.edge)) [
          | inr (e, fails) ↦ inl (rw fails (raised-Idle e u same), bad_edge e missing fails)
          | inl (guard, guards) ↦ elim (Result-cases (load_seen W.platform u.node.replay.file)) [
            | inr (e, fails) ↦ inl (
              rw (guards, fails) (raised-Idle e u same),
              bad_record e missing
                  (subst (λ (n : Node). load_seen W.platform n.replay.file ≡ err e) same fails),
            )
            | inl (seen, loaded) ↦
                let C = browser_client W ring guard in
                let t : BrowserNode = record u {
                  client = some C;
                  node = restarted W.platform C seen u.node;
                } in
                let here : load_seen W.platform s.node.replay.file ≡ ok seen =
                  subst (λ (n : Node). load_seen W.platform n.replay.file ≡ ok seen) same loaded in
                let there : t
                    ≡ record u { client = some C; node = restarted W.platform C seen s.node } =
                  ap
                    (λ (n : Node). record u {
                      client = some C;
                      node = restarted W.platform C seen n;
                    })
                    same in
                let worked = work-Worked C t in
                inr (record {
                  client = C;
                  started = t;
                  of_page =
                      made ring u guard seen missing made_ring guards here refl there
                        same_registered;
                  worked = rw (guards, loaded) worked;
                })
          ]
        ]

    client_or_load :
        (client : Option NodeAgentClient)
        → s.client ≡ client
        → Ran (continue (elim client [ some C ↦ returned C s | none ↦ load_client W fresh s ]) work)
    client_or_load (some C) same =
        inr (record { client = C; started = s; of_page = kept same refl; worked = work-Worked C s })
    client_or_load none missing =
        let keeps =
          ensure_keyring-Keeps W {I = λ t. (t.node ≡ s.node) × (t.registered ≡ s.registered)}
            (λ t ring seed messages i. i) fresh in
        with_ring-Ran (ensure_keyring W fresh s) missing refl (keeps.at s (refl, refl))

    -- `run_once` of the page raises and leaves the node alone, because it has no client and its
    -- keyring, the guard of the edge or the anti-replay file cannot be loaded; or it does this: it has
    -- the client of the page, or makes one with the guard of the edge that loads the anti-replay file;
    -- it registers if the page is not registered, and raises what that raises; and then it pulls one
    -- work unit, and ends as the pull ends.
    pub run_once-Session :
        (Idle s (run_once W fresh s) × Stops fresh s) ⊎ Session fresh s (run_once W fresh s)
    unfolding run_once ensure_client
    run_once-Session = client_or_load s.client refl
