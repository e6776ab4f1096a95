-- ===== src/Browser/Session.antt =====
-- A page in use: its methods in any order, `leave` and new nodes in the same page.
use lustro_node_agent.Base.{
  ◌≡◌, ◌⊎◌, inl, inr, refl, sym, ap, ◌∙◌, subst, Option, none, some, List, [], ◌∷◌, All, All-append,
}
use lustro_node_agent.Base.Text.{Bytes}
use lustro_node_agent.Base.Result.{ok, Result-cases}
use lustro_node_agent.Base.Exec.{
  Outcome, Exec, returned, raised, final, continue, Keeps, Keeps-pure, Keeps-if, Keeps-bind,
}
use lustro_node_agent.Egress.{EgressGuard, make_guard}
use lustro_node_agent.Egress.Check.{Reaches}
use lustro_node_agent.Storage.{clear}
use lustro_node_agent.Seen.{load_seen}
use lustro_node_agent.Client.{Request, NodeAgentClient, Node}
use lustro_node_agent.Client.Register.{register_agent}
use lustro_node_agent.Client.Process.Keeps.{OnlyEdge}
use lustro_node_agent.Client.Safety.{register_agent-OnlyEdge, pull_and_process-OnlyEdge}
use lustro_node_agent.Browser.{
  BrowserNode, Page, backend, browser_client, ensure_keyring, ensure_client, load_client, in_node,
  settle_node, set_registered, register_once, set_registered, pubkey, register, run_once, leave,
  new_node,
}
use lustro_node_agent.Browser.Shipping.{ship_url, ship_request, ship_logs}
use lustro_node_agent.Browser.Shipping.Kept.{IsShipment, Kept, ship_logs-returns}
use lustro_node_agent.Browser.Keeps.{IgnoresRing, ensure_keyring-Keeps}

-- A use of the page, with the seed that would be generated. A reload is a new node with the edge and
-- the pinned key that the page has.
pub data Use : Type 0 where
  registers runs asks_pubkey ships : Bytes → Use
  leaves reloads : Use

module _ (W : Page) where
  abbrev pub perform : Use → BrowserNode → BrowserNode
  perform (registers fresh) s = final (register W fresh s)
  perform (runs fresh) s = final (run_once W fresh s)
  perform (asks_pubkey fresh) s = final (pubkey W fresh s)
  perform (ships fresh) s = final (ship_logs W fresh s)
  perform leaves s = final (leave W s)
  perform reloads s = (new_node W W.edge none s).1

  abbrev pub perform_all : List Use → BrowserNode → BrowserNode
  perform_all [] s = s
  perform_all (u ∷ uses) s = perform_all uses (perform u s)

  module _ (g : EgressGuard) where
    abbrev pub AllReach : List Request → Type 0
    AllReach sent = All (λ q. Reaches W.platform g q.url) sent

    -- Every request so far passed `g`, and the client, if there is one, has this guard.
    pub record Guarded (s : BrowserNode) : Type 0 where
      pub sent : AllReach s.node.sent
      pub client :
          (s.client ≡ none) ⊎ ((C : NodeAgentClient) × (s.client ≡ some C) × (C.egress ≡ g))

    Guarded-IgnoresRing : IgnoresRing Guarded
    Guarded-IgnoresRing s ring seed messages i = record { sent = i.sent; client = i.client }

    settle_node-Guarded :
        {A : Type 0} (s : BrowserNode) (o : Outcome Node A)
        → AllReach (final o).sent
        → Guarded s
        → Guarded (final (settle_node W s o))
    settle_node-Guarded s (returned a n) sent i = record { sent = sent; client = i.client }
    settle_node-Guarded s (raised e n) sent i = record { sent = sent; client = i.client }

    -- A call of a client with this guard
    in_node-Guarded :
        {A : Type 0} (C : NodeAgentClient) (m : Exec Node A)
        → ((n : Node) → OnlyEdge W.platform C n → OnlyEdge W.platform C (final (m n)))
        → C.egress ≡ g
        → Keeps Guarded (in_node W m)
    in_node-Guarded C m keeps same = record {
      at = λ s i.
          let reaches =
            λ (h : EgressGuard) (sent : List Request). All (λ q. Reaches W.platform h q.url) sent in
          let before = subst (λ h. reaches h s.node.sent) (sym same) i.sent in
          settle_node-Guarded s (m s.node)
            (subst (λ h. reaches h (final (m s.node)).sent) same (keeps s.node before)) i;
    }

    -- A client with this guard, or an exception
    abbrev Ensured : Outcome BrowserNode NodeAgentClient → Type 0
    Ensured (returned C s) = Guarded s × (C.egress ≡ g)
    Ensured (raised e s) = Guarded s

    continue-Ensured :
        {A : Type 0} (o : Outcome BrowserNode A) (k : A → Exec BrowserNode NodeAgentClient)
        → Guarded (final o)
        → ((a : A) (s : BrowserNode) → Guarded s → Ensured (k a s))
        → Ensured (continue o k)
    continue-Ensured (returned a s) k i later = later a s i
    continue-Ensured (raised e s) k i later = i

    Ensured-continue :
        {A : Type 0} (o : Outcome BrowserNode NodeAgentClient)
        (k : NodeAgentClient → Exec BrowserNode A)
        → Ensured o
        → ((C : NodeAgentClient) → C.egress ≡ g → Keeps Guarded (k C))
        → Guarded (final (continue o k))
    Ensured-continue (returned C s) k (i, same) later = (later C same).at s i
    Ensured-continue (raised e s) k i later = i

    module _ (guards : make_guard W.platform W.edge ≡ ok g) where
      load_client-Ensured :
          (fresh : Bytes) (s : BrowserNode) → Guarded s → Ensured (load_client W fresh s)
      unfolding browser_client
      load_client-Ensured fresh s i =
          continue-Ensured (ensure_keyring W fresh s) _
            ((ensure_keyring-Keeps W Guarded-IgnoresRing fresh).at s i)
            λ ring t j. elim (Result-cases (load_seen W.platform t.node.replay.file)) [
              | inl (seen, loaded) ↦
                  rw (guards, loaded) (record { sent = j.sent; client = inr (_, refl, refl) }, refl)
              | inr (e, fails) ↦ rw (guards, fails) j
            ]

      client_or_load :
          (fresh : Bytes) (client : Option NodeAgentClient) (s : BrowserNode)
          → s.client ≡ client
          → Guarded s
          → Ensured (elim client [ some C ↦ returned C s | none ↦ load_client W fresh s ])
      client_or_load fresh none s same i = load_client-Ensured fresh s i
      client_or_load fresh (some C) s same i = (i, known i.client)
        where
          known :
              (s.client ≡ none) ⊎ ((D : NodeAgentClient) × (s.client ≡ some D) × (D.egress ≡ g))
              → C.egress ≡ g
          known (inl missing) = cc
          known (inr (D, there, guarded)) =
              let this : C ≡ D = cc in ap (λ (E : NodeAgentClient). E.egress) this ∙ guarded

      ensure_client-Ensured :
          (fresh : Bytes) (s : BrowserNode) → Guarded s → Ensured (ensure_client W fresh s)
      unfolding ensure_client
      ensure_client-Ensured fresh s i = client_or_load fresh s.client s refl i

      registers-Keeps :
          (C : NodeAgentClient)
          → C.egress ≡ g
          → Keeps Guarded (in_node W (register_agent W.platform C (some (backend W)) []))
      registers-Keeps C same =
          in_node-Guarded C _ (register_agent-OnlyEdge W.platform C (some (backend W)) []) same

      set_registered-Keeps : Keeps Guarded (set_registered W)
      set_registered-Keeps = record { at = λ s i. record { sent = i.sent; client = i.client } }

      pubkey-Keeps : (fresh : Bytes) → Keeps Guarded (pubkey W fresh)
      unfolding pubkey
      pubkey-Keeps fresh =
          Keeps-bind _ _ (ensure_keyring-Keeps W Guarded-IgnoresRing fresh) (λ ring. Keeps-pure _)

      register_once-Keeps : (C : NodeAgentClient) → C.egress ≡ g → Keeps Guarded (register_once W C)
      register_once-Keeps C same = record {
        at = λ s.
            (Keeps-if s.registered _ _ (Keeps-pure tt)
                (Keeps-bind _ _ (registers-Keeps C same) (λ _. set_registered-Keeps))).at
              s;
      }

      module _ (ship_reaches : Reaches W.platform g (ship_url W)) where
        IsShipment-AllReach : (sent : List Request) → All (IsShipment W) sent → AllReach sent
        unfolding ship_request
        IsShipment-AllReach [] shipments = tt
        IsShipment-AllReach (q ∷ sent) (shipment, more) =
            (rw (shipment.posted) ship_reaches, IsShipment-AllReach sent more)

        Kept-Guarded : (s t : BrowserNode) → Kept W s t → Guarded s → Guarded t
        Kept-Guarded s t k i =
            let (more, sent, shipments) = k.sent in
            record {
              sent =
                  rw (sent)
                    (All-append _ s.node.sent more i.sent (IsShipment-AllReach more shipments));
              client = rw (k.client) i.client;
            }

        ships-Guarded :
            (fresh : Bytes) (s : BrowserNode) → Guarded s → Guarded (final (ship_logs W fresh s))
        ships-Guarded fresh s i =
            let (t, returns, kept) = ship_logs-returns W fresh s in
            rw (returns) (Kept-Guarded s t kept i)

        perform-Guarded : (u : Use) (s : BrowserNode) → Guarded s → Guarded (perform u s)
        unfolding register run_once leave new_node clear
        perform-Guarded (registers fresh) s i =
            Ensured-continue (ensure_client W fresh s) _ (ensure_client-Ensured fresh s i) λ C same.
              Keeps-bind _ _ (registers-Keeps C same)
                λ _. Keeps-bind _ _ set_registered-Keeps (λ _. pubkey-Keeps fresh)
        perform-Guarded (runs fresh) s i =
            Ensured-continue (ensure_client W fresh s) _ (ensure_client-Ensured fresh s i) λ C same.
              Keeps-bind _ _ (register_once-Keeps C same) λ _.
                in_node-Guarded C _ (pull_and_process-OnlyEdge W.platform C (some (backend W))) same
        perform-Guarded (asks_pubkey fresh) s i = (pubkey-Keeps fresh).at s i
        perform-Guarded (ships fresh) s i = ships-Guarded fresh s i
        perform-Guarded leaves s i = record { sent = i.sent; client = inl refl }
        perform-Guarded reloads s i = record { sent = i.sent; client = inl refl }

        -- Where the edge of the page has the guard `g`, and the URL to which the page ships logs reaches
        -- what `g` allows: over every use of the page, with its `leave` and new nodes in it, every
        -- request, whatever the network answers, goes to the guard's scheme, host and a port that fits, if
        -- those before did and a client that is there has this guard.
        pub perform_all-Guarded :
            (uses : List Use) (s : BrowserNode) → Guarded s → Guarded (perform_all uses s)
        perform_all-Guarded [] s i = i
        perform_all-Guarded (u ∷ uses) s i =
            perform_all-Guarded uses (perform u s) (perform-Guarded u s i)
