-- ===== src/Browser.antt =====
-- node_agent/wasm.py: the node in a page, made of the client, `PureKeyring`, `BrowserStore` and
-- `FetchBackend`.
pub mod Keeps
pub mod Stored
pub mod Shipping
pub mod Session
pub mod Refines
pub mod Lasting
pub mod Identity
mod Tests
use lustro_node_agent.Base.{
  ℤ, pos, ℕ, String, str_eq, Bool, true, false, Option, none, some, List, [], ◌++◌, ◌∷◌,
  if◌then◌else◌,
}
use lustro_node_agent.Base.Text.{Text, Bytes, text, is_empty}
use lustro_node_agent.Base.Value.{Fields, list, dict}
use lustro_node_agent.Base.Result.{Exn, Result, ok, err}
use lustro_node_agent.Base.Exec.{Outcome, Exec, returned, raised, pure, lift, ◌>>=◌, ◌>>◌}
use lustro_node_agent.Platform.{Platform}
use lustro_node_agent.JobLog.{record_of}
use lustro_node_agent.Egress.{EgressGuard, make_guard}
use lustro_node_agent.CorePin.{Environ}
use lustro_node_agent.Seen.{Seen, load_seen}
use lustro_node_agent.Keyring.{PureKeyring, pure_keyring, keyring_sign, keyring_b64}
use lustro_node_agent.Storage.{ObjectStore, load_seed, save_seed, clear, parse_rows, append_item}
use lustro_node_agent.Transport.{Fetched, fetch_backend}
use lustro_node_agent.Classifier.{stub_classify}
use lustro_node_agent.Client.{Request, Http, Journal, NodeAgentClient, Node}
use lustro_node_agent.Client.Register.{register_agent}
use lustro_node_agent.Client.Pull.{pull_and_process}

-- What the key "ship_cursor" holds: nothing, a number, or what `int` refuses.
pub data Cursor : Type 0 where
  undefined : Cursor
  number : ℤ → Cursor
  garbled : Cursor

-- The messages that `on_step` is handed.
pub data Message : Type 0 where
  keygen left : Message
  shipped_rows : ℕ → Message
  ship_rejected : ℕ → ℕ → Message
  ship_failed : Exn → Message

-- A `_BrowserNode` and what its page keeps. `node.job_log` is the value of the key "joblog", and
-- `node.replay.file` is `seen.jsonl` in the file system of Pyodide.
pub record BrowserNode : Type 0 where
  pub ring : Option PureKeyring
  pub client : Option NodeAgentClient
  pub registered : Bool
  pub seed : Option Text
  pub cursor : Cursor
  pub node : Node
  pub messages : List Message

-- The object store of the page. A key that the code does not use is not kept.
abbrev pub get_key : BrowserNode → String → Option Text
get_key s k = if str_eq k "seed" then s.seed else if str_eq k "joblog" then s.node.job_log else none

abbrev pub set_key : BrowserNode → String → Text → BrowserNode
set_key s k t =
    if str_eq k "seed"
    then record s { seed = some t }
    else if str_eq k "joblog"
    then record s { node = record s.node { job_log = some t } }
    else s

abbrev pub clear_keys : BrowserNode → BrowserNode
clear_keys s = record s { seed = none; cursor = undefined; node = record s.node { job_log = none } }

abbrev pub page_store : ObjectStore BrowserNode
page_store = record { idb_get = get_key; idb_set = set_key; idb_clear = clear_keys }

abbrev pub notify : Message → Exec BrowserNode (Unit {0})
notify m s = returned tt (record s { messages = s.messages ++ m ∷ [] })

-- `_get_ship_cursor`
unfoldable pub get_ship_cursor : Cursor → ℤ
get_ship_cursor undefined = pos 0
get_ship_cursor (number z) = z
get_ship_cursor garbled = pos 0

-- `_set_ship_cursor`
unfoldable pub set_ship_cursor : ℕ → Exec BrowserNode (Unit {0})
set_ship_cursor n s = returned tt (record s { cursor = number (pos n) })

-- `_pin_core_key`
unfoldable pub pin_core_key : Option Text → Environ → Environ
pin_core_key none env = env
pin_core_key (some key) env = if is_empty key then env else λ name.
    if str_eq name "LUSTRO_NODE_AGENT_PINNED_KEY_B64" then some key else env name

-- `BrowserStore.append`, as the journal of a client
unfoldable pub browser_journal : Platform → Journal
browser_journal P entry rows = returned tt (
    some (
      P.dumps_ascii
        (list (append_item (parse_rows P page_store rows) (dict (record_of P entry rows))))))

-- What the page is made with: its platform, SHA-512, the edge, the environment and the network.
pub record Page : Type 0 where
  pub platform : Platform
  pub sha512 : Bytes → Bytes
  pub edge : Text
  pub environ : Environ
  pub pinned_constant : Text
  pub network : List Request → Request → Fetched
  pub exn_name : Exn → Text

module _ (W : Page) where
  -- `self._http`
  abbrev pub backend : Http
  backend = fetch_backend W.platform W.network

  -- What a keyring's `sign` returns. A ring that was made never raises: `pure_keyring-signs`.
  abbrev pub signature : Result Bytes → Bytes
  signature (ok sig) = sig
  signature (err e) = []

  abbrev pub ring_sign : PureKeyring → Bytes → Bytes
  ring_sign ring message = signature (keyring_sign W.sha512 ring message)

  -- The client of a ring. Pyodide has no `httpx`.
  unfoldable pub browser_client : PureKeyring → EgressGuard → NodeAgentClient
  browser_client ring guard = record {
    egress = guard;
    classify = stub_classify;
    public_key_raw_b64 = keyring_b64 W.platform ring;
    sign = ring_sign ring;
    journal = browser_journal W.platform;
    participant_token = [];
    pinned_constant = W.pinned_constant;
    environ = W.environ;
    httpx = none;
    exn_name = W.exn_name;
  }

  -- The seed of a node that has none: `fresh` is what `generate_seed` returns.
  abbrev pub seed_or_new : Bytes → Option Bytes → Exec BrowserNode Bytes
  seed_or_new fresh (some seed) s = returned seed s
  seed_or_new fresh none s =
      returned fresh
        (record (save_seed W.platform page_store fresh s) { messages = s.messages ++ keygen ∷ [] })

  abbrev pub keep_ring : PureKeyring → Exec BrowserNode PureKeyring
  keep_ring ring s = returned ring (record s { ring = some ring })

  abbrev pub load_ring : Bytes → Exec BrowserNode PureKeyring
  load_ring fresh s =
      (do
        found ← lift (load_seed W.platform page_store s)
        seed ← seed_or_new fresh found
        ring ← lift (pure_keyring W.sha512 seed)
        keep_ring ring)
        s

  -- `_ensure_keyring`
  unfoldable pub ensure_keyring : Bytes → Exec BrowserNode PureKeyring
  ensure_keyring fresh s = elim s.ring [ some ring ↦ returned ring s | none ↦ load_ring fresh s ]

  -- A new client has the sets that the anti-replay file gives.
  abbrev pub keep_client : NodeAgentClient → Seen → Exec BrowserNode NodeAgentClient
  keep_client C seen s = returned C (record s {
    client = some C;
    node = record s.node { replay = record s.node.replay { memory = seen } };
  })

  abbrev pub load_client : Bytes → Exec BrowserNode NodeAgentClient
  load_client fresh = do
    ring ← ensure_keyring fresh
    guard ← lift (make_guard W.platform W.edge)
    λ s.
        (do
          seen ← lift (load_seen W.platform s.node.replay.file)
          keep_client (browser_client ring guard) seen)
          s

  -- `_ensure_client`
  unfoldable pub ensure_client : Bytes → Exec BrowserNode NodeAgentClient
  ensure_client fresh s = elim s.client [ some C ↦ returned C s | none ↦ load_client fresh s ]

  -- A call of the client, which changes the node in the page.
  abbrev pub settle_node : {A : Type 0} → BrowserNode → Outcome Node A → Outcome BrowserNode A
  settle_node s (returned a n) = returned a (record s { node = n })
  settle_node s (raised e n) = raised e (record s { node = n })

  abbrev pub in_node : {A : Type 0} → Exec Node A → Exec BrowserNode A
  in_node m s = settle_node s (m s.node)

  abbrev pub set_registered : Exec BrowserNode (Unit {0})
  set_registered s = returned tt (record s { registered = true })

  -- `pubkey`
  unfoldable pub pubkey : Bytes → Exec BrowserNode Text
  pubkey fresh = do ring ← ensure_keyring fresh; pure (keyring_b64 W.platform ring)

  -- `register`
  unfoldable pub register : Bytes → Exec BrowserNode Text
  register fresh = do
    C ← ensure_client fresh
    in_node (register_agent W.platform C (some backend) [])
    set_registered
    pubkey fresh

  abbrev pub register_once : NodeAgentClient → Exec BrowserNode (Unit {0})
  register_once C s =
      (if s.registered
          then pure tt
          else (do in_node (register_agent W.platform C (some backend) []); set_registered))
        s

  -- `run_once`
  unfoldable pub run_once : Bytes → Exec BrowserNode (Option Fields)
  run_once fresh = do
    C ← ensure_client fresh
    register_once C
    in_node (pull_and_process W.platform C (some backend))

  -- `leave`
  unfoldable pub leave : Exec BrowserNode (Unit {0})
  leave s =
      notify left
        (record (clear W.platform page_store s) { ring = none; client = none; registered = false })

  -- `new_node` in the same page, with the edge and the pinned key that it is given: the page that
  -- it leaves, and a `_BrowserNode` that starts without ring and client.
  unfoldable pub new_node : Text → Option Text → BrowserNode → Page × BrowserNode
  unfolding pin_core_key
  new_node edge pinned s = (
    record W { edge = edge; environ = pin_core_key pinned W.environ },
    record s { ring = none; client = none; registered = false },
  )
