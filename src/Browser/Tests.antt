-- ===== src/Browser/Tests.antt =====
-- A page over the sample platform, whose edge answers every request.
use lustro_node_agent.Base.{◌≡◌, ◌⊎◌, List, inl, refl, pos, false, none, some, [], ◌∷◌, length}
use lustro_node_agent.Base.Text.{Bytes, text, text_eq, is_empty}
use lustro_node_agent.Base.Value.{nil}
use lustro_node_agent.Base.Result.{ok}
use lustro_node_agent.Base.Exec.{returned, final}
use lustro_node_agent.Ed25519.{to_little}
use lustro_node_agent.Keyring.{PureKeyring, pure_keyring}
use lustro_node_agent.Keyring.Total.{pure_keyring-ok}
use lustro_node_agent.Storage.{load_seed, read_rows, save_seed, parse_seed, clear}
use lustro_node_agent.Transport.{arrived}
use lustro_node_agent.Browser.{
  BrowserNode, Page, undefined, keygen, left, page_store, get_ship_cursor, ensure_keyring, leave,
  new_node,
}
use lustro_node_agent.Browser.{run_once}
use lustro_node_agent.Browser.Lasting.{perform_all-processed}
use lustro_node_agent.Client.Tests.{after_run, returns, plain_record, stored, stores}
use lustro_node_agent.Client.Process.Replay.{Refused}
use lustro_node_agent.Seen.{load_seen}
use lustro_node_agent.Browser.Refines.{Idle, Stops, Session, run_once-Session}
use lustro_node_agent.Browser.Shipping.{ship_logs, ship_url}
use lustro_node_agent.Browser.Shipping.Kept.{Kept, ship_logs-returns}
use lustro_node_agent.Browser.Identity.{ensure_keyring-leave}
use lustro_node_agent.Egress.Check.{Reaches, check_iff}
use lustro_node_agent.Egress.{check, request_host, make_guard, allowed_host}
use lustro_node_agent.Browser.Session.{
  Use, registers, runs, ships, leaves, reloads, perform_all, Guarded, perform_all-Guarded,
}
use lustro_node_agent.Samples.{client, urlparse, starts_with, platform, work_unit, fresh_node}

no_hash : Bytes → Bytes
no_hash m = []

abbrev page : Page
page = record {
  platform = platform;
  sha512 = no_hash;
  edge = text "https://edge";
  environ = λ name. none;
  pinned_constant = text "core";
  network = λ past q. arrived (record { status = 200; redirected = false; text = some [] });
  exn_name = λ e. text "Error";
}

abbrev a_seed : Bytes
a_seed = to_little 32 7

length-a_seed : length a_seed ≡ 32
unfolding to_little
length-a_seed = refl

abbrev opened : BrowserNode
opened = record {
  ring = none;
  client = none;
  registered = false;
  seed = none;
  cursor = undefined;
  node = record fresh_node { job_log = some (text "[]") };
  messages = [];
}

ship_logs-returns_example :
    (t : BrowserNode) × (ship_logs page a_seed opened ≡ returned tt t) × Kept page opened t
ship_logs-returns_example = ship_logs-returns page a_seed opened

made :
    (ring : PureKeyring) × (s : BrowserNode) × (ensure_keyring page a_seed opened ≡ returned ring s)
unfolding ensure_keyring load_seed save_seed parse_seed
made =
    let (ring, this, _, _) = pure_keyring-ok no_hash a_seed length-a_seed in
    let s : BrowserNode = record opened {
      ring = some ring;
      seed = some a_seed;
      messages = keygen ∷ [];
    } in
    (ring, s, rw (this) refl)

made_anew :
    (ring : PureKeyring) × (s : BrowserNode) × (ensure_keyring page a_seed
        (final (leave page opened))
      ≡ returned ring s)
unfolding ensure_keyring load_seed save_seed parse_seed leave clear
made_anew =
    let (ring, this, _, _) = pure_keyring-ok no_hash a_seed length-a_seed in
    let s : BrowserNode = record opened {
      ring = some ring;
      seed = some a_seed;
      node = fresh_node;
      messages = left ∷ keygen ∷ [];
    } in
    (ring, s, rw (this) refl)

is_nonempty : is_empty a_seed ≡ false
unfolding to_little
is_nonempty = refl

ensure_keyring-leave_example :
    (load_seed platform page_store (final (leave page opened)) ≡ ok none)
    × (read_rows platform page_store (final (leave page opened)) ≡ nil)
    × (get_ship_cursor (final (leave page opened)).cursor ≡ pos 0)
    × ((final (leave page opened)).node.replay.file ≡ opened.node.replay.file)
    × (pure_keyring no_hash a_seed ≡ ok made_anew.0)
    × (made_anew.1.seed ≡ some a_seed)
ensure_keyring-leave_example =
    ensure_keyring-leave page a_seed opened made_anew.1 made_anew.0 made_anew.2

edge_guard : make_guard platform page.edge ≡ ok client.egress
unfolding make_guard urlparse starts_with text_eq allowed_host
edge_guard = refl

shipping_passes : check platform client.egress (ship_url page) ≡ ok (ship_url page)
unfolding check urlparse starts_with text_eq request_host allowed_host
shipping_passes = refl

ship_url-Reaches : Reaches platform client.egress (ship_url page)
ship_url-Reaches =
    ((check_iff platform client.egress (ship_url page) (ship_url page)).0 shipping_passes).0

abbrev used : List Use
used = runs a_seed ∷ leaves ∷ registers a_seed ∷ reloads ∷ ships a_seed ∷ []

perform_all-Guarded_example : Guarded page client.egress (perform_all page used opened)
perform_all-Guarded_example =
    perform_all-Guarded page client.egress edge_guard ship_url-Reaches used opened
      (record { sent = tt; client = inl refl })

run_once-Session_example :
    (Idle page opened (run_once page a_seed opened) × Stops page a_seed opened)
    ⊎ Session page a_seed opened (run_once page a_seed opened)
run_once-Session_example = run_once-Session page a_seed opened

-- A page whose node has processed the work unit
abbrev processed_page : BrowserNode
processed_page = record opened { node = after_run }

abbrev left_page : List Use
left_page = leaves ∷ reloads ∷ []

still_stores :
    load_seen platform (perform_all page left_page processed_page).node.replay.file ≡ ok stored
unfolding leave clear new_node
still_stores = stores

perform_all-processed_example :
    Refused platform client work_unit none
      (record fresh_node { replay = record { memory = stored; file = none } })
perform_all-processed_example =
    perform_all-processed page client client work_unit work_unit none none fresh_node left_page
      processed_page stored (record fresh_node { replay = record { memory = stored; file = none } })
      returns (inl refl) plain_record refl still_stores refl refl
