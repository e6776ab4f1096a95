-- ===== src/Browser/Shipping/Tests.antt =====
-- A page with one row to ship.
use lustro_node_agent.Base.{◌≡◌, refl, true, false, some, none, [], ◌∷◌}
use lustro_node_agent.Base.Text.{text, utf8}
use lustro_node_agent.Base.Value.{nil, cons, Fields, field, end, str, dict, list, pop_key}
use lustro_node_agent.Base.Result.{ok}
use lustro_node_agent.Base.Exec.{final}
use lustro_node_agent.Keyring.{PureKeyring}
use lustro_node_agent.Storage.{read_rows, parse_rows, list_or_empty}
use lustro_node_agent.Transport.{arrived}
use lustro_node_agent.Client.Batch.{batch_bytes}
use lustro_node_agent.Browser.{BrowserNode, Page, undefined, get_ship_cursor, backend}
use lustro_node_agent.Browser.Shipping.{
  all_shipped, rows_behind, strip_rows, ship_request, ship_logs,
}
use lustro_node_agent.Browser.Shipping.Kept.{rows_of}
use lustro_node_agent.Browser.Shipping.Cursor.{After, ship_logs-cursor}
use lustro_node_agent.Samples.{platform, fresh_node, dumps}

abbrev no_work : Fields
no_work = field "event" (str (text "no_work")) end

-- A JSON that knows one array
abbrev page : Page
page = record {
  platform = record platform { loads = λ t. some (list (cons (dict no_work) nil)) };
  sha512 = λ m. [];
  edge = text "https://edge";
  environ = λ name. none;
  pinned_constant = text "core";
  network = λ past q. arrived (record { status = 200; redirected = false; text = some [] });
  exn_name = λ e. text "Error";
}

abbrev a_ring : PureKeyring
a_ring = record { seed = []; public_key = text "pub" }

abbrev logged : BrowserNode
logged = record {
  ring = some a_ring;
  client = none;
  registered = true;
  seed = none;
  cursor = undefined;
  node = record fresh_node { job_log = some (text "[…]") };
  messages = [];
}

one_behind : all_shipped (get_ship_cursor logged.cursor) (rows_of page logged) ≡ false
unfolding all_shipped get_ship_cursor read_rows parse_rows list_or_empty
one_behind = refl

one_stripped :
    strip_rows (rows_behind (get_ship_cursor logged.cursor) (rows_of page logged))
    ≡ ok (no_work ∷ [])
unfolding strip_rows rows_behind get_ship_cursor read_rows parse_rows list_or_empty pop_key
one_stripped = refl

one_packed : batch_bytes page.platform (no_work ∷ []) ≡ ok (text "0")
unfolding batch_bytes dumps utf8
one_packed = refl

ship_logs-cursor_example :
    After page logged
      (final (ship_logs page [] logged))
      ((backend page).reply [] (ship_request page a_ring (text "0")))
ship_logs-cursor_example =
    ship_logs-cursor page [] logged a_ring no_work [] (text "0") refl one_behind one_stripped
      one_packed
