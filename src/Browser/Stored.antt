-- ===== src/Browser/Stored.antt =====
-- The values that a `BrowserNode` keeps for its page are an object store.
use lustro_node_agent.Base.{String, ◌≡◌, refl, none, some}
use lustro_node_agent.Base.Text.{Text}
use lustro_node_agent.Storage.Laws.{StoreLaws, IsKey, seed_key, joblog_key}
use lustro_node_agent.Browser.{BrowserNode, page_store, get_key, set_key, clear_keys}

get_key-set_key :
    (s : BrowserNode) (k : String) (t : Text) → IsKey k → get_key (set_key s k t) k ≡ some t
get_key-set_key s _ t seed_key = refl
get_key-set_key s _ t joblog_key = refl

get_key-clear_keys : (s : BrowserNode) (k : String) → IsKey k → get_key (clear_keys s) k ≡ none
get_key-clear_keys s _ seed_key = refl
get_key-clear_keys s _ joblog_key = refl

-- The store of the page has the laws of an object store, for the two keys that storage.py uses.
page_store-laws : StoreLaws page_store
page_store-laws = record {
  get_set = get_key-set_key;
  get_set_other = λ s t. refl;
  get_clear = get_key-clear_keys;
}
