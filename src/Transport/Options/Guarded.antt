-- ===== src/Transport/Options/Guarded.antt =====
-- What the page's `fetch` is called with.
use lustro_node_agent.Base.{◌≡◌, String, str_eq, Option, none, some, if◌then◌else◌}
use lustro_node_agent.Base.Text.{Text}
use lustro_node_agent.Transport.Options.{
  PyFields, PyValue, no_entry, entry, str_key, other_key, JsBridge,
}

-- The value of a key of a dict, the first of its entries
unfoldable pub value_of : String → PyFields → Option PyValue
value_of k no_entry = none
value_of k (entry other_key v fs) = value_of k fs
value_of k (entry (str_key j) v fs) =
    let rest = value_of k fs in if str_eq j k then some v else rest

-- With a `dict_converter`, `to_js` gives what that makes of the entries, and `Object.fromEntries` makes
-- an object whose properties are the entries. Nothing is said of `to_js` without one, which makes a
-- `Map`, whose entries are not properties.
pub record BridgeLaws {J : Type 0} (B : JsBridge J) : Type 0 where
  pub converts : (f : PyFields → J) (fs : PyFields) → B.to_js (some f) fs ≡ f fs
  pub properties : (k : String) (fs : PyFields) → B.property k (B.from_entries fs) ≡ value_of k fs
