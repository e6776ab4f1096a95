-- ===== src/Transport/Options.antt =====
-- `_to_js_object` of node_agent/transport.py, and the options that `FetchBackend._fetch` converts.
pub mod Guarded
use lustro_node_agent.Base.{
  ℕ, String, str_eq, Bool, true, false, ◌&&◌, Option, none, some, List, [], ◌∷◌, ◌++◌,
  if◌then◌else◌,
}
use lustro_node_agent.Base.Text.{Text, text}
use lustro_node_agent.Base.Result.{Exn, Result, ok, err, ◌>>=◌, ◌>>◌, guard, type_error}
use lustro_node_agent.Transport.{Fetched, FetchResponse, validate_body_size, settle_fetch}

-- What a Python dict that is passed to JavaScript may hold
mutual
  pub data PyValue : Type 0 where
    py_str : Text → PyValue
    py_int : ℕ → PyValue
    py_float : ℕ → PyValue
    py_bool : Bool → PyValue
    py_none : PyValue
    py_list : PyValue
    py_dict : PyFields → PyValue
    -- A value that JavaScript made, such as the signal of an `AbortController`
    js_proxy : PyValue
    -- A value of any other type
    other_object : PyValue

  pub data PyKey : Type 0 where
    str_key : String → PyKey
    other_key : PyKey

  pub data PyFields : Type 0 where
    no_entry : PyFields
    entry : PyKey → PyValue → PyFields → PyFields

-- `isinstance(k, str)`
abbrev pub is_str_key : PyKey → Bool
is_str_key (str_key k) = true
is_str_key other_key = false

-- `isinstance(v, (str, int, float, bool, type(None), list, dict, JsProxy))`
abbrev pub is_convertible : PyValue → Bool
is_convertible other_object = false
is_convertible _ = true

unfoldable pub all_str_keys : PyFields → Bool
all_str_keys no_entry = true
all_str_keys (entry k v fs) = is_str_key k && all_str_keys fs

unfoldable pub all_convertible : PyFields → Bool
all_convertible no_entry = true
all_convertible (entry k v fs) = is_convertible v && all_convertible fs

-- `to_js` of Pyodide and `Object.fromEntries` of JavaScript, over the objects `J` of JavaScript. A list
-- of entries is named by the fields that it is made of.
pub record JsBridge (J : Type 0) : Type 0 where
  -- `to_js(d, dict_converter=f)`, where `none` is that no converter is given
  pub to_js : Option (PyFields → J) → PyFields → J
  -- `js.Object.fromEntries`
  pub from_entries : PyFields → J
  -- `o[k]`, which is `none` for `undefined`
  pub property : String → J → Option PyValue

-- `_to_js_object`
unfoldable pub to_js_object : {J : Type 0} → JsBridge J → PyFields → Result J
unfolding all_str_keys all_convertible
to_js_object B fs = do
  guard (all_str_keys fs) type_error
  guard (all_convertible fs) type_error
  ok (B.to_js (some B.from_entries) fs)

-- `opts["body"]` and `opts["headers"]`
abbrev pub body_options : Option Text → PyFields
body_options none = no_entry
body_options (some body) = entry (str_key "body") (py_str body) (
    entry (str_key "headers")
      (py_dict (entry (str_key "Content-Type") (py_str (text "application/json")) no_entry))
      no_entry)

-- `opts`
unfoldable pub fetch_options : Text → Option Text → PyFields
fetch_options method body = entry (str_key "method") (py_str method) (
    entry (str_key "signal") js_proxy
      (entry (str_key "redirect") (py_str (text "error")) (body_options body)))

-- `_fetch` with what it hands to `js.fetch`, and what that gives
unfoldable pub fetch_with :
    {J : Type 0}
    → JsBridge J
    → (Text → J → Fetched)
    → Text
    → Text
    → Option Text
    → Result FetchResponse
unfolding fetch_options to_js_object
fetch_with B js_fetch url method body = do
  validate_body_size body
  opts ← to_js_object B (fetch_options method body)
  settle_fetch (js_fetch url opts)
