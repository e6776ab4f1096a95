-- ===== src/Client/Wire.antt =====
-- Requests: `_validate_http_client`, the choice of a client, and its `finally: client.close()`.
pub mod Keeps
use lustro_node_agent.Base.{
  String, Bool, true, false, not, ◌&&◌, Option, none, some, List, [], ◌∷◌, ◌++◌, ◌+◌, ◌-◌,
  if◌then◌else◌,
}
use lustro_node_agent.Base.Text.{Text}
use lustro_node_agent.Base.Value.{Value, Fields}
use lustro_node_agent.Base.Result.{
  Exn, Result, ok, err, ◌>>◌, guard, type_error, runtime_error, attribute_error, http_error,
  os_error,
}
use lustro_node_agent.Base.Exec.{Outcome, Exec, returned, raised}
use lustro_node_agent.JobLog.{TextFile}
use lustro_node_agent.Client.{
  Request, Response, Reply, answered, failed, PyObject, Http, Method, http_post, NodeAgentClient,
  Node,
}

-- The checks of one required method, in the order of the loop's body.
unfoldable pub check_method : PyObject → String → Result (Unit {0})
check_method o m = do
  guard (o.has_attr m) type_error
  guard (not (o.is_none m)) type_error
  guard (o.is_callable m) type_error
  guard (not (not (o.class_has m) && (not (o.dict_has m) && o.has_attr "__getattr__"))) type_error

-- `_validate_http_client`
unfoldable pub validate_http_client : Bool → Option PyObject → Result (Unit {0})
unfolding check_method
validate_http_client has_httpx (some o) = do
  check_method o "get"
  check_method o "post"
  check_method o "close"
  guard (not (o.has_attr "stream" && (not (o.is_none "stream") && not (o.is_callable "stream"))))
      type_error
validate_http_client has_httpx none = guard has_httpx runtime_error

module _ {A : Type 0} where
  -- `try: m`, with the exception as a value for the `except` clauses.
  abbrev pub attempt : Exec Node A → Exec Node (Result A)
  attempt m s = elim (m s) [ returned a t ↦ returned (ok a) t | raised e t ↦ returned (err e) t ]

  abbrev pub closed : Outcome Node A → Outcome Node A
  closed (returned a s) = returned a (record s { open_clients = s.open_clients - 1 })
  closed (raised e s) = raised e (record s { open_clients = s.open_clients - 1 })

-- `except (_HTTPError, OSError)`, where `_HTTPError` is `OSError` if `httpx` is missing.
abbrev pub is_transport_error : Bool → Exn → Bool
is_transport_error has_httpx http_error = has_httpx
is_transport_error has_httpx os_error = true
is_transport_error has_httpx _ = false

abbrev pub is_present : {A : Type 0} → Option A → Bool
is_present none = false
is_present (some _) = true

abbrev pub object_of : Option Http → Option PyObject
object_of none = none
object_of (some h) = some h.object

module _ (C : NodeAgentClient) where
  abbrev pub settle_log : Node → Outcome TextFile (Unit {0}) → Outcome Node (Unit {0})
  settle_log s (returned _ file) = returned tt (record s { job_log = file })
  settle_log s (raised e file) = raised e (record s { job_log = file })

  -- `self._joblog.append`
  unfoldable pub log_entry : Fields → Exec Node (Unit {0})
  log_entry entry s = settle_log s (C.journal entry s.job_log)

  abbrev pub settle_reply : Node → Reply → Outcome Node Response
  settle_reply s (answered r) = returned r s
  settle_reply s (failed e) = raised e s

  -- One request on the wire.
  unfoldable pub send : Http → Request → Exec Node Response
  send h q s = settle_reply (record s { sent = s.sent ++ q ∷ [] }) (h.reply s.sent q)

  -- `resp.raise_for_status()`
  unfoldable pub raise_for_status : Http → Response → Exec Node (Unit {0})
  raise_for_status h r s = elim (h.status_raises r.status) [
    | none ↦ returned tt s
    | some e ↦ raised e s
  ]

  module _ {A : Type 0} where
    -- `client = http or httpx.Client(…)`, the body, and `finally` the close of an owned client.
    unfoldable pub using_client : Option Http → (Http → Exec Node A) → Exec Node A
    using_client (some h) body s = body h s
    using_client none body s = elim C.httpx [
      | none ↦ raised attribute_error s
      | some h ↦ closed (body h (record s { open_clients = s.open_clients + 1 }))
    ]
