-- ===== src/Client.antt =====
-- The state of node_agent/client.py: what a `NodeAgentClient` was made with, what its methods
-- change, and the HTTP clients that they are handed.
pub mod Wire
pub mod Payload
pub mod Validate
pub mod Process
pub mod Register
pub mod Pull
pub mod Batch
pub mod Ship
pub mod Safety
pub mod Session
pub mod Tests
use lustro_node_agent.Base.{ℕ, Bool, String, Option, List}
use lustro_node_agent.Base.Text.{Text, Bytes}
use lustro_node_agent.Base.Value.{Value, Fields}
use lustro_node_agent.Base.Result.{Exn, Result}
use lustro_node_agent.Base.Exec.{Exec}
use lustro_node_agent.JobLog.{TextFile}
use lustro_node_agent.Seen.{ReplayStore}
use lustro_node_agent.Egress.{EgressGuard}
use lustro_node_agent.CorePin.{Environ}

pub data Method : Type 0 where
  http_get http_post : Method

pub record Request : Type 0 where
  pub method : Method
  pub url : Text
  pub json : Option Value
  -- The `Authorization` header.
  pub authorization : Option Text

-- A response, with its body in the three forms in which the code reads it: streamed chunks, which
-- an exception may end, the parsed `.json()`, and the `_text` of a `FetchBackend` response.
pub record Response : Type 0 where
  pub status : ℕ
  pub chunks : List Bytes
  pub fault : Option Exn
  pub json : Result Value
  pub body_text : Text

pub data Reply : Type 0 where
  answered : Response → Reply
  failed : Exn → Reply

-- What `hasattr`, `getattr`, `callable` and the class of an attribute show of a Python object.
pub record PyObject : Type 0 where
  pub has_attr : String → Bool
  pub is_none : String → Bool
  pub is_callable : String → Bool
  pub class_has : String → Bool
  pub dict_has : String → Bool

-- An HTTP client, and the network behind it: a reply may depend on every request so far.
pub record Http : Type 0 where
  pub object : PyObject
  pub reply : List Request → Request → Reply
  -- The exception of `raise_for_status` for a status, if it raises.
  pub status_raises : ℕ → Option Exn

pub record Classification : Type 0 where
  pub label : Text
  -- `float(result.score)`
  pub score : ℕ

-- A job log: the file of joblog.py, or the browser's store.
abbrev pub Journal : Type 0
Journal = Fields → Exec TextFile (Unit {0})

pub record NodeAgentClient : Type 0 where
  pub egress : EgressGuard
  pub classify : Text → Option Text → Result Classification
  pub public_key_raw_b64 : Text
  pub sign : Bytes → Bytes
  pub journal : Journal
  pub participant_token : Text
  -- `PINNED_CORE_PUBLIC_KEY_B64` and `os.environ`
  pub pinned_constant : Text
  pub environ : Environ
  -- `httpx.Client(timeout=30)`, if `httpx` can be imported.
  pub httpx : Option Http
  -- `type(exc).__name__`
  pub exn_name : Exn → Text

-- What the methods change.
pub record Node : Type 0 where
  pub replay : ReplayStore
  pub job_log : TextFile
  -- The file `shipped.offset`.
  pub shipped : TextFile
  -- The requests that were made, oldest first.
  pub sent : List Request
  -- The `httpx` clients that were opened and not closed.
  pub open_clients : ℕ
