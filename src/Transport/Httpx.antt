-- ===== src/Transport/Httpx.antt =====
-- `HttpxBackend` of node_agent/transport.py, over an `httpx.Client`, and what it changes of it.
use lustro_node_agent.Base.{◌≡◌, refl, Bool, false, none, some, List, String, str_eq, ◌||◌}
use lustro_node_agent.Base.Text.{Text}
use lustro_node_agent.Base.Result.{ok, type_error}
use lustro_node_agent.Client.{Request, Reply, failed, PyObject, Http}
use lustro_node_agent.Client.Wire.{check_method, validate_http_client}

-- The methods of the class
unfoldable httpx_method : String → Bool
httpx_method name =
    str_eq name "get" || str_eq name "post" || str_eq name "stream" || str_eq name "close"

-- An instance, whose only attribute is `_client`
unfoldable httpx_object : PyObject
unfolding httpx_method
httpx_object = record {
  has_attr = λ name. httpx_method name || str_eq name "_client";
  is_none = λ name. false;
  is_callable = httpx_method;
  class_has = httpx_method;
  dict_has = λ name. str_eq name "_client";
}

module _ (client : Http) where
  -- `get`, `post` and `stream`, none of which takes `headers`.
  unfoldable httpx_reply : List Request → Request → Reply
  httpx_reply past q = elim q.authorization [
    | some _ ↦ failed type_error
    | none ↦ client.reply past q
  ]

  -- A response is the one of `httpx`.
  unfoldable httpx_backend : Http
  unfolding httpx_object httpx_reply
  httpx_backend = record {
    object = httpx_object;
    reply = httpx_reply;
    status_raises = client.status_raises;
  }

  -- `NodeAgentClient` accepts an `HttpxBackend`, whether `httpx` can be imported or not.
  httpx_backend-accepted :
      (has_httpx : Bool) → validate_http_client has_httpx (some httpx_backend.object) ≡ ok tt
  unfolding httpx_backend httpx_object httpx_method validate_http_client check_method
  httpx_backend-accepted has_httpx = refl

  -- A request without an `Authorization` header gets the reply of the wrapped client.
  httpx_backend-same :
      (past : List Request) (q : Request)
      → q.authorization ≡ none
      → httpx_backend.reply past q ≡ client.reply past q
  unfolding httpx_backend httpx_reply
  httpx_backend-same past q plain = rw plain refl

  -- A request with one is refused by every such backend, also where the wrapped client would send
  -- it: `headers` is an argument that its methods do not take.
  httpx_backend-headers :
      (past : List Request) (q : Request) (value : Text)
      → q.authorization ≡ some value
      → httpx_backend.reply past q ≡ failed type_error
  unfolding httpx_backend httpx_reply
  httpx_backend-headers past q value given = rw given refl
