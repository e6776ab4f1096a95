-- ===== src/Transport.antt =====
-- node_agent/transport.py: `FetchBackend`, the HTTP client of the browser, over the page's `fetch`.
pub mod Reading
mod Httpx
pub mod Options
mod Tests
use lustro_node_agent.Base.{
  ℕ, ◌+◌, ◌*◌, String, str_eq, Bool, true, false, not, ◌||◌, Option, none, some, List, [], ◌∷◌,
  ◌++◌, ltb, leb, length, if◌then◌else◌,
}
use lustro_node_agent.Base.Text.{Text, Bytes, utf8, is_empty}
use lustro_node_agent.Base.Result.{
  Exn, Result, ok, err, ◌>>=◌, ◌>>◌, guard, or_raise, value_error, unicode_error, transport_error,
  type_error,
}
use lustro_node_agent.Platform.{Platform}
use lustro_node_agent.Client.{
  Request, Response, Reply, answered, failed, PyObject, Http, http_get, http_post,
}

abbrev pub max_request_body_bytes : ℕ
max_request_body_bytes = 1048576

abbrev pub max_response_bytes : ℕ
max_response_bytes = 1048576

-- What the page's `fetch` resolves to. `text` is `none` where `resp.text()` is rejected.
pub record JsResponse : Type 0 where
  pub status : ℕ
  pub redirected : Bool
  pub text : Option Text

-- `rejected` stands for a `JsException`, an abort by the timer and a failure of the network.
pub data Fetched : Type 0 where
  arrived : JsResponse → Fetched
  rejected : Fetched

-- `_FetchResponse`, which the backend makes without a reader
pub record FetchResponse : Type 0 where
  pub status : ℕ
  pub text : Text

-- `_validate_body_size`
unfoldable pub validate_body_size : Option Text → Result (Unit {0})
validate_body_size none = ok tt
validate_body_size (some body) =
    guard (not (ltb max_request_body_bytes (length body))) transport_error

-- The `try` of `_fetch` from the response on. Its last clause makes every exception a
-- `TransportError`, also the one of a text that UTF-8 cannot encode.
unfoldable pub read_response : JsResponse → Result FetchResponse
read_response r = do
  guard (not r.redirected) transport_error
  t ← or_raise r.text transport_error
  b ← or_raise (utf8 t) transport_error
  guard (not (ltb max_response_bytes (length b))) transport_error
  ok (record { status = r.status; text = t })

unfoldable pub settle_fetch : Fetched → Result FetchResponse
unfolding read_response
settle_fetch (arrived r) = read_response r
settle_fetch rejected = err transport_error

-- `_fetch`
unfoldable pub fetch : Option Text → Fetched → Result FetchResponse
unfolding validate_body_size settle_fetch
fetch body answer = do validate_body_size body; settle_fetch answer

-- What a generator of chunks yields, and the exception that ends it.
pub record Chunks : Type 0 where
  pub yielded : List Bytes
  pub fault : Option Exn

-- `iter_bytes` without a reader
unfoldable pub iter_bytes : Text → Chunks
iter_bytes t = elim (utf8 t) [
  | none ↦ record { yielded = []; fault = some unicode_error }
  | some b ↦
      if ltb max_response_bytes (length b)
      then record { yielded = []; fault = some transport_error }
      else record { yielded = b ∷ []; fault = none }
]

abbrev pub yield_first : Bytes → Chunks → Chunks
yield_first chunk rest = record { yielded = chunk ∷ rest.yielded; fault = rest.fault }

-- `iter_bytes` with a reader, which gives `chunks`. `body` is what was read so far.
unfoldable pub iter_reader : Bytes → List Bytes → Chunks
iter_reader body [] = record { yielded = []; fault = none }
iter_reader body (chunk ∷ chunks) =
    let rest = iter_reader (body ++ chunk) chunks in
    if is_empty chunk
    then record { yielded = []; fault = none }
    else if ltb max_response_bytes (length body + length chunk)
    then record { yielded = []; fault = some transport_error }
    else yield_first chunk rest

-- The methods of the class `FetchBackend`
unfoldable pub fetch_method : String → Bool
fetch_method name =
    str_eq name "get" || str_eq name "post" || str_eq name "close" || str_eq name "stream"

unfoldable pub fetch_object : PyObject
fetch_object = record {
  has_attr = fetch_method;
  is_none = λ name. false;
  is_callable = fetch_method;
  class_has = fetch_method;
  dict_has = λ name. false;
}

-- `raise_for_status`
unfoldable pub fetch_status_raises : ℕ → Option Exn
fetch_status_raises status = if leb 400 status then some transport_error else none

module _ (P : Platform) where
  -- `js_dumps` of the body of a `post`
  unfoldable pub request_body : Request → Option Text
  request_body q = elim q.json [ none ↦ none | some v ↦ some (P.dumps v) ]

  -- What the client reads of a `_FetchResponse`
  unfoldable pub as_response : FetchResponse → Response
  unfolding iter_bytes
  as_response r = record {
    status = r.status;
    chunks = (iter_bytes r.text).yielded;
    fault = (iter_bytes r.text).fault;
    json = or_raise (P.loads r.text) value_error;
    body_text = r.text;
  }

  unfoldable pub reply_of : Result FetchResponse → Reply
  unfolding as_response
  reply_of (ok r) = answered (as_response r)
  reply_of (err e) = failed e

  -- `get`, `post` and `stream`, none of which takes `headers`.
  unfoldable pub fetch_reply : (List Request → Request → Fetched) → List Request → Request → Reply
  unfolding fetch reply_of request_body
  fetch_reply network past q = elim q.authorization [
    | some _ ↦ failed type_error
    | none ↦ reply_of (fetch (request_body q) (network past q))
  ]

  -- `FetchBackend` over a network
  unfoldable pub fetch_backend : (List Request → Request → Fetched) → Http
  unfolding fetch_reply fetch_object fetch_status_raises
  fetch_backend network = record {
    object = fetch_object;
    reply = fetch_reply network;
    status_raises = fetch_status_raises;
  }
