-- ===== src/Transport/Tests.antt =====
-- `FetchBackend` over pages that answer at once.
use lustro_node_agent.Base.{String, Option, ◌≡◌, refl, sym, true, false, none, some, List, [], ◌∷◌}
use lustro_node_agent.Base.Text.{Text, Bytes, text, utf8}
use lustro_node_agent.Base.Result.{transport_error}
use lustro_node_agent.Client.{Request, Response, answered, failed, http_get}
use lustro_node_agent.Client.Pull.{streamed_wu, buffered_wu}
use lustro_node_agent.Transport.{Fetched, arrived, as_response, fetch_reply}
use lustro_node_agent.Transport.Reading.{streamed_wu-buffered_wu}
use lustro_node_agent.Transport.Options.{PyFields, PyValue, JsBridge}
use lustro_node_agent.Transport.Options.Guarded.{value_of}
use lustro_node_agent.Samples.{platform}

abbrev answers : List Request → Request → Fetched
answers past q = arrived (record { status = 200; redirected = false; text = some (text "{}") })

abbrev redirects : List Request → Request → Fetched
redirects past q = arrived (record { status = 200; redirected = true; text = some (text "{}") })

abbrev a_get : Request
a_get = record {
  method = http_get;
  url = text "https://edge/v1/wu";
  json = none;
  authorization = none;
}

abbrev got : Response
got = as_response platform (record { status = 200; text = text "{}" })

answers_lem : fetch_reply platform answers [] a_get ≡ answered got
unfolding fetch_reply utf8
answers_lem = refl

streamed_wu-buffered_wu_example : streamed_wu platform got ≡ buffered_wu platform got
unfolding as_response utf8
streamed_wu-buffered_wu_example =
    streamed_wu-buffered_wu platform answers [] a_get got (λ b e. sym e) answers_lem

redirects_lem : fetch_reply platform redirects [] a_get ≡ failed transport_error
unfolding fetch_reply
redirects_lem = refl

abbrev two_chunks : List Bytes
two_chunks = (1 ∷ 2 ∷ []) ∷ (3 ∷ []) ∷ []

-- An object is a `Map` or has properties.
data JsObject : Type 0 where
  js_map : PyFields → JsObject
  plain : PyFields → JsObject

property_of : String → JsObject → Option PyValue
property_of k (js_map fs) = none
property_of k (plain fs) = value_of k fs

convert : Option (PyFields → JsObject) → PyFields → JsObject
convert none fs = js_map fs
convert (some f) fs = f fs

abbrev bridge : JsBridge JsObject
bridge = record { to_js = convert; from_entries = plain; property = property_of }

abbrev page : Text → JsObject → Fetched
page url opts = answers [] a_get
