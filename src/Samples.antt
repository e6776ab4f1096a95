-- ===== src/Samples.antt =====
-- Data for the tests: a small platform, an edge that answers every request, and a signed work unit.
use lustro_node_agent.Base.{
  Bool, true, false, ◌&&◌, Option, none, some, [], ◌∷◌, ◌++◌, leb, if◌then◌else◌,
}
use lustro_node_agent.Base.Text.{Text, text, text_eq}
use lustro_node_agent.Base.Value.{Value, Fields, null, str, dict, float, field, end}
use lustro_node_agent.Base.Result.{Result, ok, err, value_error, http_error}
use lustro_node_agent.Platform.{Platform, ParsedUrl}
use lustro_node_agent.Egress.{guard_of}
use lustro_node_agent.JobLog
use lustro_node_agent.Seen.{nothing_seen}
use lustro_node_agent.Client.{Response, answered, PyObject, Http, NodeAgentClient, Node}

unfoldable pub starts_with : Text → Text → Bool
unfolding text_eq
starts_with [] t = true
starts_with (x ∷ p) [] = false
starts_with (x ∷ p) (y ∷ t) = text_eq (x ∷ []) (y ∷ []) && starts_with p t

abbrev pub edge_url : ParsedUrl
edge_url = record {
  scheme = text "https";
  netloc = text "edge";
  hostname = some (text "edge");
  port = ok none;
}

abbrev pub other_url : ParsedUrl
other_url = record {
  scheme = text "https";
  netloc = text "other:8443";
  hostname = some (text "other");
  port = ok (some 8443);
}

-- It knows the URLs of two hosts.
unfoldable pub urlparse : Text → Result ParsedUrl
unfolding starts_with
urlparse t =
    if starts_with (text "https://edge") t
    then ok edge_url
    else if starts_with (text "https://other:8443") t
    then ok other_url
    else err value_error

quoted : Text → Text
quoted t = b'"' ∷ t ++ b'"' ∷ []

print_value : Value → Text
unfolding quoted
print_value (str t) = quoted t
print_value v = text "0"

print_fields : Fields → Text
unfolding print_value
print_fields end = []
print_fields (field k v fs) = quoted (text k) ++ (b':' ∷ print_value v ++ (b',' ∷ print_fields fs))

-- JSON enough for objects of texts.
unfoldable pub dumps : Value → Text
unfolding print_fields
dumps (dict fs) = b'{' ∷ print_fields fs ++ b'}' ∷ []
dumps v = print_value v

abbrev pub wu_id : Text
wu_id = text "wu-1"

abbrev pub seen_value : Value
seen_value = dict (field "wu_id" (str wu_id) end)

-- It parses the one record that the tests write.
unfoldable pub loads : Text → Option Value
unfolding dumps text_eq
loads t = if text_eq t (dumps seen_value) then some seen_value else none

abbrev pub platform : Platform
platform = record {
  urlparse = urlparse;
  lower = λ t. t;
  loads = loads;
  loads_bytes = λ b. ok (loads b);
  dumps = dumps;
  dumps_canonical = dumps;
  dumps_ascii = dumps;
  b64encode = λ b. b;
  b64decode_lax = λ t. some t;
  b64decode = λ t. some t;
  utf8_decode = λ b. some b;
  utf8_replace = λ b. b;
  to_str = λ v. [];
  same_key = λ v w. true;
  set_order = λ xs. xs;
  now = λ t. float 0;
  key_accepted = λ k. true;
  key_verifies = λ k sig msg. text_eq k sig;
  parse_int = λ t. none;
}

abbrev pub http_object : PyObject
http_object = record {
  has_attr = λ a. true;
  is_none = λ a. false;
  is_callable = λ a. true;
  class_has = λ a. true;
  dict_has = λ a. false;
}

abbrev pub accepted : Response
accepted = record { status = 200; chunks = []; fault = none; json = ok null; body_text = [] }

abbrev pub http : Http
http = record {
  object = http_object;
  reply = λ past q. answered accepted;
  status_raises = λ status. if leb 400 status then some http_error else none;
}

abbrev pub client : NodeAgentClient
client = record {
  egress = guard_of platform edge_url none;
  classify = λ content lang. ok (record { label = text "factual"; score = 0 });
  public_key_raw_b64 = text "pub";
  sign = λ b. b;
  journal = JobLog.append platform;
  participant_token = text "token";
  pinned_constant = text "core";
  environ = λ name. none;
  httpx = some http;
  exn_name = λ e. text "Error";
}

abbrev pub work_unit : Fields
work_unit = field "wu_id" (str wu_id) (
    field "kind" (str (text "text")) (
      field "payload" (dict (field "text" (str (text "hello")) end)) (
        field "core_pubkey_id" (str (text "lustro-core-key-v1"))
          (field "core_sig" (str (text "core")) end))))

abbrev pub fresh_node : Node
fresh_node = record {
  replay = record { memory = nothing_seen; file = none };
  job_log = none;
  shipped = none;
  sent = [];
  open_clients = 0;
}
