-- ===== src/Classifier/Model/Tests.antt =====
-- An artifact whose files all hold one object.
use lustro_node_agent.Base.{◌≡◌, refl, true, none, some, [], leb}
use lustro_node_agent.Base.Text.{Bytes, text, text_eq, strip}
use lustro_node_agent.Base.Value.{Fields, str, dict, field, end, get, has_key, truthy}
use lustro_node_agent.Base.Result.{ok}
use lustro_node_agent.Platform.{Platform}
use lustro_node_agent.CorePin.{Environ}
use lustro_node_agent.Egress.{before_first}
use lustro_node_agent.Client.{Classification}
use lustro_node_agent.Classifier.Model.{
  Artifact, ModelClassifier, classifier_file, read_json, read_optional, verified_bytes,
  thresholds_of, model_classifier, threshold_for, label_of, classify, verdict,
}
use lustro_node_agent.Classifier.Model.Labels.{classify-verdict}
use lustro_node_agent.Samples.{platform}

abbrev checksums : Fields
checksums = field classifier_file (str (text "digest")) end

abbrev card : Fields
card = field "checksums" (dict checksums) (field "embedding_model" (str (text "e5")) end)

abbrev parses : Platform
parses = record platform { loads = λ t. some (dict card) }

abbrev artifact : Artifact Bytes
artifact = record {
  read_text = λ name. some (ok (text "card"));
  read_bytes = λ name. some (text "model");
  reopen = λ name. some (text "model");
  sha256_hex = λ b. text "digest";
  imports = ok tt;
  path_exists = λ t. true;
  embedder = λ v dir. ok tt;
  joblib_load = λ b. ok b;
  infer = λ m features content. ok 7;
  to_float = λ v. ok 6;
  zero_point_six = 6;
  zero_point_five = 5;
  at_least = λ a b. leb b a;
  rounded = λ a. a;
}

abbrev cached : Environ
cached name = some (text "/cache")

abbrev made : ModelClassifier Bytes
made = record { model = text "model"; feature_config = card; thresholds = []; threshold = 6 }

made_lem : model_classifier parses artifact true cached ≡ ok made
unfolding model_classifier read_json read_optional verified_bytes thresholds_of get has_key truthy
    text_eq
made_lem = refl

abbrev answer : Classification
answer = record { label = text "misinformation"; score = 7 }

classified_lem : classify parses artifact made (text "hello") none ≡ ok answer
unfolding classify threshold_for label_of has_key truthy strip before_first
classified_lem = refl

classify-verdict_example :
    verdict parses artifact answer ≡ artifact.at_least answer.score artifact.zero_point_six
classify-verdict_example =
    classify-verdict parses artifact made (text "hello") none answer classified_lem
