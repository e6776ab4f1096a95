-- ===== src/Classifier/Model.antt =====
-- `ModelClassifier`, over its artifact's files, SHA-256, the embedder and the loaded model as
-- parameters. A float is named by a number, as in `Value`.
pub mod Verified
pub mod Labels
mod Tests
use lustro_node_agent.Base.{
  ℕ, String, Bool, true, false, not, ◌||◌, ◌&&◌, Option, none, some, List, [], ◌∷◌, if◌then◌else◌,
}
use lustro_node_agent.Base.Text.{Text, Bytes, text, text_eq, is_empty, strip}
use lustro_node_agent.Base.Value.{Value, Fields, str, dict, float, end, field, get, has_key, truthy}
use lustro_node_agent.Base.Result.{
  Exn, Result, ok, err, ◌>>=◌, ◌>>◌, guard, or_raise, runtime_error, os_error, attribute_error,
}
use lustro_node_agent.Platform.{Platform}
use lustro_node_agent.CorePin.{Environ}
use lustro_node_agent.Egress.{before_first}
use lustro_node_agent.Client.{Classification}

-- The model root, and the packages that the class calls.
pub record Artifact (M : Type 0) : Type 0 where
  -- `path.read_text(encoding="utf-8")` of a file that exists
  pub read_text : String → Option (Result Text)
  -- `path.open("rb")`, if the file exists
  pub read_bytes : String → Option Bytes
  -- The same when `joblib.load` opens the file, later
  pub reopen : String → Option Bytes
  pub sha256_hex : Bytes → Text
  -- `import joblib` and `fastembed`
  pub imports : Result (Unit {0})
  pub path_exists : Text → Bool
  -- `TextEmbedding(…)` and `joblib.load` of what the file holds
  pub embedder : Value → Text → Result (Unit {0})
  pub joblib_load : Bytes → Result M
  -- The probability that the embedder, the features and the model give, for `include_lexical_features`
  pub infer : M → Bool → Text → Result ℕ
  -- `float(v)`, `0.6`, `0.5`, `>=`, and the clamp and the rounding of the score
  pub to_float : Value → Result ℕ
  pub zero_point_six : ℕ
  pub zero_point_five : ℕ
  pub at_least : ℕ → ℕ → Bool
  pub rounded : ℕ → ℕ

-- The attributes that `__init__` sets and `classify` reads
pub record ModelClassifier (M : Type 0) : Type 0 where
  pub model : M
  pub feature_config : Fields
  pub thresholds : List (Text × ℕ)
  pub threshold : ℕ

-- `value.get(…)` of what may be no object
abbrev pub object_or_empty : Value → Result Fields
object_or_empty (dict fs) = ok fs
object_or_empty v = if truthy v then err attribute_error else ok end

-- `hexdigest != expected`
abbrev pub same_text : Text → Value → Bool
same_text t (str u) = text_eq t u
same_text t _ = false

abbrev pub classifier_file : String
classifier_file = "disinfo_classifier.joblib"

module _ (P : Platform) {M : Type 0} (A : Artifact M) where
  -- `_read_json` from the text on
  abbrev pub parse_object : Option Value → Result Fields
  parse_object (some (dict fs)) = ok fs
  parse_object _ = err runtime_error

  abbrev pub parse_metadata : Result Text → Result Fields
  parse_metadata (ok t) = parse_object (P.loads t)
  parse_metadata (err os_error) = err runtime_error
  parse_metadata (err e) = err e

  -- `_read_json`
  unfoldable pub read_json : String → Result Fields
  read_json name = elim (A.read_text name) [ none ↦ err runtime_error | some r ↦ parse_metadata r ]

  -- `self._read_json(name) if … .exists() else {}`
  unfoldable pub read_optional : String → Result Fields
  read_optional name = elim (A.read_text name) [ none ↦ ok end | some r ↦ parse_metadata r ]

  -- The bytes of the classifier that are hashed, if their digest is the one of the model card
  unfoldable pub verified_bytes : Fields → Result Bytes
  verified_bytes card = do
    checksums ← object_or_empty (get "checksums" card)
    guard (truthy (get classifier_file checksums)) runtime_error
    raw ← or_raise (A.read_bytes classifier_file) os_error
    guard (same_text (A.sha256_hex raw) (get classifier_file checksums)) runtime_error
    ok raw

  -- One entry of `thresholds_by_language`
  abbrev pub threshold_of : Value → Result (Option ℕ)
  threshold_of (dict value) =
      if has_key "threshold" value
      then (do t ← A.to_float (get "threshold" value); ok (some t))
      else ok none
  threshold_of _ = ok none

  abbrev pub with_threshold : String → Option ℕ → List (Text × ℕ) → List (Text × ℕ)
  with_threshold lang none rest = rest
  with_threshold lang (some t) rest = (text lang, t) ∷ rest

  unfoldable pub thresholds_of : Fields → Result (List (Text × ℕ))
  thresholds_of end = ok []
  thresholds_of (field lang v fs) = do
    kept ← threshold_of v
    rest ← thresholds_of fs
    ok (with_threshold lang kept rest)

  -- `calibration.get("is_disinformation_threshold", 0.6)`
  abbrev pub default_threshold : Fields → Value
  default_threshold calibration =
      if has_key "is_disinformation_threshold" calibration
      then get "is_disinformation_threshold" calibration
      else float A.zero_point_six

  -- `os.environ.get("LUSTRO_NODE_EMBED_CACHE")`, which must name a directory that exists
  abbrev pub cache_dir : Environ → Result Text
  cache_dir env = do
    dir ← or_raise (env "LUSTRO_NODE_EMBED_CACHE") runtime_error
    guard (not (is_empty dir)) runtime_error
    guard (A.path_exists dir) runtime_error
    ok dir

  abbrev pub calibrated : M → Fields → Fields → Result (ModelClassifier M)
  calibrated model feature_config calibration = do
    by_language ← object_or_empty (get "thresholds_by_language" calibration)
    thresholds ← thresholds_of by_language
    threshold ← A.to_float (default_threshold calibration)
    let c : ModelClassifier M = record {
      model = model;
      feature_config = feature_config;
      thresholds = thresholds;
      threshold = threshold;
    }
    ok c

  -- `ModelClassifier(model_root)` for the root that the artifact stands for. `given` is whether the
  -- argument or the environment names one.
  unfoldable pub model_classifier : Bool → Environ → Result (ModelClassifier M)
  unfolding read_json read_optional verified_bytes thresholds_of
  model_classifier given env = do
    guard given runtime_error
    card ← read_json "model_card.json"
    embedder ← read_json "embedder_config.json"
    guard (truthy (get "embedding_model" embedder)) runtime_error
    feature_config ← read_optional "feature_config.json"
    calibration ← read_optional "calibration.json"
    verified_bytes card
    A.imports
    dir ← cache_dir env
    A.embedder (get "embedding_model" embedder) dir
    raw ← or_raise (A.reopen classifier_file) os_error
    model ← A.joblib_load raw
    calibrated model feature_config calibration

  -- `self._thresholds.get(key, self._threshold)`
  unfoldable pub threshold_for : Text → List (Text × ℕ) → ℕ → ℕ
  threshold_for key [] default = default
  threshold_for key ((lang, t) ∷ rest) default =
      let later = threshold_for key rest default in if text_eq lang key then t else later

  abbrev pub text_or_empty : Option Text → Text
  text_or_empty none = []
  text_or_empty (some t) = t

  -- `self.feature_config.get("include_lexical_features", True)`
  abbrev pub with_features : Fields → Bool
  with_features config =
      if has_key "include_lexical_features" config
      then truthy (get "include_lexical_features" config)
      else true

  unfoldable pub label_of : ℕ → ℕ → Text
  label_of probability threshold =
      if A.at_least probability threshold then text "misinformation" else text "factual"

  abbrev pub classified : ModelClassifier M → Option Text → ℕ → Classification
  classified c lang probability = record {
    label =
        label_of probability
          (threshold_for (before_first b'-' (text_or_empty lang)) c.thresholds c.threshold);
    score = A.rounded probability;
  }

  -- `classify`
  unfoldable pub classify : ModelClassifier M → Text → Option Text → Result Classification
  unfolding threshold_for label_of strip
  classify c content lang =
      if is_empty content || is_empty (strip content)
      then ok (record { label = text "unverified"; score = A.zero_point_five })
      else (do
        probability ← A.infer c.model (with_features c.feature_config) content
        ok (classified c lang probability))

  -- The verdict of `_print_result` of cli.py: `DISINFORMATION DETECTED` is `true`.
  unfoldable pub verdict : Classification → Bool
  verdict r = not (text_eq r.label (text "benign")) && A.at_least r.score A.zero_point_six
