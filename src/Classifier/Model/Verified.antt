-- ===== src/Classifier/Model/Verified.antt =====
-- No model is loaded whose file the model card does not vouch for.
use lustro_node_agent.Base.{◌≡◌, ap, ◌∙◌, subst, Bool, true, Option, none, some}
use lustro_node_agent.Base.Text.{Bytes}
use lustro_node_agent.Base.Value.{Fields, get, truthy}
use lustro_node_agent.Base.Result.{
  Exn, ok, >>=-eq-ok, guard-eq-ok, ok-injective, or_raise, os_error, runtime_error,
}
use lustro_node_agent.Platform.{Platform}
use lustro_node_agent.CorePin.{Environ}
use lustro_node_agent.Classifier.Model.{
  Artifact, ModelClassifier, model_classifier, verified_bytes, read_json, read_optional,
  object_or_empty, same_text, classifier_file, cache_dir, calibrated, thresholds_of,
  default_threshold,
}

module _ (P : Platform) {M : Type 0} (A : Artifact M) where
  or_raise-ok : {B : Type 0} (o : Option B) (e : Exn) {b : B} → or_raise o e ≡ ok b → o ≡ some b
  or_raise-ok (some b) e h = ap some (ok-injective h)
  or_raise-ok none e h = cc

  verified_bytes-ok :
      (card : Fields) (raw : Bytes)
      → verified_bytes P A card ≡ ok raw
      → (checksums : Fields) × (object_or_empty (get "checksums" card) ≡ ok checksums)
        × (A.read_bytes classifier_file ≡ some raw)
        × (same_text (A.sha256_hex raw) (get classifier_file checksums) ≡ true)
  unfolding verified_bytes
  verified_bytes-ok card raw h =
      let (checksums, found, h₁) = >>=-eq-ok (object_or_empty (get "checksums" card)) _ h in
      let (_, h₂) = guard-eq-ok (truthy (get classifier_file checksums)) runtime_error _ h₁ in
      let (b, read, h₃) = >>=-eq-ok (or_raise (A.read_bytes classifier_file) os_error) _ h₂ in
      let (same, h₄) =
        guard-eq-ok (same_text (A.sha256_hex b) (get classifier_file checksums)) runtime_error _
          h₃ in
      let this : b ≡ raw = ok-injective h₄ in
      (
        checksums,
        found,
        or_raise-ok (A.read_bytes classifier_file) os_error read ∙ ap some this,
        subst (λ x. same_text (A.sha256_hex x) (get classifier_file checksums) ≡ true) this same,
      )

  calibrated-model :
      (model : M) (feature_config calibration : Fields) (c : ModelClassifier M)
      → calibrated P A model feature_config calibration ≡ ok c
      → model ≡ c.model
  calibrated-model model feature_config calibration c h =
      let (langs, _, h₁) =
        >>=-eq-ok (object_or_empty (get "thresholds_by_language" calibration)) _ h in
      let (thresholds, _, h₂) = >>=-eq-ok (thresholds_of P A langs) _ h₁ in
      let (threshold, _, h₃) = >>=-eq-ok (A.to_float (default_threshold P A calibration)) _ h₂ in
      ap (λ (d : ModelClassifier M). d.model) (ok-injective h₃)

  -- Where `ModelClassifier` is made, the model card is an object with a checksum for the classifier
  -- file that is the SHA-256 of what the file held when it was hashed, and its model is what
  -- `joblib.load` makes of what the file holds when it is opened again.
  pub model_classifier-verified :
      (given : Bool) (env : Environ) (c : ModelClassifier M)
      → model_classifier P A given env ≡ ok c
      → (hashed raw : Bytes) × (card checksums : Fields) × (A.joblib_load raw ≡ ok c.model)
        × (A.read_bytes classifier_file ≡ some hashed)
        × (A.reopen classifier_file ≡ some raw)
        × (read_json P A "model_card.json" ≡ ok card)
        × (object_or_empty (get "checksums" card) ≡ ok checksums)
        × (same_text (A.sha256_hex hashed) (get classifier_file checksums) ≡ true)
  unfolding model_classifier
  model_classifier-verified given env c h =
      let (_, h₁) = guard-eq-ok given runtime_error _ h in
      let (card, read, h₂) = >>=-eq-ok (read_json P A "model_card.json") _ h₁ in
      let (embedder, _, h₃) = >>=-eq-ok (read_json P A "embedder_config.json") _ h₂ in
      let (_, h₄) = guard-eq-ok (truthy (get "embedding_model" embedder)) runtime_error _ h₃ in
      let (features, _, h₅) = >>=-eq-ok (read_optional P A "feature_config.json") _ h₄ in
      let (calibration, _, h₆) = >>=-eq-ok (read_optional P A "calibration.json") _ h₅ in
      let (hashed, verified, h₇) = >>=-eq-ok (verified_bytes P A card) _ h₆ in
      let (_, _, h₈) = >>=-eq-ok A.imports _ h₇ in
      let (dir, _, h₉) = >>=-eq-ok (cache_dir P A env) _ h₈ in
      let (_, _, h₁₀) = >>=-eq-ok (A.embedder (get "embedding_model" embedder) dir) _ h₉ in
      let (raw, reopened, h₁₁) = >>=-eq-ok (or_raise (A.reopen classifier_file) os_error) _ h₁₀ in
      let (model, loaded, h₁₂) = >>=-eq-ok (A.joblib_load raw) _ h₁₁ in
      let same = calibrated-model model features calibration c h₁₂ in
      let (checksums, found, bytes, vouched) = verified_bytes-ok card hashed verified in
      let again = or_raise-ok (A.reopen classifier_file) os_error reopened in
      (hashed, raw, card, checksums, loaded ∙ ap ok same, bytes, again, read, found, vouched)
