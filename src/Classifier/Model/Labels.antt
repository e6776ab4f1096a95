-- ===== src/Classifier/Model/Labels.antt =====
-- The label of a classification and the verdict that the command line prints.
use lustro_node_agent.Base.{ℕ, ◌≡◌, inl, inr, refl, ap, false, ◌||◌, Option, Bool-cases}
use lustro_node_agent.Base.Text.{Text, text, text_eq, is_empty, strip}
use lustro_node_agent.Base.Result.{ok, >>=-eq-ok, ok-injective}
use lustro_node_agent.Platform.{Platform}
use lustro_node_agent.Client.{Classification}
use lustro_node_agent.Classifier.Model.{
  Artifact, ModelClassifier, classify, classified, label_of, with_features, verdict,
}

module _ (P : Platform) {M : Type 0} (A : Artifact M) where
  label_of-other :
      (probability threshold : ℕ)
      → text_eq (label_of P A probability threshold) (text "benign") ≡ false
  unfolding label_of text_eq
  label_of-other probability threshold = elim (Bool-cases (A.at_least probability threshold)) [
    | inl above ↦ rw above refl
    | inr below ↦ rw below refl
  ]

  -- A label that is not "benign" leaves the score to decide.
  verdict-score :
      (r : Classification)
      → text_eq r.label (text "benign") ≡ false
      → verdict P A r ≡ A.at_least r.score A.zero_point_six
  unfolding verdict
  verdict-score r other = rw other refl

  classified-verdict :
      (r s : Classification)
      → ok r ≡ ok s
      → text_eq r.label (text "benign") ≡ false
      → verdict P A s ≡ A.at_least s.score A.zero_point_six
  classified-verdict r s same other =
      let label : r.label ≡ s.label = ap (λ (x : Classification). x.label) (ok-injective same) in
      verdict-score s (rw (← label) other)

  -- For every classification the verdict is `DISINFORMATION DETECTED` just where the score is at least
  -- 0.6, whatever the label is: no label of `classify` is the "benign" that the verdict tests for.
  pub classify-verdict :
      (c : ModelClassifier M) (content : Text) (lang : Option Text) (r : Classification)
      → classify P A c content lang ≡ ok r
      → verdict P A r ≡ A.at_least r.score A.zero_point_six
  unfolding classify text_eq
  classify-verdict c content lang r h =
      elim (Bool-cases (is_empty content || is_empty (strip content))) [
        | inl blank ↦
            let blank_one : Classification = record {
              label = text "unverified";
              score = A.zero_point_five;
            } in
            classified-verdict blank_one r (rw blank at h) refl
        | inr some_text ↦
            let (probability, _, rest) =
              >>=-eq-ok (A.infer c.model (with_features P A c.feature_config) content) _
                (rw some_text at h) in
            classified-verdict (classified P A c lang probability) r rest
              (label_of-other probability _)
      ]
