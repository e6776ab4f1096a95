-- ===== src/Cli/Closed.antt =====
-- `run` fails closed: without `--stub` it works with the verified model of the artifact, or not at all.
use lustro_node_agent.Base.{◌≡◌, ◌⊎◌, inl, inr, refl, sym, ◌∙◌, ap, Bool, true, false, some}
use lustro_node_agent.Base.Text.{Bytes}
use lustro_node_agent.Base.Value.{Fields, get}
use lustro_node_agent.Base.Result.{Result, ok, err, ok-injective}
use lustro_node_agent.Classifier.Model.{
  Artifact, ModelClassifier, model_classifier, classify, read_json, object_or_empty, same_text,
  classifier_file,
}
use lustro_node_agent.Classifier.Model.Verified.{model_classifier-verified}
use lustro_node_agent.Cli.{Agent, Machine, RunArgs, Classify, cmd_run}
use lustro_node_agent.Cli.Run.Outcomes.{Idle, Session}
use lustro_node_agent.Cli.Run.{cmd_run-Session}

module _ {K : Type 0} (M : Machine K) where
  -- `ModelClassifier()` as the classifier of `run`
  abbrev pub model_of : {N : Type 0} → Artifact N → Result (ModelClassifier N) → Result Classify
  model_of A (ok c) = ok (classify M.platform A c)
  model_of A (err e) = err e

  module _ {N : Type 0} (A : Artifact N) where
    -- `used` runs a model that was loaded from bytes whose digest is in the model card.
    pub record Vouched (used : Classify) : Type 0 where
      pub classifier : ModelClassifier N
      pub raw : Bytes
      pub card : Fields
      pub checksums : Fields
      pub runs : used ≡ classify M.platform A classifier
      pub loaded : A.joblib_load raw ≡ ok classifier.model
      pub on_card : read_json M.platform A "model_card.json" ≡ ok card
      pub listed : object_or_empty (get "checksums" card) ≡ ok checksums
      pub digest : same_text (A.sha256_hex raw) (get classifier_file checksums) ≡ true

    -- The classifier file is the same when `joblib.load` opens it as when it was hashed.
    abbrev pub Unchanged : Type 0
    Unchanged = A.reopen classifier_file ≡ A.read_bytes classifier_file

    some-injective : {B : Type 0} {a b : B} → some a ≡ some b → a ≡ b
    some-injective h = cc

    module _ (given : Bool) (unchanged : Unchanged) where
      Vouched-model :
          (used : Classify) (r : Result (ModelClassifier N))
          → model_classifier M.platform A given M.environ ≡ r
          → model_of A r ≡ ok used
          → Vouched used
      Vouched-model used (err e) made model = cc
      Vouched-model used (ok c) made model =
          let (hashed, raw, card, checksums, loaded, bytes, again, on_card, listed, digest) =
            model_classifier-verified M.platform A given M.environ c made in
          let same : hashed ≡ raw = some-injective (sym bytes ∙ sym unchanged ∙ again) in
          record {
            classifier = c;
            raw = raw;
            card = card;
            checksums = checksums;
            runs = sym (ok-injective model);
            loaded = loaded;
            on_card = on_card;
            listed = listed;
            digest =
                ap (λ b. same_text (A.sha256_hex b) (get classifier_file checksums)) (sym same)
                ∙ digest;
          }

      Vouched-chosen :
          (used : Classify) (stub : Bool) {stubbed : Type 0}
          → stub ≡ false
          → M.model ≡ model_of A (model_classifier M.platform A given M.environ)
          → ((stub ≡ true) × stubbed) ⊎ ((stub ≡ false) × (M.model ≡ ok used))
          → Vouched used
      Vouched-chosen used stub real model (inl (stubbed, _)) = cc
      Vouched-chosen used stub real model (inr (_, chosen)) =
          Vouched-model used (model_classifier M.platform A given M.environ) refl
            (sym model ∙ chosen)

      -- `run` without `--stub`, where the model is what `ModelClassifier()` makes of the artifact, and
      -- the classifier file does not change between its hash and its load: either the command fails,
      -- and has made no request, written no log and registered nothing, or the classifier of the
      -- client that registers and pulls runs a model that was loaded from bytes whose SHA-256 is the
      -- one of the model card.
      pub cmd_run-closed :
          (args : RunArgs K) (s : Agent)
          → args.stub ≡ false
          → M.model ≡ model_of A (model_classifier M.platform A given M.environ)
          → Idle s (cmd_run M args s)
            ⊎ ((q : Session M args s (cmd_run M args s)) × Vouched q.classify)
      cmd_run-closed args s real model = elim (cmd_run-Session M args s) [
        | inl (idle, _) ↦ inl idle
        | inr q ↦ inr (q, Vouched-chosen q.classify args.stub real model q.chosen)
      ]
