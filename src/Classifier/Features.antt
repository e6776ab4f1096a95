-- ===== src/Classifier/Features.antt =====
-- `_lexical_features`, the inference of `ModelClassifier.classify`, and `_sha256`, over the regular
-- expressions, the methods of `str`, the packages and `hashlib` as parameters.
pub mod Ranges
pub mod Digest
mod Tests
use Prim.Native.Nat.{min, max}
use lustro_node_agent.Base.{
  ℕ, zero, suc, ◌*◌, Bool, true, false, ◌||◌, Option, none, some, List, [], ◌∷◌, ◌++◌, ◌==◌, length,
  take, drop, if◌then◌else◌,
}
use mathlib.Core.List.{map}
use lustro_node_agent.Base.Text.{Text, Bytes, text, is_empty}
use lustro_node_agent.Base.Result.{Exn, Result, ok, err, ◌>>=◌, runtime_error}
use lustro_node_agent.LogWall.{contains}

-- A quotient of two integers, before it is rounded to a float
pub record Fraction : Type 0 where
  pub num : ℕ
  pub den : ℕ

pub record Regex : Type 0 where
  -- `re.findall(r"\w+", text, re.UNICODE)`
  pub words : Text → List Text
  -- `re.findall(r"https?://\S+", text, re.IGNORECASE)`
  pub links : Text → List Text
  -- `char.isupper()` and `char.isalpha()` of one character, and `str.lower`
  pub is_upper : ℕ → Bool
  pub is_alpha : ℕ → Bool
  pub lower : Text → Text

-- `sum(1 for char in text if …)`
unfoldable pub count_if : (ℕ → Bool) → Text → ℕ
count_if p [] = 0
count_if p (c ∷ t) = let n = count_if p t in if p c then suc n else n

-- `any(token in text for token in tokens)`
unfoldable pub any_in : List Text → Text → Bool
any_in [] t = false
any_in (token ∷ tokens) t = contains token t || any_in tokens t

-- `min(n, limit) / limit`
abbrev pub capped : ℕ → ℕ → Fraction
capped n limit = record { num = min n limit; den = limit }

abbrev pub flag : Bool → Fraction
flag b = if b then record { num = 1; den = 1 } else record { num = 0; den = 1 }

abbrev pub source_tokens : List Text
source_tokens = text "wrealu" ∷ text "newsfront" ∷ text "zmianynaziemi" ∷ text "wolnemedia" ∷ []

abbrev pub topic_tokens : List Text
topic_tokens =
    text "ukraina" ∷ text "nato" ∷ text "bruksela" ∷ text "gaz" ∷ text "prad" ∷ text "prąd" ∷ []

module _ (R : Regex) where
  abbrev pub upper_ratio : Text → Fraction
  upper_ratio t = record { num = count_if R.is_upper t; den = max (count_if R.is_alpha t) 1 }

  -- `_lexical_features(text, source_name)`
  unfoldable pub lexical_features : Text → Text → List Fraction
  unfolding count_if any_in
  lexical_features t source_name =
      capped (length t) 5000
      ∷ capped (max (length (R.words t)) 1) 1000
      ∷ capped (count_if (λ c. c == b'!') t) 10
      ∷ capped (count_if (λ c. c == b'?') t) 10
      ∷ upper_ratio t
      ∷ capped (length (R.links t)) 10
      ∷ flag (any_in source_tokens (R.lower source_name))
      ∷ flag (any_in topic_tokens (R.lower t))
      ∷ []

-- The loaded model: the methods that it has, on a row of floats, each named by a number.
pub record Estimator : Type 0 where
  -- `float(predict_proba(matrix)[0, -1])`
  pub predict_proba : Option (List ℕ → Result ℕ)
  -- `float(decision_function(matrix)[0])`
  pub decision_function : Option (List ℕ → Result ℕ)
  -- `float(predict(matrix)[0])`
  pub predict : List ℕ → Result ℕ

pub record Numeric : Type 0 where
  -- `next(self._embedder.embed([f"query: {content}"]))`
  pub embed : Text → Result (List ℕ)
  pub as_float32 : Fraction → ℕ
  -- `1.0 / (1.0 + math.exp(-score))`
  pub logistic : ℕ → Result ℕ

module _ (R : Regex) (N : Numeric) where
  -- The row that the model is given
  unfoldable pub matrix : Bool → Text → List ℕ → List ℕ
  unfolding lexical_features
  matrix include content embedding =
      if include then embedding ++ map N.as_float32 (lexical_features R content []) else embedding

  abbrev pub probability_of : Estimator → List ℕ → Result ℕ
  probability_of E row = elim E.predict_proba [
    | some proba ↦ proba row
    | none ↦ elim E.decision_function [
      | some decide ↦ do score ← decide row; N.logistic score
      | none ↦ E.predict row
    ]
  ]

  -- `except Exception as exc: raise RuntimeError(…)`
  abbrev pub inference : Result ℕ → Result ℕ
  inference (ok p) = ok p
  inference (err e) = err runtime_error

  -- The probability of `classify`. An exception of the embedder is not caught.
  unfoldable pub infer : Estimator → Bool → Text → Result ℕ
  unfolding matrix
  infer E include content = do
    embedding ← N.embed content
    inference (probability_of E (matrix include content embedding))

-- `hashlib.sha256()` with its methods
pub record Hashlib (H : Type 0) : Type 0 where
  pub new : H
  pub update : H → Bytes → H
  pub hexdigest : H → Text

abbrev pub chunk_bytes : ℕ
chunk_bytes = 1024 * 1024

module _ {H : Type 0} (L : Hashlib H) where
  -- The loop on what is not read yet. A round reads at least one byte.
  unfoldable pub digest_from : ℕ → H → Bytes → H
  digest_from zero h rest = h
  digest_from (suc rounds) h rest =
      let later = digest_from rounds (L.update h (take chunk_bytes rest)) (drop chunk_bytes rest) in
      if is_empty rest then h else later

  -- `_sha256` of the bytes of a file
  unfoldable pub sha256 : Bytes → Text
  unfolding digest_from
  sha256 raw = L.hexdigest (digest_from (length raw) L.new raw)
