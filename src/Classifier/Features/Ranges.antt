-- ===== src/Classifier/Features/Ranges.antt =====
-- The features are numbers from 0 to 1, and the model gets eight of them.
use mathlib.Core.List.{map}
use lustro_node_agent.Base.{
  ℕ, ◌+◌, ◌≤◌, ◌<◌, ◌≡◌, Bool, true, false, List, [], ◌∷◌, length, length-append, All, arith,
  Bool-cases, inl, inr, if◌then◌else◌,
}
use lustro_node_agent.Base.Text.{Text}
use lustro_node_agent.Classifier.Features.{
  Fraction, Regex, Numeric, count_if, capped, flag, lexical_features, matrix,
}

-- A fraction from 0 to 1
abbrev pub InUnit : Fraction → Type 0
InUnit f = (f.num ≤ f.den) × (0 < f.den)

capped-InUnit : (n limit : ℕ) → 0 < limit → InUnit (capped n limit)
capped-InUnit n limit h = (omega arith, h)

flag-InUnit : (b : Bool) → InUnit (flag b)
flag-InUnit true = omega arith
flag-InUnit false = omega arith

count_if-le :
    (p q : ℕ → Bool) (t : Text) → All (λ c. p c ≡ true → q c ≡ true) t → count_if p t ≤ count_if q t
unfolding count_if
count_if-le p q [] h = omega arith
count_if-le p q (c ∷ t) (here, rest) = elim (Bool-cases (p c)) [
  | inl counted ↦ rw (counted, here counted) (omega (arith, count_if-le p q t rest))
  | inr other ↦ rw other (ground (arith, count_if-le p q t rest))
]

module _ (R : Regex) where
  -- Where every character of the text that counts as upper case counts as a letter, each of the
  -- lexical features is a quotient from 0 to 1 whose divisor is not 0. No other feature needs that.
  pub lexical_features-InUnit :
      (t source_name : Text)
      → All (λ c. R.is_upper c ≡ true → R.is_alpha c ≡ true) t
      → All InUnit (lexical_features R t source_name)
  unfolding lexical_features
  lexical_features-InUnit t source_name letters =
      let fewer = count_if-le R.is_upper R.is_alpha t letters in
      (
        omega arith,
        (
          omega arith,
          (
            omega arith,
            (
              omega arith,
              (omega (arith, fewer), (omega arith, (flag-InUnit _, (flag-InUnit _, tt)))),
            ),
          ),
        ),
      )

  -- With the features the model is given eight columns more than the embedder made, and else as
  -- many.
  pub length-matrix :
      (N : Numeric) (include : Bool) (content : Text) (embedding : List ℕ)
      → length (matrix R N include content embedding)
        ≡ length embedding + (if include then 8 else 0)
  unfolding matrix lexical_features
  length-matrix N true content embedding =
      omega (arith, length-append embedding (map N.as_float32 (lexical_features R content [])))
  length-matrix N false content embedding = omega arith
