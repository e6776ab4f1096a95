-- ===== src/Classifier/Features/Tests.antt =====
-- A text of two words, and a hash that keeps its input.
use mathlib.Core.List.{append-nil, append_assoc}
use lustro_node_agent.Base.{take, drop, ◌≡◌, refl, List, [], ◌∷◌, ◌++◌, ◌&&◌, leb}
use lustro_node_agent.Base.Text.{Bytes, text}
use lustro_node_agent.Classifier.Features.{
  Fraction, capped, Regex, Hashlib, lexical_features, sha256,
}
use lustro_node_agent.Classifier.Features.Digest.{HashLaws, sha256-whole}

abbrev ascii : Regex
ascii = record {
  words = λ t. t ∷ [];
  links = λ t. [];
  is_upper = λ c. leb b'A' c && leb c b'Z';
  is_alpha = λ c. leb b'A' c && leb c b'z';
  lower = λ t. t;
}

-- Upper case at a half of the letters, and one exclamation mark
abbrev shouted : List Fraction
shouted = lexical_features ascii (text "AB ab!") []

shouts : take 2 (drop 2 shouted) ≡ capped 1 10 ∷ capped 0 10 ∷ []
unfolding lexical_features
shouts = refl

abbrev keeping : Hashlib Bytes
keeping = record { new = []; update = λ h b. h ++ b; hexdigest = λ h. h }

keeping_laws : HashLaws keeping
keeping_laws = record {
  update-append = λ h a b. append_assoc h a b;
  update-nil = λ h. append-nil h;
}

sha256-whole_example : sha256 keeping (text "raw") ≡ [] ++ text "raw"
sha256-whole_example = sha256-whole keeping keeping_laws (text "raw")
