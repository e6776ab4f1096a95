-- ===== src/LogWall/Hosts.antt =====
-- Which `Host` headers `_host_allowed` of node_agent/logwall.py refuses.
use mathlib.Core.List.{reverse, reverse-cons, reverse-reverse}
use lustro_node_agent.Base.{
  ℕ, ◌≡◌, ◌≢◌, ◌⊎◌, inl, inr, refl, sym, ap, ◌∙◌, subst, Bool, true, false, Option, none, some, [],
  ◌∷◌, ◌++◌, ◌==◌, All, All-append, if◌then◌else◌,
}
use lustro_node_agent.Base.Text.{Text, text, text_eq, text_eq-ne, is_empty}
use lustro_node_agent.Egress.{before_first}
use lustro_node_agent.LogWall.{drop_brackets, host_name, host_allowed}

-- A character of a DNS name: no colon and no bracket
abbrev pub PlainChar : ℕ → Type 0
PlainChar c = ((c == b':') ≡ false) × ((c == b'[') ≡ false) × ((c == b']') ≡ false)

-- A `Host` header that is missing, or is a name, perhaps the empty one, with or without a port, where
-- the name is neither localhost nor a literal address.
pub data Foreign (is_ip : Text → Bool) : Option Text → Type 0 where
  no_host : Foreign is_ip none
  named :
      (name rest : Text)
      → All PlainChar name
      → (rest ≡ []) ⊎ ((port : Text) × (rest ≡ b':' ∷ port))
      → name ≢ text "localhost"
      → is_ip name ≡ false
      → Foreign is_ip (some (name ++ rest))

before_first-name :
    (name rest : Text)
    → All PlainChar name
    → (rest ≡ []) ⊎ ((port : Text) × (rest ≡ b':' ∷ port))
    → before_first b':' (name ++ rest) ≡ name
unfolding before_first
before_first-name [] rest plain (inl none_left) = rw none_left refl
before_first-name [] rest plain (inr (port, there)) = rw there refl
before_first-name (c ∷ name) rest ((no_colon, _, _), plain) ends =
    rw (no_colon) (ap (λ (t : Text). c ∷ t) (before_first-name name rest plain ends))

drop_brackets-name : (name : Text) → All PlainChar name → drop_brackets name ≡ name
unfolding drop_brackets
drop_brackets-name [] plain = refl
drop_brackets-name (c ∷ name) ((_, no_open, no_close), plain) = rw (no_open, no_close) refl

All-reverse : (name : Text) → All PlainChar name → All PlainChar (reverse name)
All-reverse [] plain = tt
All-reverse (c ∷ name) (first, plain) =
    subst (All PlainChar) (sym (reverse-cons c name))
      (All-append PlainChar (reverse name) (c ∷ []) (All-reverse name plain) (first, tt))

host_name-name :
    (name rest : Text)
    → All PlainChar name
    → (rest ≡ []) ⊎ ((port : Text) × (rest ≡ b':' ∷ port))
    → host_name (name ++ rest) ≡ name
unfolding host_name
host_name-name name rest plain ends =
    ap (λ t. reverse (drop_brackets (reverse (drop_brackets t))))
      (before_first-name name rest plain ends)
    ∙ ap (λ t. reverse (drop_brackets (reverse t))) (drop_brackets-name name plain)
    ∙ ap reverse (drop_brackets-name (reverse name) (All-reverse name plain))
    ∙ reverse-reverse name

name_refused :
    (is_ip : Text → Bool) (name : Text)
    → name ≢ text "localhost"
    → is_ip name ≡ false
    → (if is_empty name
        then false
        else if text_eq name (text "localhost")
        then true
        else is_ip name)
      ≡ false
name_refused is_ip [] other no_ip = refl
name_refused is_ip (c ∷ name) other no_ip = rw (text_eq-ne _ _ other, no_ip) refl

-- Such a header is refused.
pub host_allowed-Foreign :
    (is_ip : Text → Bool) (host : Option Text)
    → Foreign is_ip host
    → host_allowed is_ip host ≡ false
unfolding host_allowed
host_allowed-Foreign is_ip _ no_host = refl
host_allowed-Foreign is_ip _ (named name rest plain ends other no_ip) =
    rw (host_name-name name rest plain ends) (name_refused is_ip name other no_ip)
