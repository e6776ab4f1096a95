-- ===== src/Egress.antt =====
-- node_agent/egress.py: the allowlist of one base URL that every request is checked against.
pub mod Check
pub mod Tests
use mathlib.Core.List.{reverse}
use lustro_node_agent.Base.{
  ℕ, Bool, true, false, ◌||◌, ◌++◌, Option, none, some, List, [], ◌∷◌, ◌==◌, if◌then◌else◌,
}
use lustro_node_agent.Base.Text.{Text, text, text_eq, is_empty}
use lustro_node_agent.Base.Result.{
  Result, ok, err, ◌>>=◌, ◌>>◌, guard, value_error, egress_violation, scheme_refused, host_refused,
  port_refused,
}
use lustro_node_agent.Platform.{Platform, ParsedUrl}

-- `t.split(c)[0]`
unfoldable pub before_first : ℕ → Text → Text
before_first c [] = []
before_first c (x ∷ t) = let rest = x ∷ before_first c t in if x == c then [] else rest

-- `t.split(c)[-1]`
unfoldable pub after_last : ℕ → Text → Text
unfolding before_first
after_last c t = reverse (before_first c (reverse t))

pub record EgressGuard : Type 0 where
  pub scheme : Text
  pub netloc : Text
  pub hostname : Text
  pub port : ℕ
  pub allowed_base_url : Text

module _ (P : Platform) where
  -- `netloc.split("@")[-1].split(":")[0].lower()`
  unfoldable pub netloc_host : Text → Text
  unfolding after_last before_first
  netloc_host netloc = P.lower (before_first b':' (after_last b'@' netloc))

  -- `parsed.hostname or …` of `__init__`
  unfoldable pub allowed_host : ParsedUrl → Text
  unfolding netloc_host
  allowed_host u = elim u.hostname [
    | none ↦ netloc_host u.netloc
    | some h ↦ if is_empty h then netloc_host u.netloc else h
  ]

  -- The host that `check` compares: the parsed one is put in lower case once more.
  unfoldable pub request_host : ParsedUrl → Text
  unfolding netloc_host
  request_host u = elim u.hostname [
    | none ↦ netloc_host u.netloc
    | some h ↦ if is_empty h then netloc_host u.netloc else P.lower h
  ]

  abbrev pub default_port : Text → ℕ
  default_port scheme = if text_eq scheme (text "https") then 443 else 80

  -- `parsed.port or (443 if parsed.scheme == "https" else 80)`
  abbrev pub allowed_port : Text → Option ℕ → ℕ
  allowed_port scheme none = default_port scheme
  allowed_port scheme (some n) = if n == 0 then default_port scheme else n

  -- The attributes that `__init__` sets.
  abbrev pub guard_of : ParsedUrl → Option ℕ → EgressGuard
  guard_of u port = record {
    scheme = u.scheme;
    netloc = P.lower u.netloc;
    hostname = allowed_host u;
    port = allowed_port u.scheme port;
    allowed_base_url = u.scheme ++ (text "://" ++ u.netloc);
  }

  -- `EgressGuard.__init__`
  unfoldable pub make_guard : Text → Result EgressGuard
  make_guard base = do
    u ← P.urlparse base
    guard (if is_empty u.scheme || is_empty u.netloc then false else true) value_error
    port ← u.port
    ok (guard_of u port)

  -- `not (parsed.port and parsed.port != self._port)`
  abbrev pub port_passes : ℕ → Option ℕ → Bool
  port_passes allowed none = true
  port_passes allowed (some n) = n == 0 || n == allowed

  -- `EgressGuard.check`
  unfoldable pub check : EgressGuard → Text → Result Text
  unfolding request_host
  check g url = do
    u ← P.urlparse url
    guard (text_eq u.scheme g.scheme) (egress_violation scheme_refused)
    guard (text_eq (request_host u) g.hostname) (egress_violation host_refused)
    port ← u.port
    guard (port_passes g.port port) (egress_violation port_refused)
    ok url
