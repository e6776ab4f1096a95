-- ===== src/Egress/Tests.antt =====
-- The egress guard over the sample URLs.
use lustro_node_agent.Base.{◌≡◌, refl, ◌↔◌, ◌⊎◌, inl, inr, ◌++◌, ◌∷◌, none, some, Bool-cases, subst}
use lustro_node_agent.Base.Text.{Text, text, text_eq}
use lustro_node_agent.Base.Result.{ok, err, egress_violation, host_refused, ok-injective}
use lustro_node_agent.Platform.{ParsedUrl}
use lustro_node_agent.Egress.{EgressGuard, guard_of, make_guard, check, allowed_host}
use lustro_node_agent.Egress.Check.{Reaches, UrlLaws, check_iff}
use lustro_node_agent.Samples.{platform, edge_url, other_url, urlparse, starts_with}

abbrev edge_guard : EgressGuard
edge_guard = guard_of platform edge_url none

abbrev other_guard : EgressGuard
other_guard = guard_of platform other_url (some 8443)

off_host :
    check platform edge_guard (text "https://other:8443/x") ≡ err (egress_violation host_refused)
unfolding check allowed_host urlparse text_eq
off_host = refl

urlparse-known : (t : Text) (u : ParsedUrl) → urlparse t ≡ ok u → (edge_url ≡ u) ⊎ (other_url ≡ u)
unfolding urlparse
urlparse-known t u h = elim (Bool-cases (starts_with (text "https://edge") t)) [
  | inl edge ↦ inl (ok-injective (rw edge at h))
  | inr other ↦ elim (Bool-cases (starts_with (text "https://other:8443") t)) [
    | inl known ↦ inr (ok-injective (rw known at (rw other at h)))
    | inr unknown ↦ cc
  ]
]

abbrev Rejoins : ParsedUrl → Type 0
Rejoins u =
    (path : Text)
    → (v : ParsedUrl) × (urlparse ((u.scheme ++ (text "://" ++ u.netloc)) ++ b'/' ∷ path) ≡ ok v)
      × (v.scheme ≡ u.scheme)
      × (v.netloc ≡ u.netloc)
      × (v.hostname ≡ u.hostname)
      × (v.port ≡ u.port)

edge-Rejoins : Rejoins edge_url
unfolding urlparse
edge-Rejoins path = (edge_url, refl, refl, refl, refl, refl)

other-Rejoins : Rejoins other_url
unfolding urlparse
other-Rejoins path = (other_url, refl, refl, refl, refl, refl)

url_laws : UrlLaws platform
url_laws = record {
  hostname_lower = λ t h u parses named. refl;
  join = λ t path u parses. elim (urlparse-known t u parses) [
    | inl edge ↦ subst Rejoins edge edge-Rejoins path
    | inr other ↦ subst Rejoins other other-Rejoins path
  ];
}

other_made : make_guard platform (text "https://other:8443/base") ≡ ok other_guard
unfolding make_guard urlparse
other_made = refl

check_iff_example :
    (check platform edge_guard (text "https://edge/v1/wu") ≡ ok (text "https://edge/v1/wu")) ↔ (
      Reaches platform edge_guard (text "https://edge/v1/wu")
      × (text "https://edge/v1/wu" ≡ text "https://edge/v1/wu"))
check_iff_example =
    check_iff platform edge_guard (text "https://edge/v1/wu") (text "https://edge/v1/wu")
