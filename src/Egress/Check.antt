-- ===== src/Egress/Check.antt =====
-- What `EgressGuard.check` lets through, and that the agent's own URLs pass.
use lustro_node_agent.Base.{
  ℕ, ◌≡◌, refl, ◌∙◌, ap, subst, true, Option-cases, ◌↔◌, ◌⊎◌, inl, inr, ◌++◌, Option, none, some,
  ◌∷◌, arith,
}
use lustro_node_agent.Base.Text.{Text, text, text_eq_refl, text_eq_iff}
use lustro_node_agent.Base.Result.{ok, >>=-eq-ok, guard-eq-ok, ok-injective}
use lustro_node_agent.Platform.{Platform, ParsedUrl}
use lustro_node_agent.Egress.{
  EgressGuard, make_guard, check, request_host, allowed_host, allowed_port, guard_of, port_passes,
}

module _ (P : Platform) where
  -- The port is absent, or 0, which Python reads as absent, or the allowed one.
  abbrev pub PortFits : ℕ → Option ℕ → Type 0
  PortFits allowed port = (port ≡ none) ⊎ (port ≡ some 0) ⊎ (port ≡ some allowed)

  port_passes-PortFits :
      (allowed : ℕ) (port : Option ℕ) → port_passes P allowed port ≡ true → PortFits allowed port
  port_passes-PortFits allowed none h = inl refl
  port_passes-PortFits allowed (some n) h = ground arith

  PortFits-port_passes :
      (allowed : ℕ) (port : Option ℕ) → PortFits allowed port → port_passes P allowed port ≡ true
  PortFits-port_passes allowed none h = refl
  PortFits-port_passes allowed (some n) h = ground arith

  -- The URL parses to the guard's scheme and host, and to a port that fits.
  pub record Reaches (g : EgressGuard) (url : Text) : Type 0 where
    pub parsed : ParsedUrl
    pub port : Option ℕ
    pub parses : P.urlparse url ≡ ok parsed
    pub scheme : parsed.scheme ≡ g.scheme
    pub host : request_host P parsed ≡ g.hostname
    pub port_read : parsed.port ≡ ok port
    pub port_fits : PortFits g.port port

  check-Reaches :
      (g : EgressGuard) (url r : Text) → check P g url ≡ ok r → Reaches g url × (r ≡ url)
  unfolding check
  check-Reaches g url r h =
      let (u, parses, h₁) = >>=-eq-ok (P.urlparse url) _ h in
      let (scheme, h₂) = guard-eq-ok _ _ _ h₁ in
      let (host, h₃) = guard-eq-ok _ _ _ h₂ in
      let (port, read, h₄) = >>=-eq-ok u.port _ h₃ in
      let (fits, h₅) = guard-eq-ok _ _ _ h₄ in
      (
        record {
          parsed = u;
          port = port;
          parses = parses;
          scheme = (text_eq_iff _ _).0 scheme;
          host = (text_eq_iff _ _).0 host;
          port_read = read;
          port_fits = port_passes-PortFits g.port port fits;
        },
        ground arith,
      )

  Reaches-check : (g : EgressGuard) (url : Text) → Reaches g url → check P g url ≡ ok url
  unfolding check
  Reaches-check g url w =
      rw (w.parses, w.scheme, text_eq_refl, w.host, text_eq_refl, w.port_read)
        (rw (PortFits-port_passes g.port w.port w.port_fits))

  -- `check` returns its URL exactly when that parses to the guard's scheme, to the guard's host in
  -- lower case, and to a port that is absent, 0 or the guard's. It returns nothing but its argument.
  pub check_iff :
      (g : EgressGuard) (url r : Text) → (check P g url ≡ ok r) ↔ (Reaches g url × (r ≡ url))
  check_iff g url r =
      (check-Reaches g url r, λ (reaches, same). rw same (Reaches-check g url reaches))

-- What is assumed of `urlparse`: the host that it gives is in lower case, and a URL that is put
-- together from a parsed scheme and netloc and an absolute path parses to the same destination.
pub record UrlLaws (P : Platform) : Type 0 where
  pub hostname_lower :
      (t h : Text) (u : ParsedUrl) → P.urlparse t ≡ ok u → u.hostname ≡ some h → P.lower h ≡ h
  pub join :
      (t path : Text) (u : ParsedUrl)
      → P.urlparse t ≡ ok u
      → (v : ParsedUrl) × (P.urlparse ((u.scheme ++ (text "://" ++ u.netloc)) ++ b'/' ∷ path)
          ≡ ok v)
        × (v.scheme ≡ u.scheme)
        × (v.netloc ≡ u.netloc)
        × (v.hostname ≡ u.hostname)
        × (v.port ≡ u.port)

module _ (P : Platform) (laws : UrlLaws P) where
  -- What `make_guard` keeps of the base URL.
  record Built (base : Text) (g : EgressGuard) : Type 0 where
    parsed : ParsedUrl
    port : Option ℕ
    parses : P.urlparse base ≡ ok parsed
    port_read : parsed.port ≡ ok port
    made : guard_of P parsed port ≡ g

  make_guard-Built : (base : Text) (g : EgressGuard) → make_guard P base ≡ ok g → Built base g
  unfolding make_guard
  make_guard-Built base g h =
      let (u, parses, h₁) = >>=-eq-ok (P.urlparse base) _ h in
      let (full, h₂) = guard-eq-ok _ _ _ h₁ in
      let (port, read, h₃) = >>=-eq-ok u.port _ h₂ in
      record { parsed = u; port = port; parses = parses; port_read = read; made = ok-injective h₃ }

  -- The URL of a path below the base has the host that the guard compares.
  request_host-eq-allowed_host :
      (base : Text) (u v : ParsedUrl)
      → P.urlparse base ≡ ok u
      → v.netloc ≡ u.netloc
      → v.hostname ≡ u.hostname
      → request_host P v ≡ allowed_host P u
  unfolding request_host allowed_host
  request_host-eq-allowed_host base u v parses net host = elim (Option-cases u.hostname) [
    | inl absent ↦ rw (host, absent) (rw net)
    | inr (h, present) ↦
        let low : P.lower h ≡ h = laws.hostname_lower base h u parses present in
        rw (host, present) (rw (net, low))
  ]

  allowed_port-PortFits :
      (scheme : Text) (port : Option ℕ) → PortFits P (allowed_port P scheme port) port
  allowed_port-PortFits scheme none = inl refl
  allowed_port-PortFits scheme (some n) = ground arith

  -- From a guard that was made for a base URL, every URL of the form base, slash, rest passes.
  pub check-make_guard :
      (base path : Text) (g : EgressGuard)
      → make_guard P base ≡ ok g
      → let url = g.allowed_base_url ++ b'/' ∷ path in check P g url ≡ ok url
  check-make_guard base path g made =
      let b = make_guard-Built base g made in
      let u = b.parsed in
      let (v, parses, scheme, net, host, port) = laws.join base path u b.parses in
      Reaches-check P g _ (record {
        parsed = v;
        port = b.port;
        parses = rw (← b.made) parses;
        scheme = scheme ∙ ap (λ x. x.scheme) b.made;
        host =
            request_host-eq-allowed_host base u v b.parses net host ∙ ap (λ x. x.hostname) b.made;
        port_read = port ∙ b.port_read;
        port_fits =
            subst (λ x. PortFits P x b.port) (ap (λ x. x.port) b.made)
              (allowed_port-PortFits u.scheme b.port);
      })
