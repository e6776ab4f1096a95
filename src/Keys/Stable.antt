-- ===== src/Keys/Stable.antt =====
-- The identity of an agent: generated once, never replaced.
use lustro_node_agent.Base.{
  ◌≡◌, ◌≢◌, ◌⊎◌, inl, inr, refl, sym, ap, ◌∙◌, subst, Bool-cases, true, false, none, some,
}
use lustro_node_agent.Base.Text.{Bytes}
use lustro_node_agent.Base.Result.{ok}
use lustro_node_agent.Base.Exec.{returned, final, continue, settle-is_returned, final-settle}
use lustro_node_agent.Keys.{
  Entry, absent, file, link, KeyLibrary, exists, read_bytes, write_new, parse_private, load_private,
  ensure_keypair,
}

module _ {K : Type 0} (L : KeyLibrary K) where
  final-load : (e : Entry) → final (load_private L e) ≡ e
  unfolding load_private
  final-load e = final-settle (parse_private L (read_bytes e)) e

  exists-file : (t : Entry) (b : Bytes) → t ≡ file b → exists t ≡ true
  unfolding exists
  exists-file t b same = rw (same) refl

  -- What loads is there, and loading leaves it.
  load-finds :
      (e t : Entry) (key : K) → load_private L e ≡ returned key t → (t ≡ e) × (exists e ≡ true)
  unfolding load_private read_bytes exists parse_private
  load-finds absent t key h = cc
  load-finds (file b) t key h = ((settle-is_returned (parse_private L (ok b)) (file b) h).1, refl)
  load-finds (link none) t key h = cc
  load-finds (link (some b)) t key h =
      ((settle-is_returned (parse_private L (ok b)) (link (some b)) h).1, refl)

  loads-new :
      (fresh : K)
      → L.load_pem (L.to_pem fresh) ≡ some fresh
      → load_private L (file (L.to_pem fresh)) ≡ returned fresh (file (L.to_pem fresh))
  unfolding load_private read_bytes parse_private
  loads-new fresh loads = rw (loads) refl

  written-stays :
      (fresh : K) (found : Entry)
      → ((found ≢ absent)
          × (final (continue {B = K} (write_new (L.to_pem fresh) found) (λ _ e. load_private L e))
              ≡ found))
        ⊎ ((found ≡ absent)
            × (final (continue {B = K} (write_new (L.to_pem fresh) found) (λ _ e. load_private L e))
                ≡ file (L.to_pem fresh)))
  unfolding write_new load_private
  written-stays fresh absent = inr (
    refl,
    final-settle (parse_private L (read_bytes (file (L.to_pem fresh)))) (file (L.to_pem fresh)),
  )
  written-stays fresh (file b) = inl ((λ h. cc), refl)
  written-stays fresh (link target) = inl ((λ h. cc), refl)

  -- The two branches.
  on_there :
      (fresh : K) (others : Entry → Entry) (e : Entry)
      → exists e ≡ true
      → ensure_keypair L fresh others e ≡ load_private L e
  unfolding ensure_keypair
  on_there fresh others e there = rw (there) refl

  on_missing :
      (fresh : K) (others : Entry → Entry) (e : Entry)
      → exists e ≡ false
      → ensure_keypair L fresh others e
        ≡ continue {B = K} (write_new (L.to_pem fresh) (others e)) (λ _ t. load_private L t)
  unfolding ensure_keypair
  on_missing fresh others e missing = rw (missing) refl

  -- A file that was written new holds the key, and is loaded as it.
  created :
      (fresh key : K) (found t : Entry)
      → L.load_pem (L.to_pem fresh) ≡ some fresh
      → continue {B = K} (write_new (L.to_pem fresh) found) (λ _ e. load_private L e)
        ≡ returned key t
      → (t ≡ file (L.to_pem fresh)) × (key ≡ fresh)
  unfolding write_new
  created fresh key absent t loads h = let e = sym (loads-new fresh loads) ∙ h in (cc, cc)
  created fresh key (file b) t loads h = cc
  created fresh key (link target) t loads h = cc

  -- Where a key's PEM loads as that key: once `ensure_keypair` has returned a key, every later call,
  -- whatever key it would generate, returns the same one and leaves the path alone.
  pub ensure_keypair_again :
      (fresh fresh' key : K) (others others' : Entry → Entry) (e t : Entry)
      → L.load_pem (L.to_pem fresh) ≡ some fresh
      → ensure_keypair L fresh others e ≡ returned key t
      → ensure_keypair L fresh' others' t ≡ returned key t
  ensure_keypair_again fresh fresh' key others others' e t loads h = elim (Bool-cases (exists e)) [
    | inl there ↦
        let got = sym (on_there fresh others e there) ∙ h in
        let (same, _) = load-finds e t key got in
        subst (λ u. ensure_keypair L fresh' others' u ≡ returned key t) (sym same)
          (on_there fresh' others' e there ∙ got)
    | inr missing ↦
        let (same, this) =
          created fresh key (others e) t loads (sym (on_missing fresh others e missing) ∙ h) in
        let there : exists t ≡ true = exists-file t (L.to_pem fresh) same in
        let got : load_private L t ≡ returned key t = rw (same, this) (loads-new fresh loads) in
        on_there fresh' others' t there ∙ got
  ]

  -- Nothing that is at the path when the file is opened is ever replaced, a link planted there
  -- included: the path ends as it was then, or it was empty and holds the new key.
  pub ensure_keypair-keeps :
      (fresh : K) (others : Entry → Entry) (e : Entry)
      → (final (ensure_keypair L fresh others e) ≡ e)
        ⊎ ((exists e ≡ false)
            × (others e ≢ absent)
            × (final (ensure_keypair L fresh others e) ≡ others e))
        ⊎ ((exists e ≡ false)
            × (others e ≡ absent)
            × (final (ensure_keypair L fresh others e) ≡ file (L.to_pem fresh)))
  ensure_keypair-keeps fresh others e = elim (Bool-cases (exists e)) [
    | inl there ↦ inl (ap final (on_there fresh others e there) ∙ final-load e)
    | inr missing ↦
        let same = ap final (on_missing fresh others e missing) in
        elim (written-stays fresh (others e)) [
          | inl (taken, stays) ↦ inr (inl (missing, taken, same ∙ stays))
          | inr (free, new) ↦ inr (inr (missing, free, same ∙ new))
        ]
  ]
