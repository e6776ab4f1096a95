-- ===== src/Browser/Identity.antt =====
-- The identity of a browser node: kept over reloads of the page, lost with `leave`.
use lustro_node_agent.Base.{◌≡◌, refl, sym, ap, ◌∙◌, pos, false, Option, none, some}
use lustro_node_agent.Base.Text.{Text, Bytes, is_empty}
use lustro_node_agent.Base.Value.{nil}
use lustro_node_agent.Base.Result.{ok}
use lustro_node_agent.Base.Exec.{
  Outcome, returned, final, settle-returned, returned-injective, continue, lift, ◌>>=◌,
}
use lustro_node_agent.Keyring.{PureKeyring, pure_keyring}
use lustro_node_agent.Storage.{load_seed, save_seed, read_rows, parse_seed, parse_rows, clear}
use lustro_node_agent.Browser.{
  BrowserNode, Page, page_store, get_ship_cursor, ensure_keyring, load_ring, keep_ring, seed_or_new,
  leave, new_node,
}

-- The stored seed that a call leaves.
abbrev seed_left : Outcome BrowserNode PureKeyring → Option Text
seed_left o = let s : BrowserNode = final o in s.seed

module _ (W : Page) where
  without_ring :
      (fresh : Bytes) (ring : Option PureKeyring) (s : BrowserNode)
      → ring ≡ none
      → elim ring [ some r ↦ returned r s | none ↦ load_ring W fresh s ] ≡ load_ring W fresh s
  without_ring fresh (some r) s alone = cc
  without_ring fresh none s alone = refl

  -- After `leave` the page holds no seed and no row, and shipping starts at the first row again; the
  -- ring, if one is made, is that of the seed that is generated then. The anti-replay file stays.
  pub ensure_keyring-leave :
      (fresh : Bytes) (s u : BrowserNode) (ring : PureKeyring)
      → ensure_keyring W fresh (final (leave W s)) ≡ returned ring u
      → (load_seed W.platform page_store (final (leave W s)) ≡ ok none)
        × (read_rows W.platform page_store (final (leave W s)) ≡ nil)
        × (get_ship_cursor (final (leave W s)).cursor ≡ pos 0)
        × ((final (leave W s)).node.replay.file ≡ s.node.replay.file)
        × (pure_keyring W.sha512 fresh ≡ ok ring)
        × (u.seed ≡ some (W.platform.b64encode fresh))
  unfolding leave ensure_keyring clear load_seed save_seed parse_seed read_rows parse_rows
      get_ship_cursor
  ensure_keyring-leave fresh s u ring made =
      let (r, this, kept) = settle-returned (pure_keyring W.sha512 fresh) _ (keep_ring W) made in
      (refl, refl, refl, refl, this ∙ ap ok (returned-injective kept), sym (ap seed_left kept))

  -- A stored seed gives its ring, whatever seed would be generated.
  load_ring-stored :
      (fresh seed : Bytes) (ring : PureKeyring) (s : BrowserNode)
      → load_seed W.platform page_store s ≡ ok (some seed)
      → pure_keyring W.sha512 seed ≡ ok ring
      → load_ring W fresh s ≡ returned ring (record s { ring = some ring })
  load_ring-stored fresh seed ring s stored made = rw (stored, made) refl

  from_seed :
      (fresh : Bytes) (s t : BrowserNode) (ring : PureKeyring)
      → is_empty (W.platform.b64encode fresh) ≡ false
      → W.platform.b64decode_lax (W.platform.b64encode fresh) ≡ some fresh
      → (found : Option Bytes) → load_seed W.platform page_store s ≡ ok found
      → continue
          (seed_or_new W fresh found s)
          (λ seed. lift (pure_keyring W.sha512 seed) >>= keep_ring W)
        ≡ returned ring t
      → (seed : Bytes) × (parse_seed W.platform page_store t.seed ≡ ok (some seed))
        × (pure_keyring W.sha512 seed ≡ ok ring)
  unfolding load_seed save_seed parse_seed
  from_seed fresh s t ring nonempty decodes (some seed) stored rest =
      let (r, this, kept) = settle-returned (pure_keyring W.sha512 seed) s (keep_ring W) rest in
      let same : s.seed ≡ t.seed = ap seed_left kept in
      (seed, rw (← same) stored, this ∙ ap ok (returned-injective kept))
  from_seed fresh s t ring nonempty decodes none stored rest =
      let (r, this, kept) = settle-returned (pure_keyring W.sha512 fresh) _ (keep_ring W) rest in
      let same : some (W.platform.b64encode fresh) ≡ t.seed = ap seed_left kept in
      (fresh, rw (← same) (rw (nonempty, decodes) refl), this ∙ ap ok (returned-injective kept))

  -- What a page that had no ring has once it made one: the seed, stored, and the ring of it.
  load_ring-made :
      (fresh : Bytes) (s t : BrowserNode) (ring : PureKeyring)
      → is_empty (W.platform.b64encode fresh) ≡ false
      → W.platform.b64decode_lax (W.platform.b64encode fresh) ≡ some fresh
      → load_ring W fresh s ≡ returned ring t
      → (seed : Bytes) × (parse_seed W.platform page_store t.seed ≡ ok (some seed))
        × (pure_keyring W.sha512 seed ≡ ok ring)
  load_ring-made fresh s t ring nonempty decodes made =
      let (found, stored, rest) = settle-returned (load_seed W.platform page_store s) s _ made in
      from_seed fresh s t ring nonempty decodes found stored rest

  -- Where base64 decodes what it encoded, to a text that is not empty: a page that had no ring and
  -- made one makes the same ring after a reload, whatever seed it would generate, and its seed stays.
  pub ensure_keyring-new_node :
      (fresh fresh' : Bytes) (s t : BrowserNode) (ring : PureKeyring)
      → s.ring ≡ none
      → is_empty (W.platform.b64encode fresh) ≡ false
      → W.platform.b64decode_lax (W.platform.b64encode fresh) ≡ some fresh
      → ensure_keyring W fresh s ≡ returned ring t
      → (u : BrowserNode) × (ensure_keyring W fresh' (new_node W W.edge none t).1 ≡ returned ring u)
        × (u.seed ≡ t.seed)
  unfolding ensure_keyring new_node load_seed
  ensure_keyring-new_node fresh fresh' s t ring alone nonempty decodes made =
      let (seed, stored, this) =
        load_ring-made fresh s t ring nonempty decodes
          (sym (without_ring fresh s.ring s alone) ∙ made) in
      (_, load_ring-stored fresh' seed ring (new_node W W.edge none t).1 stored this, refl)
