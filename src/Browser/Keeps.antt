-- ===== src/Browser/Keeps.antt =====
-- What the making of a keyring keeps: it changes the ring, the seed and the messages only.
use lustro_node_agent.Base.{Option, none, some, List}
use lustro_node_agent.Base.Text.{Text, Bytes}
use lustro_node_agent.Base.Exec.{returned, final, Keeps, Keeps-bind, Keeps-lift}
use lustro_node_agent.Keyring.{PureKeyring, pure_keyring}
use lustro_node_agent.Storage.{load_seed, save_seed}
use lustro_node_agent.Browser.{
  BrowserNode, Page, Message, page_store, seed_or_new, load_ring, ensure_keyring,
}

abbrev pub IgnoresRing : (BrowserNode → Type 0) → Type 0
IgnoresRing I =
    (s : BrowserNode) (ring : Option PureKeyring) (seed : Option Text) (messages : List Message)
    → I s
    → I (record s { ring = ring; seed = seed; messages = messages })

module _ (W : Page) {I : BrowserNode → Type 0} (ignores : IgnoresRing I) where
  seed_or_new-Keeps : (fresh : Bytes) (found : Option Bytes) → Keeps I (seed_or_new W fresh found)
  unfolding save_seed
  seed_or_new-Keeps fresh (some seed) = record { at = λ s i. i }
  seed_or_new-Keeps fresh none = record { at = λ s i. ignores s s.ring _ _ i }

  load_ring-Keeps : (fresh : Bytes) → Keeps I (load_ring W fresh)
  load_ring-Keeps fresh = record {
    at = λ s.
        (Keeps-bind _ _ (Keeps-lift (load_seed W.platform page_store s)) λ found.
            Keeps-bind _ _ (seed_or_new-Keeps fresh found) λ seed.
              Keeps-bind _ _ (Keeps-lift (pure_keyring W.sha512 seed))
                λ ring. record { at = λ t i. ignores t (some ring) t.seed t.messages i }).at
          s;
  }

  ring_or_load :
      (fresh : Bytes) (ring : Option PureKeyring) (s : BrowserNode)
      → I s
      → I (final (elim ring [ some r ↦ returned r s | none ↦ load_ring W fresh s ]))
  ring_or_load fresh (some r) s i = i
  ring_or_load fresh none s i = (load_ring-Keeps fresh).at s i

  pub ensure_keyring-Keeps : (fresh : Bytes) → Keeps I (ensure_keyring W fresh)
  unfolding ensure_keyring
  ensure_keyring-Keeps fresh = record { at = λ s. ring_or_load fresh s.ring s }
