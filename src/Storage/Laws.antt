-- ===== src/Storage/Laws.antt =====
-- What the browser's store keeps: the seed and the rows that were saved, until they are cleared.
use lustro_node_agent.Base.{String, ◌≡◌, refl, ap, ◌∙◌, none, some, false}
use lustro_node_agent.Base.Text.{Text, Bytes, is_empty}
use lustro_node_agent.Base.Value.{nil, Fields, list, dict}
use lustro_node_agent.Base.Result.{ok}
use lustro_node_agent.Platform.{Platform}
use lustro_node_agent.JobLog.{record_of}
use lustro_node_agent.Storage.{
  ObjectStore, append_item, parse_seed, parse_rows, rows_with, load_seed, save_seed, read_rows,
  append_row, clear,
}

-- The two keys of the store
pub data IsKey : String → Type 0 where
  seed_key : IsKey "seed"
  joblog_key : IsKey "joblog"

-- An object store gives back what was last set under a key, and nothing after it was cleared.
pub record StoreLaws {S : Type 0} (J : ObjectStore S) : Type 0 where
  pub get_set : (s : S) (k : String) (t : Text) → IsKey k → J.idb_get (J.idb_set s k t) k ≡ some t
  pub get_set_other :
      (s : S) (t : Text) → J.idb_get (J.idb_set s "joblog" t) "seed" ≡ J.idb_get s "seed"
  pub get_clear : (s : S) (k : String) → IsKey k → J.idb_get (J.idb_clear s) k ≡ none

module _ (P : Platform) {S : Type 0} (J : ObjectStore S) (laws : StoreLaws J) where
  -- Under these laws a seed whose base64 is not empty and decodes to it is loaded as it was saved.
  pub load_seed-save_seed :
      (seed : Bytes) (s : S)
      → is_empty (P.b64encode seed) ≡ false
      → P.b64decode_lax (P.b64encode seed) ≡ some seed
      → load_seed P J (save_seed P J seed s) ≡ ok (some seed)
  unfolding load_seed save_seed parse_seed
  load_seed-save_seed seed s nonempty decodes =
      ap (parse_seed P J) (laws.get_set s "seed" (P.b64encode seed) seed_key)
      ∙ rw (nonempty, decodes) refl

  -- Under these laws, and where the JSON of the new array is not empty and parses to that array, an
  -- entry that is appended is read behind all rows before it, and the seed is untouched.
  pub read_rows-append_row :
      (entry : Fields) (s : S)
      → is_empty (P.dumps_ascii (list (rows_with P J entry s))) ≡ false
      → P.loads (P.dumps_ascii (list (rows_with P J entry s))) ≡ some (list (rows_with P J entry s))
      → (read_rows P J (append_row P J entry s)
          ≡ append_item (read_rows P J s) (dict (record_of P entry (J.idb_get s "joblog"))))
        × (load_seed P J (append_row P J entry s) ≡ load_seed P J s)
  unfolding read_rows append_row load_seed parse_rows rows_with
  read_rows-append_row entry s nonempty decodes =
      let row = P.dumps_ascii (list (rows_with P J entry s)) in
      (
        ap (parse_rows P J) (laws.get_set s "joblog" row joblog_key) ∙ rw (nonempty, decodes) refl,
        ap (parse_seed P J) (laws.get_set_other s row),
      )

  -- Under these laws, after `clear` neither a seed nor a row is left.
  pub load_seed-clear :
      (s : S) → (load_seed P J (clear P J s) ≡ ok none) × (read_rows P J (clear P J s) ≡ nil)
  unfolding load_seed clear read_rows parse_rows parse_seed
  load_seed-clear s = (
    ap (parse_seed P J) (laws.get_clear s "seed" seed_key),
    ap (parse_rows P J) (laws.get_clear s "joblog" joblog_key),
  )
