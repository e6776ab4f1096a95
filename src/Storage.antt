-- ===== src/Storage.antt =====
-- node_agent/storage.py: `BrowserStore`, over the IndexedDB helpers of the page as an interface.
pub mod Laws
mod Tests
use lustro_node_agent.Base.{String, Bool, true, false, Option, none, some, if◌then◌else◌}
use lustro_node_agent.Base.Text.{Text, Bytes, is_empty}
use lustro_node_agent.Base.Value.{Value, Items, nil, cons, Fields, list, dict}
use lustro_node_agent.Base.Result.{Result, ok, err, value_error, or_raise}
use lustro_node_agent.Platform.{Platform}
use lustro_node_agent.JobLog.{record_of}

-- `_idbGet`, `_idbSet` and `_idbClear` on the object store `BrowserStore.STORE`, whose contents are a
-- value of `S`: `none` is JavaScript's `undefined`.
pub record ObjectStore (S : Type 0) : Type 0 where
  pub idb_get : S → String → Option Text
  pub idb_set : S → String → Text → S
  pub idb_clear : S → S

-- `rows.append(row)`
unfoldable pub append_item : Items → Value → Items
append_item nil row = cons row nil
append_item (cons v rows) row = cons v (append_item rows row)

-- `data if isinstance(data, list) else []`, where `none` is an exception of `json.loads`
unfoldable pub list_or_empty : Option Value → Items
list_or_empty (some (list rows)) = rows
list_or_empty _ = nil

module _ (P : Platform) {S : Type 0} (J : ObjectStore S) where
  -- `load_seed` of the raw value of the key "seed"
  unfoldable pub parse_seed : Option Text → Result (Option Bytes)
  parse_seed none = ok none
  parse_seed (some raw) =
      if is_empty raw then ok none else elim (or_raise (P.b64decode_lax raw) value_error) [
        | ok seed ↦ ok (some seed)
        | err e ↦ err e
      ]

  unfoldable pub load_seed : S → Result (Option Bytes)
  unfolding parse_seed
  load_seed s = parse_seed (J.idb_get s "seed")

  unfoldable pub save_seed : Bytes → S → S
  save_seed seed s = J.idb_set s "seed" (P.b64encode seed)

  -- `read_all` of the raw value of the key "joblog"
  unfoldable pub parse_rows : Option Text → Items
  unfolding list_or_empty
  parse_rows none = nil
  parse_rows (some raw) = if is_empty raw then nil else list_or_empty (P.loads raw)

  unfoldable pub read_rows : S → Items
  unfolding parse_rows
  read_rows s = parse_rows (J.idb_get s "joblog")

  -- The rows with the entry behind them
  unfoldable pub rows_with : Fields → S → Items
  unfolding read_rows
  rows_with entry s = append_item (read_rows s) (dict (record_of P entry (J.idb_get s "joblog")))

  unfoldable pub append_row : Fields → S → S
  unfolding rows_with
  append_row entry s = J.idb_set s "joblog" (P.dumps_ascii (list (rows_with entry s)))

  unfoldable pub clear : S → S
  clear s = J.idb_clear s
