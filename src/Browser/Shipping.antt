-- ===== src/Browser/Shipping.antt =====
-- `_ship_logs` of the page: best effort, over a cursor of rows.
pub mod Kept
pub mod Cursor
mod Tests
use mathlib.Core.List.{append_assoc, append-nil}
use lustro_node_agent.Base.{
  ℕ, ℤ, pos, negsuc, zero, suc, ◌+◌, ◌-◌, ◌/◌, ◌≡◌, ◌⊎◌, inl, inr, refl, Bool, true, false, Option,
  none, some, List, [], ◌∷◌, ◌++◌, All, leb, ◌==◌, length, if◌then◌else◌,
}
use lustro_node_agent.Base.Text.{Text, Bytes, text, utf8}
use lustro_node_agent.Base.Value.{
  Value, Items, nil, cons, Fields, field, end, str, list, dict, pop_key,
}
use lustro_node_agent.Base.Result.{
  Exn, Result, ok, err, or_raise, attribute_error, unicode_error, transport_error,
}
use lustro_node_agent.Base.Exec.{
  Outcome, Exec, returned, raised, pure, lift, final, ◌>>=◌, ◌>>◌, Outcome-cases,
}
use lustro_node_agent.Platform.{Platform}
use lustro_node_agent.Keyring.{PureKeyring, keyring_b64}
use lustro_node_agent.Storage.{read_rows}
use lustro_node_agent.Client.{Request, Response, Reply, answered, failed, Http, http_post, Node}
use lustro_node_agent.Client.Batch.{row_items, batch_bytes}
use lustro_node_agent.Browser.{
  BrowserNode, Page, Message, shipped_rows, ship_rejected, ship_failed, page_store, notify,
  get_ship_cursor, set_ship_cursor, backend, ring_sign, ensure_keyring,
}

abbrev pub count : Items → ℕ
count nil = 0
count (cons v rows) = suc (count rows)

-- `rows[n:]`
abbrev pub drop_rows : ℕ → Items → Items
drop_rows zero rows = rows
drop_rows (suc n) nil = nil
drop_rows (suc n) (cons v rows) = drop_rows n rows

-- `rows[cursor:]`, where a negative cursor counts from the end
unfoldable pub rows_behind : ℤ → Items → Items
rows_behind (pos n) rows = drop_rows n rows
rows_behind (negsuc n) rows = drop_rows (count rows - (n + 1)) rows

-- `cursor >= len(rows)`
unfoldable pub all_shipped : ℤ → Items → Bool
all_shipped (pos n) rows = leb (count rows) n
all_shipped (negsuc n) rows = false

-- `stripped_rows`: what is no object has no `items`.
unfoldable pub strip_rows : Items → Result (List Fields)
strip_rows nil = ok []
strip_rows (cons (dict fs) rows) = elim (strip_rows rows) [
  | ok more ↦ ok (pop_key "raw" (pop_key "text_preview" fs) ∷ more)
  | err e ↦ err e
]
strip_rows (cons _ rows) = err attribute_error

module _ (W : Page) where
  unfoldable pub ship_body : PureKeyring → Bytes → Fields
  ship_body ring batch = field "agent_pubkey" (str (keyring_b64 W.platform ring)) (
      field "agent_sig" (str (W.platform.b64encode (ring_sign W ring batch)))
        (field "batch_bytes" (str (W.platform.b64encode batch)) end))

  -- The URL of the shipping, which no guard checks
  abbrev pub ship_url : Text
  ship_url = W.edge ++ text "/v1/wu/node-logs"

  unfoldable pub ship_request : PureKeyring → Bytes → Request
  unfolding ship_body
  ship_request ring batch = record {
    method = http_post;
    url = ship_url;
    json = some (dict (ship_body ring batch));
    authorization = none;
  }

  abbrev pub settle_reply : BrowserNode → Reply → Outcome BrowserNode Response
  settle_reply s (answered r) = returned r s
  settle_reply s (failed e) = raised e s

  abbrev pub with_request : Request → BrowserNode → BrowserNode
  with_request q s = record s { node = record s.node { sent = s.node.sent ++ q ∷ [] } }

  -- `self._http.post`
  unfoldable pub post : Request → Exec BrowserNode Response
  post q s = settle_reply (with_request q s) ((backend W).reply s.node.sent q)

  -- The status of the answer: `none` is an early return.
  unfoldable pub ship_answer : ℕ → ℕ → ℕ → Exec BrowserNode (Option ℕ)
  ship_answer rows stripped status =
      if status / 100 == 2
      then pure (some stripped)
      else (do set_ship_cursor rows; notify (ship_rejected status stripped); pure none)

  -- The `try` from a row list that is not empty on
  abbrev pub ship_stripped : PureKeyring → ℕ → List Fields → Exec BrowserNode (Option ℕ)
  ship_stripped ring rows [] = do set_ship_cursor rows; pure none
  ship_stripped ring rows (row ∷ more) = do
    batch ← lift (batch_bytes W.platform (row ∷ more))
    resp ← post (ship_request ring batch)
    ship_answer rows (length (row ∷ more)) resp.status

  unfoldable pub ship_rows : PureKeyring → Items → ℤ → Exec BrowserNode (Option ℕ)
  ship_rows ring rows cursor = if all_shipped cursor rows then pure none else do
    stripped ← lift (strip_rows (rows_behind cursor rows))
    ship_stripped ring (count rows) stripped

  -- The `try`: the number of rows that were accepted, or `none` for an early return.
  abbrev pub ship_try : Bytes → Exec BrowserNode (Option ℕ)
  ship_try fresh = do
    ring ← ensure_keyring W fresh
    λ s. ship_rows ring (read_rows W.platform page_store s) (get_ship_cursor s.cursor) s

  -- The two `except` clauses, and what follows the `try`. The rows cannot have changed since.
  unfoldable pub ship_end : Outcome BrowserNode (Option ℕ) → Outcome BrowserNode (Unit {0})
  ship_end (raised e s) = notify (ship_failed e) s
  ship_end (returned none s) = returned tt s
  ship_end (returned (some n) s) =
      (do set_ship_cursor (count (read_rows W.platform page_store s)); notify (shipped_rows n)) s

  -- `_ship_logs`
  unfoldable pub ship_logs : Bytes → Exec BrowserNode (Unit {0})
  unfolding ship_end ship_rows ship_answer
  ship_logs fresh s = ship_end (ship_try fresh s)
