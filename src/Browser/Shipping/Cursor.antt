-- ===== src/Browser/Shipping/Cursor.antt =====
-- Which answers move the cursor of `_ship_logs`.
use lustro_node_agent.Base.{
  ◌/◌, ◌==◌, ◌≡◌, ◌⊎◌, inl, inr, refl, sym, ap, ◌∙◌, subst, pos, false, Bool-cases, Option, none,
  some, List, [], ◌∷◌, ◌++◌, length,
}
use lustro_node_agent.Base.Text.{Bytes}
use lustro_node_agent.Base.Value.{Fields}
use lustro_node_agent.Base.Result.{Exn, ok}
use lustro_node_agent.Base.Exec.{returned, final, continue}
use lustro_node_agent.Keyring.{PureKeyring}
use lustro_node_agent.Storage.{read_rows}
use lustro_node_agent.Client.{Response, Reply, answered, failed}
use lustro_node_agent.Client.Batch.{batch_bytes}
use lustro_node_agent.Browser.{
  BrowserNode, Page, number, ship_failed, get_ship_cursor, set_ship_cursor, backend, ensure_keyring,
  load_ring,
}
use lustro_node_agent.Browser.Shipping.{
  count, strip_rows, rows_behind, all_shipped, ship_request, settle_reply, with_request, post,
  ship_answer, ship_rows, ship_try, ship_end, ship_logs,
}
use lustro_node_agent.Browser.Shipping.Kept.{rows_of}

module _ (W : Page) where
  -- What `_ship_logs` leaves after a reply to its request
  abbrev pub After : BrowserNode → BrowserNode → Reply → Type 0
  After s t reply =
      ((resp : Response) × (reply ≡ answered resp)
        × (t.cursor ≡ number (pos (count (rows_of W s)))))
      ⊎ ((e : Exn) × (reply ≡ failed e)
          × (t.cursor ≡ s.cursor)
          × (t.messages ≡ s.messages ++ ship_failed e ∷ []))

  has_ring :
      (fresh : Bytes) (s : BrowserNode) (ring : PureKeyring) (o : Option PureKeyring)
      → o ≡ some ring
      → elim o [ some r ↦ returned r s | none ↦ load_ring W fresh s ] ≡ returned ring s
  has_ring fresh s ring none h = cc
  has_ring fresh s ring (some r) h = cc

  answer_cursor :
      (s : BrowserNode) (ring : PureKeyring) (row : Fields) (more : List Fields) (batch : Bytes)
      (reply : Reply)
      → After s
          (final (
            ship_end W (
              continue
                (settle_reply W (with_request W (ship_request W ring batch) s) reply)
                λ resp. ship_answer W (count (rows_of W s)) (length (row ∷ more)) resp.status)))
          reply
  unfolding ship_end ship_answer set_ship_cursor read_rows
  answer_cursor s ring row more batch (answered resp) = elim (Bool-cases (resp.status / 100 == 2)) [
    | inl accepted ↦ inl (resp, refl, rw (accepted) refl)
    | inr rejected ↦ inl (resp, refl, rw (rejected) refl)
  ]
  answer_cursor s ring row more batch (failed e) = inr (e, refl, refl, refl)

  -- A page that has a keyring and rows behind its cursor, all of them objects and their batch
  -- encodable: every answer of the edge, also one that rejects the batch, moves the cursor behind the
  -- last row, and an exception of the request leaves it and is handed to `on_step`.
  pub ship_logs-cursor :
      (fresh : Bytes) (s : BrowserNode) (ring : PureKeyring) (row : Fields) (more : List Fields)
      (batch : Bytes)
      → s.ring ≡ some ring
      → all_shipped (get_ship_cursor s.cursor) (rows_of W s) ≡ false
      → strip_rows (rows_behind (get_ship_cursor s.cursor) (rows_of W s)) ≡ ok (row ∷ more)
      → batch_bytes W.platform (row ∷ more) ≡ ok batch
      → ((resp : Response) × ((backend W).reply s.node.sent (ship_request W ring batch)
            ≡ answered resp)
          × ((final (ship_logs W fresh s)).cursor ≡ number (pos (count (rows_of W s)))))
        ⊎ ((e : Exn) × ((backend W).reply s.node.sent (ship_request W ring batch) ≡ failed e)
            × ((final (ship_logs W fresh s)).cursor ≡ s.cursor)
            × ((final (ship_logs W fresh s)).messages ≡ s.messages ++ ship_failed e ∷ []))
  unfolding ship_logs ship_rows post ensure_keyring
  ship_logs-cursor fresh s ring row more batch there behind stripped packed =
      let tried : ship_try W fresh s
          ≡ continue (post W (ship_request W ring batch) s)
              (λ resp. ship_answer W (count (rows_of W s)) (length (row ∷ more)) resp.status) =
        ap (λ o. continue o (λ r t. ship_rows W r (rows_of W t) (get_ship_cursor t.cursor) t))
          (has_ring fresh s ring s.ring there)
        ∙ rw (behind, stripped, packed) refl in
      subst
        (λ o.
          After s (final (ship_end W o))
            ((backend W).reply s.node.sent (ship_request W ring batch)))
        (sym tried)
        (answer_cursor s ring row more batch
          ((backend W).reply s.node.sent (ship_request W ring batch)))
