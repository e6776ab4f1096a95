-- ===== src/Client/Ship.antt =====
-- `_ship_logs`: the job log rows behind the cursor go to the log wall, without scraped content.
pub mod Shipped
mod Tests
use lustro_node_agent.Base.{
  ℕ, ℤ, pos, ◌/◌, String, Bool, true, false, Option, none, some, List, [], ◌++◌, ◌==◌, length,
  if◌then◌else◌,
}
use lustro_node_agent.Base.Text.{Text, Bytes, text, utf8}
use lustro_node_agent.Base.Value.{Fields, int, str, dict, end, field}
use lustro_node_agent.Base.Result.{
  Exn, Result, ok, err, or_raise, unicode_error, http_error, os_error,
}
use lustro_node_agent.Base.Exec.{Outcome, Exec, returned, raised, pure, raise, lift, ◌>>=◌, ◌>>◌}
use lustro_node_agent.Platform.{Platform}
use lustro_node_agent.Egress.{check}
use lustro_node_agent.Client.{Request, Response, Http, NodeAgentClient, Node}
use lustro_node_agent.Client.Wire.{
  attempt, validate_http_client, is_present, object_of, log_entry, send, using_client,
}
use lustro_node_agent.Client.Process.{post}
use lustro_node_agent.Client.Batch.{
  slice_from, advance, is_blank, byte_lines, rows_of, read_offset, batch_bytes,
}

-- `except _HTTPError`, which is `OSError` if `httpx` is missing
abbrev pub is_http_error : Bool → Exn → Bool
is_http_error true http_error = true
is_http_error false os_error = true
is_http_error _ _ = false

module _ (P : Platform) (C : NodeAgentClient) where
  unfoldable pub ship_url : Text
  ship_url = C.egress.allowed_base_url ++ text "/v1/wu/node-logs"

  -- `body`
  unfoldable pub ship_body : Bytes → Fields
  ship_body batch = field "agent_pubkey" (str C.public_key_raw_b64) (
      field "agent_sig" (str (P.b64encode (C.sign batch)))
        (field "batch_bytes" (str (P.b64encode batch)) end))

  -- `shipped_path.write_text(str(stop))`
  unfoldable pub write_cursor : ℤ → Exec Node (Unit {0})
  write_cursor stop s = returned tt (record s { shipped = some (P.to_str (int stop)) })

  abbrev pub ship_event : String → Fields → Exec Node (Unit {0})
  ship_event name more = log_entry C (field "event" (str (text name)) more)

  -- The `try`: `false` is its early return.
  unfoldable pub ship_batch : Text → Bytes → ℤ → Http → Exec Node Bool
  ship_batch url batch stop h = do
    resp ← send C h (post P C url (dict (ship_body batch)))
    if resp.status / 100 == 2 then pure true else do
      write_cursor stop
      ship_event "ship_logs_failed" (field "status" (int (pos resp.status)) end)
      pure false

  -- The `except`
  unfoldable pub ship_result : Result Bool → Exec Node Bool
  ship_result (ok accepted) = pure accepted
  ship_result (err e) =
      if is_http_error (is_present C.httpx) e
      then (do
        ship_event "ship_logs_failed" (field "error" (str (text "transport")) end)
        pure false)
      else raise e

  abbrev pub ship_with : Text → Bytes → ℤ → Http → Exec Node Bool
  ship_with url batch stop h = do sent ← attempt (ship_batch url batch stop h); ship_result sent

  -- What follows the `try`
  unfoldable pub shipped_rows : ℤ → ℕ → Bool → Exec Node (Unit {0})
  shipped_rows stop rows false = pure tt
  shipped_rows stop rows true = do
    write_cursor stop
    ship_event "logs_shipped" (field "rows" (int (pos rows)) end)

  -- From a batch that is not blank on
  unfoldable pub ship_lines : ℤ → List Bytes → Option Http → Exec Node (Unit {0})
  unfolding batch_bytes
  ship_lines stop lines http = do
    rows ← lift (rows_of P lines)
    batch ← lift (batch_bytes P rows)
    url ← lift (check P C.egress ship_url)
    lift (validate_http_client (is_present C.httpx) (object_of http))
    accepted ← using_client C http (ship_with url batch stop)
    shipped_rows stop (length rows) accepted

  abbrev pub ship_from : ℤ → Bytes → Option Http → Exec Node (Unit {0})
  ship_from offset batch http =
      if is_blank batch
      then pure tt
      else ship_lines (advance offset (length batch)) (byte_lines false [] batch) http

  -- The log file holds the UTF-8 of its text.
  abbrev pub ship_log : ℤ → Option Text → Option Http → Exec Node (Unit {0})
  ship_log offset none http = pure tt
  ship_log offset (some log) http = do
    raw ← lift (or_raise (utf8 log) unicode_error)
    ship_from offset (slice_from offset raw) http

  -- `_ship_logs`
  unfoldable pub ship_logs : Option Http → Exec Node (Unit {0})
  unfolding read_offset ship_lines
  ship_logs http s = ship_log (read_offset P s.shipped) s.job_log http s
