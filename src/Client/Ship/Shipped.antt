-- ===== src/Client/Ship/Shipped.antt =====
-- What `_ship_logs` sends, and where: the egress guarantee, the closing of clients, and that no
-- scraped content is in a batch.
use mathlib.Core.List.{append_assoc, append-nil}
use lustro_node_agent.Base.{
  ℕ, ℤ, ◌+◌, ◌/◌, ◌≡◌, refl, ap, sym, ◌∙◌, true, false, Bool, Option, none, some, List, [], ◌∷◌,
  ◌++◌, All, All-append, arith, ◌==◌, length,
}
use lustro_node_agent.Base.Text.{Text, Bytes, utf8}
use lustro_node_agent.Base.Value.{Value, Fields, dict, has_key, has_key-pop_key, pop_key-has_key}
use lustro_node_agent.Base.Result.{
  Result, ok, err, >>=-eq-ok, ok-injective, or_raise, unicode_error,
}
use lustro_node_agent.Base.Exec.{
  final, Keeps, Keeps-bind, Keeps-bind-lift, Keeps-if, Keeps-raise, Keeps-pure,
}
use lustro_node_agent.Platform.{Platform}
use lustro_node_agent.JobLog.{TextFile}
use lustro_node_agent.Egress.{check}
use lustro_node_agent.Client.{Request, Http, NodeAgentClient, Node}
use lustro_node_agent.Client.Wire.{using_client, validate_http_client, is_present, object_of}
use lustro_node_agent.Client.Wire.Keeps.{
  AllowsLog, AllowsRequest, Keeps-log_entry, Keeps-attempt, Keeps-send, Keeps-using_client,
}
use lustro_node_agent.Client.Process.{post}
use lustro_node_agent.Client.Process.Keeps.{OnlyEdge, OnlyEdge-AllowsChecked, HasOpen}
use lustro_node_agent.Client.Batch.{row_of, rows_of, batch_bytes, is_blank, read_offset, slice_from}
use lustro_node_agent.Client.Ship.{
  ship_url, ship_body, ship_batch, ship_result, ship_with, shipped_rows, write_cursor, ship_lines,
  ship_log, ship_logs,
}

abbrev pub IsStripped : Fields → Type 0
IsStripped row = (has_key "text_preview" row ≡ false) × (has_key "raw" row ≡ false)

row_of-IsStripped : (v : Option Value) (row : Fields) → row_of v ≡ ok row → IsStripped row
unfolding row_of has_key
row_of-IsStripped none row h = rw (← ok-injective h) (refl, refl)
row_of-IsStripped (some (dict fs)) row h = rw (← ok-injective h) (
  pop_key-has_key "text_preview" "raw" _ (has_key-pop_key "text_preview" fs),
  has_key-pop_key "raw" _,
)
row_of-IsStripped (some _) row h = cc

module _ (P : Platform) where
  rows_of-IsStripped :
      (lines : List Bytes) (rows : List Fields) → rows_of P lines ≡ ok rows → All IsStripped rows
  unfolding rows_of
  rows_of-IsStripped [] rows h = rw (← ok-injective h) tt
  rows_of-IsStripped (line ∷ lines) rows h =
      let (parsed, _, h₁) = >>=-eq-ok (P.loads_bytes line) _ h in
      let (row, made, h₂) = >>=-eq-ok (row_of parsed) _ h₁ in
      let (rest, others, h₃) = >>=-eq-ok (rows_of P lines) _ h₂ in
      rw (← ok-injective h₃)
        (row_of-IsStripped parsed row made, rows_of-IsStripped lines rest others)

-- A change of the cursor file keeps `I`.
abbrev pub IgnoresCursor : (Node → Type 0) → Type 0
IgnoresCursor I = (s : Node) (file : TextFile) → I s → I (record s { shipped = file })

module _ (P : Platform) (C : NodeAgentClient) where
  module _ {I : Node → Type 0} (log : AllowsLog C I) (cursor : IgnoresCursor I) where
    write_cursor-Keeps : (stop : ℤ) → Keeps I (write_cursor P C stop)
    unfolding write_cursor
    write_cursor-Keeps stop = record { at = λ s i. cursor s _ i }

    ship_result-Keeps : (r : Result Bool) → Keeps I (ship_result P C r)
    unfolding ship_result
    ship_result-Keeps (ok accepted) = Keeps-pure accepted
    ship_result-Keeps (err e) =
        Keeps-if _ _ _ (Keeps-bind _ _ (Keeps-log_entry C log _) (λ _. Keeps-pure false))
          (Keeps-raise e)

    pub ship_with-Keeps :
        (url : Text) (batch : Bytes) (stop : ℤ) (h : Http)
        → AllowsRequest I (post P C url (dict (ship_body P C batch)))
        → Keeps I (ship_with P C url batch stop h)
    unfolding ship_batch
    ship_with-Keeps url batch stop h allows =
        Keeps-bind _ _
          (Keeps-attempt _ (
            Keeps-bind _ _ (Keeps-send C h _ allows) λ resp.
              Keeps-if (resp.status / 100 == 2) _ _ (Keeps-pure true) (
                Keeps-bind _ _ (write_cursor-Keeps stop)
                  λ _. Keeps-bind _ _ (Keeps-log_entry C log _) (λ _. Keeps-pure false))))
          ship_result-Keeps

    shipped_rows-Keeps :
        (stop : ℤ) (rows : ℕ) (accepted : Bool) → Keeps I (shipped_rows P C stop rows accepted)
    unfolding shipped_rows
    shipped_rows-Keeps stop rows false = Keeps-pure tt
    shipped_rows-Keeps stop rows true =
        Keeps-bind _ _ (write_cursor-Keeps stop) (λ _. Keeps-log_entry C log _)

    module _ (http : Option Http)
        (posts : (rows : List Fields) (batch : Bytes) (url : Text) (stop : ℤ)
          → All IsStripped rows
          → batch_bytes P rows ≡ ok batch
          → check P C.egress (ship_url P C) ≡ ok url
          → Keeps I (using_client C http (ship_with P C url batch stop))) where
      ship_lines-Keeps : (stop : ℤ) (lines : List Bytes) → Keeps I (ship_lines P C stop lines http)
      unfolding ship_lines
      ship_lines-Keeps stop lines = Keeps-bind-lift (rows_of P lines) _ λ rows made.
          Keeps-bind-lift (batch_bytes P rows) _ λ batch packed.
            Keeps-bind-lift (check P C.egress (ship_url P C)) _ λ url passed.
              Keeps-bind-lift (validate_http_client (is_present C.httpx) (object_of http)) _ λ _ _.
                Keeps-bind _ _
                  (posts rows batch url stop (rows_of-IsStripped P lines rows made) packed passed)
                  (shipped_rows-Keeps stop (length rows))

      ship_log-Keeps : (offset : ℤ) (file : Option Text) → Keeps I (ship_log P C offset file http)
      ship_log-Keeps offset none = Keeps-pure tt
      ship_log-Keeps offset (some t) = Keeps-bind-lift (or_raise (utf8 t) unicode_error) _ λ raw _.
          Keeps-if (is_blank (slice_from offset raw)) _ _ (Keeps-pure tt) (ship_lines-Keeps _ _)

      pub ship_logs-Keeps : Keeps I (ship_logs P C http)
      unfolding ship_logs
      ship_logs-Keeps = record {
        at = λ s. (ship_log-Keeps (read_offset P s.shipped) s.job_log).at s;
      }

  -- If all requests so far went to the guard's scheme and host and to a port that fits, then so do
  -- all requests after `_ship_logs`.
  pub ship_logs-OnlyEdge :
      (http : Option Http) (s : Node) → OnlyEdge P C s → OnlyEdge P C (final (ship_logs P C http s))
  ship_logs-OnlyEdge http s =
      (ship_logs-Keeps {I = OnlyEdge P C} (λ s file i. i) (λ s file i. i) http
          λ rows batch url stop _ _ passed.
            let k = λ (h : Http).
              ship_with-Keeps (λ s file i. i) (λ s file i. i) url batch stop h
                (OnlyEdge-AllowsChecked P C _ _ passed) in
            Keeps-using_client C (OnlyEdge P C) http _ (λ s i. i) (λ s i. i) k k).at
        s

  -- Every HTTP client that `_ship_logs` opens it closes, whether it returns or raises.
  pub ship_logs-open_clients :
      (http : Option Http) (s : Node) → (final (ship_logs P C http s)).open_clients ≡ s.open_clients
  ship_logs-open_clients http s =
      let n = s.open_clients in
      (ship_logs-Keeps {I = HasOpen P C n} (λ s file i. i) (λ s file i. i) http
          λ rows batch url stop _ _ _.
            Keeps-using_client C (HasOpen P C (n + 1)) http _ (λ s i. omega arith)
              (λ s i. omega arith)
              (λ h. ship_with-Keeps (λ s file i. i) (λ s file i. i) url batch stop h (λ s i. i))
              (λ h. ship_with-Keeps (λ s file i. i) (λ s file i. i) url batch stop h (λ s i. i))).at
        s refl

  -- A request with a signed batch of rows that hold neither `text_preview` nor `raw`.
  pub record IsShipment (q : Request) : Type 0 where
    pub rows : List Fields
    pub batch : Bytes
    pub stripped : All IsStripped rows
    pub packed : batch_bytes P rows ≡ ok batch
    pub posted : q.json ≡ some (dict (ship_body P C batch))

  abbrev SendsAfter : List Request → Node → Type 0
  SendsAfter before s = (more : List Request) × (s.sent ≡ before ++ more) × All IsShipment more

  SendsAfter-AllowsRequest :
      (before : List Request) (q : Request) → IsShipment q → AllowsRequest (SendsAfter before) q
  SendsAfter-AllowsRequest before q shipment s (more, sent, shipments) = (
    more ++ q ∷ [],
    ap (λ (l : List Request). l ++ q ∷ []) sent ∙ append_assoc before more (q ∷ []),
    All-append IsShipment more (q ∷ []) shipments (shipment, tt),
  )

  -- Every request that `_ship_logs` makes posts, signed, the JSON of rows none of which holds
  -- `text_preview` or `raw`, whatever stands in the job log.
  pub ship_logs-IsShipment :
      (http : Option Http) (s : Node)
      → (more : List Request) × ((final (ship_logs P C http s)).sent ≡ s.sent ++ more)
        × All IsShipment more
  ship_logs-IsShipment http s =
      (ship_logs-Keeps {I = SendsAfter s.sent} (λ s file i. i) (λ s file i. i) http
          λ rows batch url stop stripped packed passed.
            let shipment : IsShipment (post P C url (dict (ship_body P C batch))) = record {
              rows = rows;
              batch = batch;
              stripped = stripped;
              packed = packed;
              posted = refl;
            } in
            let k = λ (h : Http).
              ship_with-Keeps (λ s file i. i) (λ s file i. i) url batch stop h
                (SendsAfter-AllowsRequest s.sent _ shipment) in
            Keeps-using_client C (SendsAfter s.sent) http _ (λ s i. i) (λ s i. i) k k).at
        s ([], sym (append-nil s.sent), tt)
