-- ===== src/Browser/Shipping/Kept.antt =====
-- What `_ship_logs` of the page leaves, whatever the network answers and whatever raises.
use mathlib.Core.List.{append_assoc, append-nil}
use lustro_node_agent.Base.{
  ℕ, ℤ, pos, ◌/◌, ◌==◌, ◌≡◌, ◌⊎◌, inl, inr, refl, ap, sym, ◌∙◌, Option, none, some, List, [], ◌∷◌,
  ◌++◌, All, All-append, length,
}
use lustro_node_agent.Base.Text.{Bytes}
use lustro_node_agent.Base.Value.{
  Items, nil, cons, Fields, dict, has_key-pop_key, pop_key, pop_key-has_key,
}
use lustro_node_agent.Base.Result.{ok, err, ok-injective, Result-cases}
use lustro_node_agent.Base.Exec.{
  Outcome, returned, raised, final, Keeps, Keeps-bind, Keeps-bind-lift, Keeps-if, Keeps-pure,
}
use lustro_node_agent.Keyring.{PureKeyring}
use lustro_node_agent.Storage.{read_rows, parse_rows}
use lustro_node_agent.Client.{Request, Reply, answered, failed}
use lustro_node_agent.Client.Batch.{batch_bytes}
use lustro_node_agent.Client.Ship.Shipped.{IsStripped}
use lustro_node_agent.Browser.{
  BrowserNode, Page, Message, shipped_rows, backend, number, page_store, notify, set_ship_cursor,
}
use lustro_node_agent.Browser.Keeps.{IgnoresRing, ensure_keyring-Keeps}
use lustro_node_agent.Browser.Shipping.{
  count, strip_rows, rows_behind, all_shipped, ship_request, settle_reply, with_request, post,
  ship_answer, ship_stripped, ship_rows, ship_try, ship_end, ship_logs,
}

strip_rows-IsStripped :
    (rows : Items) (stripped : List Fields)
    → strip_rows rows ≡ ok stripped
    → All IsStripped stripped
unfolding strip_rows
strip_rows-IsStripped nil stripped h = rw (← ok-injective h) tt
strip_rows-IsStripped (cons (dict fs) rows) stripped h = elim (Result-cases (strip_rows rows)) [
  | inl (more, made) ↦
      let same : ok (pop_key "raw" (pop_key "text_preview" fs) ∷ more) ≡ ok stripped =
        rw made at h in
      rw (← ok-injective same) (
        (
          pop_key-has_key "text_preview" "raw" _ (has_key-pop_key "text_preview" fs),
          has_key-pop_key "raw" _,
        ),
        strip_rows-IsStripped rows more made,
      )
  | inr (e, raises) ↦ let bad : err e ≡ ok stripped = rw raises at h in cc
]
strip_rows-IsStripped (cons _ rows) stripped h = cc

module _ (W : Page) where
  -- A request that posts a signed batch of rows that hold neither `text_preview` nor `raw`.
  pub record IsShipment (q : Request) : Type 0 where
    pub ring : PureKeyring
    pub rows : List Fields
    pub batch : Bytes
    pub stripped : All IsStripped rows
    pub packed : batch_bytes W.platform rows ≡ ok batch
    pub posted : q ≡ ship_request W ring batch

  abbrev pub rows_of : BrowserNode → Items
  rows_of s = read_rows W.platform page_store s

  -- The rows, the anti-replay record and the client are as they were, the cursor is too or stands
  -- behind the last row, and only batches without scraped content were sent.
  pub record Kept (s t : BrowserNode) : Type 0 where
    pub rows : t.node.job_log ≡ s.node.job_log
    pub replay : t.node.replay ≡ s.node.replay
    pub client : t.client ≡ s.client
    pub cursor : (t.cursor ≡ s.cursor) ⊎ (t.cursor ≡ number (pos (count (rows_of s))))
    pub sent : (more : List Request) × (t.node.sent ≡ s.node.sent ++ more) × All IsShipment more

  Kept-refl : (s : BrowserNode) → Kept s s
  Kept-refl s = record {
    rows = refl;
    replay = refl;
    client = refl;
    cursor = inl refl;
    sent = ([], sym (append-nil s.node.sent), tt);
  }

  Kept-rows : (s t : BrowserNode) → Kept s t → rows_of t ≡ rows_of s
  unfolding read_rows
  Kept-rows s t i = ap (parse_rows W.platform page_store) i.rows

  module _ (s : BrowserNode) where
    Kept-IgnoresRing : IgnoresRing (Kept s)
    Kept-IgnoresRing t ring seed messages i = record {
      rows = i.rows;
      replay = i.replay;
      client = i.client;
      cursor = i.cursor;
      sent = i.sent;
    }

    notify-Keeps : (m : Message) → Keeps (Kept s) (notify m)
    notify-Keeps m = record {
      at = λ t i. record {
        rows = i.rows;
        replay = i.replay;
        client = i.client;
        cursor = i.cursor;
        sent = i.sent;
      };
    }

    set_ship_cursor-Keeps : (n : ℕ) → n ≡ count (rows_of s) → Keeps (Kept s) (set_ship_cursor n)
    unfolding set_ship_cursor
    set_ship_cursor-Keeps n same = record {
      at = λ t i. record {
        rows = i.rows;
        replay = i.replay;
        client = i.client;
        cursor = inr (ap (λ m. number (pos m)) same);
        sent = i.sent;
      };
    }

    settle_reply-Kept :
        (r : Reply) (t : BrowserNode) → Kept s t → Kept s (final (settle_reply W t r))
    settle_reply-Kept (answered resp) t i = i
    settle_reply-Kept (failed e) t i = i

    post-Keeps : (q : Request) → IsShipment q → Keeps (Kept s) (post W q)
    unfolding post
    post-Keeps q shipment = record {
      at = λ t i.
          let (more, sent, shipments) = i.sent in
          settle_reply-Kept ((backend W).reply t.node.sent q) (with_request W q t) (record {
            rows = i.rows;
            replay = i.replay;
            client = i.client;
            cursor = i.cursor;
            sent = (
              more ++ q ∷ [],
              ap (λ (l : List Request). l ++ q ∷ []) sent ∙ append_assoc s.node.sent more (q ∷ []),
              All-append IsShipment more (q ∷ []) shipments (shipment, tt),
            );
          });
    }

    ship_answer-Keeps :
        (rows stripped status : ℕ)
        → rows ≡ count (rows_of s)
        → Keeps (Kept s) (ship_answer W rows stripped status)
    unfolding ship_answer
    ship_answer-Keeps rows stripped status same =
        Keeps-if (status / 100 == 2) _ _ (Keeps-pure (some stripped)) (
          Keeps-bind _ _ (set_ship_cursor-Keeps rows same)
            λ _. Keeps-bind _ _ (notify-Keeps _) (λ _. Keeps-pure none))

    ship_stripped-Keeps :
        (ring : PureKeyring) (rows : ℕ) (stripped : List Fields)
        → rows ≡ count (rows_of s)
        → All IsStripped stripped
        → Keeps (Kept s) (ship_stripped W ring rows stripped)
    ship_stripped-Keeps ring rows [] same clean =
        Keeps-bind _ _ (set_ship_cursor-Keeps rows same) (λ _. Keeps-pure none)
    ship_stripped-Keeps ring rows (row ∷ more) same clean =
        Keeps-bind-lift (batch_bytes W.platform (row ∷ more)) _ λ batch packed.
          let shipment : IsShipment (ship_request W ring batch) = record {
            ring = ring;
            rows = row ∷ more;
            batch = batch;
            stripped = clean;
            packed = packed;
            posted = refl;
          } in
          Keeps-bind _ _ (post-Keeps _ shipment)
            λ resp. ship_answer-Keeps rows (length (row ∷ more)) resp.status same

    ship_rows-Keeps :
        (ring : PureKeyring) (rows : Items) (cursor : ℤ)
        → count rows ≡ count (rows_of s)
        → Keeps (Kept s) (ship_rows W ring rows cursor)
    unfolding ship_rows
    ship_rows-Keeps ring rows cursor same =
        Keeps-if (all_shipped cursor rows) _ _ (Keeps-pure none) (
          Keeps-bind-lift (strip_rows (rows_behind cursor rows)) _ λ stripped made.
            ship_stripped-Keeps ring (count rows) stripped same
              (strip_rows-IsStripped _ stripped made))

    ship_try-Keeps : (fresh : Bytes) → Keeps (Kept s) (ship_try W fresh)
    ship_try-Keeps fresh = Keeps-bind _ _ (ensure_keyring-Keeps W Kept-IgnoresRing fresh) λ ring.
        record {
          at = λ t i. (ship_rows-Keeps ring (rows_of t) _ (ap count (Kept-rows s t i))).at t i;
        }

    ship_end-returns :
        (o : Outcome BrowserNode (Option ℕ))
        → Kept s (final o)
        → (t : BrowserNode) × (ship_end W o ≡ returned tt t) × Kept s t
    unfolding ship_end set_ship_cursor
    ship_end-returns (raised e t) i = (_, refl, (notify-Keeps _).at t i)
    ship_end-returns (returned none t) i = (t, refl, i)
    ship_end-returns (returned (some n) t) i =
        let k =
          Keeps-bind _ _ (set_ship_cursor-Keeps _ (ap count (Kept-rows s t i)))
            (λ _. notify-Keeps (shipped_rows n)) in
        (_, refl, k.at t i)

  -- `_ship_logs` of the page always returns. The job log, the anti-replay record and the client are
  -- as before, the cursor too or it stands behind the last row, and every request made posts, signed,
  -- the JSON of rows none of which holds `text_preview` or `raw`.
  pub ship_logs-returns :
      (fresh : Bytes) (s : BrowserNode)
      → (t : BrowserNode) × (ship_logs W fresh s ≡ returned tt t) × Kept s t
  unfolding ship_logs
  ship_logs-returns fresh s =
      ship_end-returns s (ship_try W fresh s) ((ship_try-Keeps s fresh).at s (Kept-refl s))
