-- ===== src/Client/Batch.antt =====
-- The batch that `_ship_logs` cuts from the job log and the rows that it makes of it.
use lustro_node_agent.Base.{
  ℕ, ℤ, pos, negsuc, ◌+◌, ◌-◌, Bool, true, false, ◌&&◌, ◌||◌, Option, none, some, List, [], ◌∷◌,
  leb, ◌==◌, length, drop, if◌then◌else◌,
}
use mathlib.Core.List.{reverse}
use lustro_node_agent.Base.Text.{Bytes, text, is_empty, strip, utf8}
use lustro_node_agent.Base.Value.{
  Value, Items, nil, cons, Fields, str, list, dict, end, field, pop_key,
}
use lustro_node_agent.Base.Result.{
  Result, ok, err, ◌>>=◌, or_raise, type_error, attribute_error, unicode_error,
}
use lustro_node_agent.Platform.{Platform}
use lustro_node_agent.JobLog.{TextFile}

-- `raw[offset:]`, where a negative offset counts from the end
unfoldable pub slice_from : ℤ → Bytes → Bytes
slice_from (pos n) raw = drop n raw
slice_from (negsuc n) raw = drop (length raw - (n + 1)) raw

-- `offset + n`
unfoldable pub advance : ℤ → ℕ → ℤ
advance (pos a) n = pos (a + n)
advance (negsuc a) n = if leb n a then negsuc (a - n) else pos (n - a - 1)

-- The white space of `bytes.strip`
abbrev pub byte_space : ℕ → Bool
byte_space c = c == 32 || (leb 9 c && leb c 13)

-- `not batch.strip()`
unfoldable pub is_blank : Bytes → Bool
is_blank [] = true
is_blank (c ∷ b) = byte_space c && is_blank b

-- `batch.splitlines()`: bytes are cut at \n, \r and \r\n only. `now` and `cr` are as in `lines_from`.
unfoldable pub byte_lines : Bool → Bytes → Bytes → List Bytes
byte_lines cr [] [] = []
byte_lines cr (x ∷ now) [] = reverse (x ∷ now) ∷ []
byte_lines cr now (c ∷ b) =
    let more = byte_lines false (c ∷ now) b in
    let ended = reverse now ∷ byte_lines (c == 13) [] b in
    let skipped = byte_lines false [] b in
    if cr && c == 10 then skipped else if c == 10 || c == 13 then ended else more

-- The row of a line that `json.loads` has parsed, or not, without `text_preview` and `raw`. Only an
-- object has a `pop` that takes a default.
unfoldable pub row_of : Option Value → Result Fields
row_of none = ok (field "event" (str (text "_parse_error")) end)
row_of (some (dict fs)) = ok (pop_key "raw" (pop_key "text_preview" fs))
row_of (some (list _)) = err type_error
row_of (some _) = err attribute_error

-- The rows as one JSON list, and `len(rows)`.
abbrev pub row_items : List Fields → Items
row_items [] = nil
row_items (r ∷ rs) = cons (dict r) (row_items rs)

module _ (P : Platform) where
  -- The loop over the lines
  unfoldable pub rows_of : List Bytes → Result (List Fields)
  unfolding row_of
  rows_of [] = ok []
  rows_of (line ∷ lines) = do
    parsed ← P.loads_bytes line
    row ← row_of parsed
    rows ← rows_of lines
    ok (row ∷ rows)

  unfoldable pub read_offset : TextFile → ℤ
  read_offset none = pos 0
  read_offset (some t) =
      let s = strip t in
      elim (P.parse_int (if is_empty s then text "0" else s)) [ some z ↦ z | none ↦ pos 0 ]

  unfoldable pub batch_bytes : List Fields → Result Bytes
  batch_bytes rows = or_raise (utf8 (P.dumps_canonical (list (row_items rows)))) unicode_error
