-- ===== src/Seen.antt =====
-- The anti-replay record of node_agent/client.py: `_load_seen`, `_persist_seen`, `_seen` and
-- `_mark_seen`. A Python set is a list of its elements.
pub mod Marking
pub mod Sets
pub mod Reload
pub mod Lasting
pub mod Tests
use lustro_node_agent.Base.{
  ℕ, String, Bool, true, false, not, ◌&&◌, ◌||◌, List, [], ◌∷◌, ◌++◌, Option, none, some, ltb,
  length, take, if◌then◌else◌,
}
use lustro_node_agent.Base.Text.{Text, text_eq, strip, splitlines, is_empty}
use lustro_node_agent.Base.Value.{Value, Fields, null, str, list, dict, end, field, get, is_some}
use lustro_node_agent.Base.Result.{Result, ok, err, ◌>>=◌, type_error}
use lustro_node_agent.Base.Exec.{Outcome, Exec, returned, raised, continue}
use lustro_node_agent.Platform.{Platform}
use lustro_node_agent.JobLog.{TextFile, append_line}

abbrev pub max_seen_entries : ℕ
max_seen_entries = 100000

-- `max_seen_entries // 10`
abbrev pub evicted_at_once : ℕ
evicted_at_once = 10000

pub record Seen : Type 0 where
  pub wu_ids : List Value
  pub nonces : List Value

abbrev pub nothing_seen : Seen
nothing_seen = record { wu_ids = []; nonces = [] }

-- A `list` or a `dict` has no hash: to look it up in a set, or to add it, raises `TypeError`.
abbrev pub hashable : Value → Bool
hashable (list _) = false
hashable (dict _) = false
hashable _ = true

module _ (P : Platform) where
  abbrev pub same_element : Value → Value → Bool
  same_element (str a) (str b) = text_eq a b
  same_element v w = P.same_key v w

  -- `v in xs`
  unfoldable pub is_member : Value → List Value → Bool
  is_member v [] = false
  is_member v (x ∷ xs) = same_element v x || is_member v xs

  -- `xs.add(v)`
  unfoldable pub add : Value → List Value → Result (List Value)
  unfolding is_member
  add v xs = if hashable v then ok (if is_member v xs then xs else xs ++ v ∷ []) else err type_error

  -- `xs - gone`
  unfoldable pub remove_all : List Value → List Value → List Value
  unfolding is_member
  remove_all gone [] = []
  remove_all gone (x ∷ xs) =
      let rest = remove_all gone xs in if is_member x gone then rest else x ∷ rest

  -- The eviction of `_mark_seen`. `list(xs)` has the interpreter's order.
  unfoldable pub evict : List Value → List Value
  unfolding remove_all
  evict xs =
      if ltb max_seen_entries (length xs)
      then remove_all (take evicted_at_once (P.set_order xs)) xs
      else xs

  -- `v is not None and v in xs`
  unfoldable pub known : Value → List Value → Result Bool
  unfolding is_member
  known v xs =
      if is_some v then if hashable v then ok (is_member v xs) else err type_error else ok false

  -- `_seen`
  unfoldable pub seen : Seen → Fields → Result Bool
  unfolding known
  seen s wu = do
    by_id ← known (get "wu_id" wu) s.wu_ids
    if by_id then ok true else known (get "nonce" wu) s.nonces

  -- One `if v is not None` of `_load_seen`
  unfoldable pub add_known : Value → List Value → Result (List Value)
  unfolding add
  add_known v xs = if is_some v then add v xs else ok xs

  unfoldable pub load_record : Seen → Value → Result Seen
  unfolding add_known
  load_record s (dict rec) = do
    ids ← add_known (get "wu_id" rec) s.wu_ids
    nonces ← add_known (get "nonce" rec) s.nonces
    ok (record { wu_ids = ids; nonces = nonces })
  load_record s _ = ok s

  -- One round of the loop of `_load_seen`, after its `strip`: blank and malformed lines are skipped.
  abbrev pub load_stripped : Seen → Text → Result Seen
  load_stripped s line =
      if is_empty line then ok s else elim (P.loads line) [ none ↦ ok s | some v ↦ load_record s v ]

  unfoldable pub load_lines : Seen → List Text → Result Seen
  unfolding load_record strip
  load_lines s [] = ok s
  load_lines s (line ∷ rest) = load_stripped s (strip line) >>= λ t. load_lines t rest

  -- `_load_seen`, on the sets of a new client
  unfoldable pub load_seen : TextFile → Result Seen
  unfolding load_lines splitlines
  load_seen none = ok nothing_seen
  load_seen (some t) = load_lines nothing_seen (splitlines t)

  abbrev pub present : String → Value → Fields → Fields
  present k v rest = if is_some v then field k v rest else rest

  -- The record that `_persist_seen` writes.
  unfoldable pub seen_record : Fields → Fields
  seen_record wu = present "wu_id" (get "wu_id" wu) (present "nonce" (get "nonce" wu) end)

  -- `_persist_seen`. The write is the same with the file lock and without it.
  unfoldable pub persist_seen : Fields → Exec TextFile (Unit {0})
  unfolding seen_record append_line
  persist_seen wu file =
      if is_some (get "wu_id" wu) || is_some (get "nonce" wu)
      then append_line (P.dumps (dict (seen_record wu))) file
      else returned tt file

  -- One half of `_mark_seen`
  unfoldable pub mark : Value → List Value → Result (List Value)
  unfolding add evict
  mark v xs = if is_some v then (do more ← add v xs; ok (evict more)) else ok xs

-- What a client keeps against replays: the sets in memory, and the file behind them.
pub record ReplayStore : Type 0 where
  pub memory : Seen
  pub file : TextFile

module _ (P : Platform) where
  abbrev pub with_file : Seen → Outcome TextFile (Unit {0}) → Outcome ReplayStore (Unit {0})
  with_file s (returned _ file) = returned tt (record { memory = s; file = file })
  with_file s (raised e file) = raised e (record { memory = s; file = file })

  -- `_mark_seen`: a set that was changed before an exception stays changed.
  unfoldable pub mark_seen : Fields → Exec ReplayStore (Unit {0})
  mark_seen wu s = elim (mark P (get "wu_id" wu) s.memory.wu_ids) [
    | err e ↦ raised e s
    | ok ids ↦ elim (mark P (get "nonce" wu) s.memory.nonces) [
      | err e ↦ raised e (record s { memory = record { wu_ids = ids; nonces = s.memory.nonces } })
      | ok nonces ↦ with_file (record { wu_ids = ids; nonces = nonces }) (persist_seen P wu s.file)
    ]
  ]
