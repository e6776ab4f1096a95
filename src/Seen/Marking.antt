-- ===== src/Seen/Marking.antt =====
-- What `_mark_seen` does to the file and to the sets, also where it raises.
use lustro_node_agent.Base.{
  ◌≤◌, ◌≡◌, ◌⊎◌, refl, sym, List, arith, inl, inr, length, Bool-cases, subst, ◌||◌,
}
use lustro_node_agent.Base.Text.{Text}
use lustro_node_agent.Base.Value.{Value, Fields, get, is_some, dict}
use lustro_node_agent.Base.Result.{ok, Result-cases}
use lustro_node_agent.Base.Exec.{Outcome, returned, raised, final}
use lustro_node_agent.Platform.{Platform}
use lustro_node_agent.JobLog.{TextFile}
use lustro_node_agent.JobLog.Growing.{GrownFrom, append_line-GrownFrom}
use lustro_node_agent.Seen.{
  ReplayStore, max_seen_entries, Seen, mark, seen_record, persist_seen, mark_seen, with_file,
}
use lustro_node_agent.Seen.Sets.{SetLaws, mark_bounded}

module _ (P : Platform) where
  persist_seen-GrownFrom :
      (s : Text) (wu : Fields) (file : TextFile)
      → GrownFrom s file
      → GrownFrom s (final (persist_seen P wu file))
  unfolding persist_seen
  persist_seen-GrownFrom s wu file g =
      elim (Bool-cases (is_some (get "wu_id" wu) || is_some (get "nonce" wu))) [
        | inl named ↦ rw named (append_line-GrownFrom s (P.dumps (dict (seen_record P wu))) file g)
        | inr anonymous ↦ rw anonymous g
      ]

  file-with_file :
      (m : Seen) (o : Outcome TextFile (Unit {0})) → (final (with_file P m o)).file ≡ final o
  file-with_file m (returned _ file) = refl
  file-with_file m (raised e file) = refl

  memory-with_file :
      (m : Seen) (o : Outcome TextFile (Unit {0})) → (final (with_file P m o)).memory ≡ m
  memory-with_file m (returned _ file) = refl
  memory-with_file m (raised e file) = refl

  mark_seen-file :
      (wu : Fields) (r : ReplayStore)
      → ((final (mark_seen P wu r)).file ≡ r.file)
        ⊎ ((final (mark_seen P wu r)).file ≡ final (persist_seen P wu r.file))
  unfolding mark_seen
  mark_seen-file wu r = elim (Result-cases (mark P (get "wu_id" wu) r.memory.wu_ids)) [
    | inr (_, bad) ↦ inl (ground arith)
    | inl (ids, first) ↦ elim (Result-cases (mark P (get "nonce" wu) r.memory.nonces)) [
      | inr (_, bad) ↦ inl (ground arith)
      | inl (nonces, second) ↦ inr (
          ground (
            arith,
            file-with_file (record { wu_ids = ids; nonces = nonces }) (persist_seen P wu r.file),
          ))
    ]
  ]

  pub mark_seen-GrownFrom :
      (s : Text) (wu : Fields) (r : ReplayStore)
      → GrownFrom s r.file
      → GrownFrom s (final (mark_seen P wu r)).file
  mark_seen-GrownFrom s wu r g = elim (mark_seen-file wu r) [
    | inl same ↦ subst (GrownFrom s) (sym same) g
    | inr written ↦ subst (GrownFrom s) (sym written) (persist_seen-GrownFrom s wu r.file g)
  ]

  -- Both sets are within their limit.
  abbrev pub Bounded : Seen → Type 0
  Bounded m = (length m.wu_ids ≤ max_seen_entries) × (length m.nonces ≤ max_seen_entries)

  -- What one mark does to a set: nothing, or what `mark` returns.
  mark_seen-memory :
      (wu : Fields) (r : ReplayStore)
      → (ids nonces : List Value) × ((final (mark_seen P wu r)).memory
          ≡ record { wu_ids = ids; nonces = nonces })
        × ((ids ≡ r.memory.wu_ids) ⊎ (mark P (get "wu_id" wu) r.memory.wu_ids ≡ ok ids))
        × ((nonces ≡ r.memory.nonces) ⊎ (mark P (get "nonce" wu) r.memory.nonces ≡ ok nonces))
  unfolding mark_seen
  mark_seen-memory wu r = elim (Result-cases (mark P (get "wu_id" wu) r.memory.wu_ids)) [
    | inr (_, bad) ↦ (r.memory.wu_ids, r.memory.nonces, ground arith, inl refl, inl refl)
    | inl (ids, first) ↦ elim (Result-cases (mark P (get "nonce" wu) r.memory.nonces)) [
      | inr (_, bad) ↦ (ids, r.memory.nonces, ground arith, inr first, inl refl)
      | inl (nonces, second) ↦ (
        ids,
        nonces,
        ground (
          arith,
          memory-with_file (record { wu_ids = ids; nonces = nonces }) (persist_seen P wu r.file),
        ),
        inr first,
        inr second,
      )
    ]
  ]

  marked_bound :
      SetLaws P
      → (v : Value) (xs ys : List Value) → length xs ≤ max_seen_entries
      → (ys ≡ xs) ⊎ (mark P v xs ≡ ok ys)
      → length ys ≤ max_seen_entries
  marked_bound laws v xs ys h (inl same) = rw same h
  marked_bound laws v xs ys h (inr marked) = mark_bounded P laws v xs ys h marked

  pub mark_seen-Bounded :
      SetLaws P
      → (wu : Fields) (r : ReplayStore) → Bounded r.memory
      → Bounded (final (mark_seen P wu r)).memory
  mark_seen-Bounded laws wu r (few_ids, few_nonces) =
      let (ids, nonces, memory, first, second) = mark_seen-memory wu r in
      subst Bounded (sym memory) (
        marked_bound laws (get "wu_id" wu) _ ids few_ids first,
        marked_bound laws (get "nonce" wu) _ nonces few_nonces second,
      )
