-- ===== src/JobLog/Tail/Following.antt =====
-- The end of a log that is followed.
use mathlib.Core.List.{filter_map, append-nil}
use lustro_node_agent.Base.{
  ℕ, zero, suc, ◌+◌, ◌≤◌, ◌≡◌, refl, sym, ap, ◌∙◌, Bool, true, none, some, List, [], ◌∷◌, ◌++◌,
  length, length-append, arith,
}
use lustro_node_agent.Base.Text.{Text}
use lustro_node_agent.Platform.{Platform}
use lustro_node_agent.JobLog.{TextFile}
use lustro_node_agent.JobLog.Lines.{IsComplete}
use lustro_node_agent.JobLog.Tail.{
  after_line, lines_within, file_lines, Event, appended, polled, follow_from, await_log, follow_log,
  iter_lines, records_of, contents_from, read_from,
}
use lustro_node_agent.JobLog.Tail.Delivery.{
  added, AppendsLines, rounds, delivered, unread_after, delivered-follow_from, length-after_line,
}

added-rounds : (events : List Event) (n : ℕ) → added (events ++ rounds n) ≡ added events
added-rounds [] zero = refl
added-rounds [] (suc n) = added-rounds [] n
added-rounds (appended t ∷ events) n = ap (λ l. t ++ l) (added-rounds events n)
added-rounds (polled ∷ events) n = added-rounds events n

AppendsLines-rounds :
    (events : List Event) (n : ℕ) → AppendsLines events → AppendsLines (events ++ rounds n)
AppendsLines-rounds [] zero lines = tt
AppendsLines-rounds [] (suc n) lines = AppendsLines-rounds [] n tt
AppendsLines-rounds (appended t ∷ events) n (first, lines) =
    (first, AppendsLines-rounds events n lines)
AppendsLines-rounds (polled ∷ events) n lines = AppendsLines-rounds events n lines

module _ (P : Platform) where
  -- A round for every code point is enough.
  drained : (n : ℕ) (unread : Text) → length unread ≤ n → unread_after P unread (rounds n) ≡ []
  unfolding unread_after
  drained zero [] small = refl
  drained zero (c ∷ t) small = absurd (omega (arith, small))
  drained (suc n) [] small = drained n [] (omega arith)
  drained (suc n) (c ∷ t) small =
      drained n (after_line (c ∷ t)) (omega (arith, length-after_line c t, small))

  drained_behind :
      (unread : Text) (events : List Event) (n : ℕ)
      → length unread + length (added events) ≤ n
      → unread_after P unread (events ++ rounds n) ≡ []
  unfolding unread_after
  drained_behind unread [] n small = drained n unread (omega (arith, small))
  drained_behind unread (appended t ∷ events) n small =
      drained_behind (unread ++ t) events n
        (omega (arith, small, length-append unread t, length-append t (added events)))
  drained_behind [] (polled ∷ events) n small = drained_behind [] events n small
  drained_behind (c ∷ t) (polled ∷ events) n small =
      drained_behind (after_line (c ∷ t)) events n (omega (arith, length-after_line c t, small))

  caught_up :
      (unread : Text) (events : List Event) (n : ℕ)
      → IsComplete unread
      → AppendsLines events
      → length unread + length (added events) ≤ n
      → delivered (follow_from P unread (events ++ rounds n))
        ≡ records_of P (unread ++ added events)
  unfolding filter_map file_lines lines_within
  caught_up unread events n whole lines small =
      sym (append-nil _)
      ∙ ap (λ u. delivered (follow_from P unread (events ++ rounds n)) ++ records_of P u)
          (sym (drained_behind unread events n small))
      ∙ sym (
          delivered-follow_from P unread (events ++ rounds n) whole
            (AppendsLines-rounds events n lines))
      ∙ ap (λ u. records_of P (unread ++ u)) (added-rounds events n)

  await-caught_up :
      (events : List Event) (n : ℕ)
      → AppendsLines events
      → length (added events) ≤ n
      → delivered (await_log P (events ++ rounds n)) ≡ records_of P (added events)
  unfolding await_log filter_map file_lines lines_within
  await-caught_up [] zero lines small = refl
  await-caught_up [] (suc n) lines small = await-caught_up [] n tt (omega arith)
  await-caught_up (appended t ∷ events) n (first, lines) small =
      caught_up t events n first lines (omega (arith, small, length-append t (added events)))
  await-caught_up (polled ∷ events) n lines small = await-caught_up events n lines small

  -- Whatever lines others append to a followed log and however that interleaves with its reading, if
  -- after it the loop goes a round for every code point that it had to read, then it has yielded,
  -- besides `None`, exactly the records of the lines that were to be read: those that were appended,
  -- behind those that the log held unless `since_end` skips them. The log holds complete lines, or
  -- does not exist yet.
  pub iter_lines-delivers :
      (since_end : Bool) (file : TextFile) (events : List Event) (n : ℕ)
      → IsComplete (contents_from P since_end file)
      → AppendsLines events
      → length (contents_from P since_end file) + length (added events) ≤ n
      → delivered (iter_lines P true since_end file (events ++ rounds n))
        ≡ records_of P (contents_from P since_end file ++ added events)
  unfolding iter_lines follow_log
  iter_lines-delivers since_end none events n whole lines small =
      await-caught_up events n lines (omega (arith, small))
  iter_lines-delivers since_end (some t) events n whole lines small =
      caught_up (read_from P since_end t) events n whole lines small
