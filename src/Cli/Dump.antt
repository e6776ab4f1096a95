-- ===== src/Cli/Dump.antt =====
-- `dump-log`: the job log as the volunteer reads it.
use mathlib.Core.List.{map, map-append, append_assoc, append-nil}
use lustro_node_agent.Base.{ℕ, ◌≡◌, refl, sym, ap, ◌∙◌, some, List, [], ◌∷◌, ◌++◌}
use lustro_node_agent.Base.Text.{Text, text}
use lustro_node_agent.Base.Value.{Value, Fields, dict}
use lustro_node_agent.Base.Exec.{Exec, returned, pure, ◌>>◌}
use lustro_node_agent.Platform.{Platform}
use lustro_node_agent.JobLog.{TextFile, contents, record_of, append, read_all}
use lustro_node_agent.JobLog.Lines.{IsComplete}
use lustro_node_agent.JobLog.Reading.{PlainLine, read_all-append, append_line-returned}

-- `print`, on the texts that were printed before
abbrev pub print : Text → Exec (List Text) (Unit {0})
print t printed = returned tt (printed ++ t ∷ [])

module _ (P : Platform) where
  abbrev pub print_rows : List Value → Exec (List Text) ℕ
  print_rows [] = pure 0
  print_rows (row ∷ rows) = do print (P.dumps row); print_rows rows

  abbrev pub dump_rows : Text → List Value → Exec (List Text) ℕ
  dump_rows path [] = do print (text "no jobs logged yet (" ++ (path ++ text ")")); pure 0
  dump_rows path (row ∷ rows) = print_rows (row ∷ rows)

  -- `cmd_dump_log`, for the log at a path
  unfoldable pub cmd_dump_log : Text → TextFile → Exec (List Text) ℕ
  cmd_dump_log path file = dump_rows path (read_all P file)

  print_rows-prints :
      (rows : List Value) (printed : List Text)
      → print_rows rows printed ≡ returned 0 (printed ++ map P.dumps rows)
  print_rows-prints [] printed = ap (λ l. returned 0 l) (sym (append-nil printed))
  print_rows-prints (row ∷ rows) printed =
      print_rows-prints rows (printed ++ P.dumps row ∷ [])
      ∙ ap (λ l. returned 0 l) (append_assoc printed (P.dumps row ∷ []) (map P.dumps rows))

  dump_rows-snoc :
      (path : Text) (rows : List Value) (last : Value)
      → dump_rows path (rows ++ last ∷ []) [] ≡ returned 0 (map P.dumps rows ++ P.dumps last ∷ [])
  dump_rows-snoc path [] last = refl
  dump_rows-snoc path (row ∷ rows) last =
      print_rows-prints (row ∷ rows ++ last ∷ []) []
      ∙ ap (λ l. returned 0 l) (map-append P.dumps (row ∷ rows) (last ∷ []))

  -- After `append` has written an entry that JSON puts on one line to a log of complete lines,
  -- `dump-log` exits with 0 and prints the rows that the log had before and, last, the very line that
  -- was added to the file.
  pub cmd_dump_log-append :
      (path : Text) (entry : Fields) (file file' : TextFile)
      → IsComplete (contents file)
      → PlainLine P (dict (record_of P entry file))
      → append P entry file ≡ returned tt file'
      → (line : Text) × (cmd_dump_log path file' []
          ≡ returned 0 (map P.dumps (read_all P file) ++ line ∷ []))
        × (file' ≡ some (contents file ++ (line ++ 10 ∷ [])))
  unfolding cmd_dump_log append
  cmd_dump_log-append path entry file file' whole plain written =
      let (reads, _) = read_all-append P entry file file' whole plain written in
      let last = dict (record_of P entry file) in
      (
        P.dumps last,
        ap (λ rows. dump_rows path rows []) reads ∙ dump_rows-snoc path (read_all P file) last,
        append_line-returned (P.dumps last) file file' written,
      )
