-- ===== src/Seen/Reload.antt =====
-- What a new client loads from the file that `_persist_seen` wrote.
use lustro_node_agent.Base.{
  ◌≡◌, refl, ap, sym, ◌∙◌, Bool, true, false, List, [], ◌∷◌, ◌++◌, none, some, ◌||◌, if◌then◌else◌,
}
use lustro_node_agent.Base.Text.{Text, splitlines}
use lustro_node_agent.Base.Value.{Value, Fields, dict, get, is_some}
use lustro_node_agent.Base.Result.{ok, ◌>>=◌, >>=-regroup, >>=-congr, >>=-ok}
use lustro_node_agent.Base.Exec.{returned}
use lustro_node_agent.Platform.{Platform}
use lustro_node_agent.JobLog.{TextFile, contents, append_line}
use lustro_node_agent.JobLog.Lines.{
  IsComplete, splitlines-append, splitlines-line, splitlines-broken,
}
use lustro_node_agent.JobLog.Reading.{
  PlainLine, BrokenLine, append_line-returned, IsComplete-append,
}
use lustro_node_agent.Seen.{
  Seen, nothing_seen, load_record, load_lines, load_seen, seen_record, persist_seen,
}

if_or {ℓ} : {A : Type ℓ} (a b : Bool) (x y : A) → a ≡ true → (if a || b then x else y) ≡ x
if_or true b x y h = refl
if_or false b x y h = cc

module _ (P : Platform) where
  pub load_lines-append :
      (s : Seen) (xs ys : List Text)
      → load_lines P s (xs ++ ys) ≡ (load_lines P s xs >>= λ t. load_lines P t ys)
  unfolding load_lines
  load_lines-append s [] ys = refl
  load_lines-append s (x ∷ xs) ys =
      >>=-regroup _ (λ t. load_lines P t xs) (λ t. load_lines P t ys)
        (λ t. load_lines P t (xs ++ ys)) (λ t. load_lines-append t xs ys)

  pub load_seen-contents :
      (file : TextFile) → load_seen P file ≡ load_lines P nothing_seen (splitlines (contents file))
  unfolding load_seen
  load_seen-contents none = refl
  load_seen-contents (some t) = refl

  append_line-load_seen :
      (line : Text) (file file' : TextFile)
      → IsComplete (contents file)
      → append_line line file ≡ returned tt file'
      → (load_seen P file'
          ≡ (load_seen P file >>= λ s. load_lines P s (splitlines (line ++ 10 ∷ []))))
        × IsComplete (contents file')
  append_line-load_seen line file file' whole written =
      let same = append_line-returned line file file' written in
      let old = contents file in
      (
        rw (load_seen-contents, same, load_seen-contents)
            (rw (splitlines-append old (line ++ 10 ∷ []) whole)
              (load_lines-append nothing_seen (splitlines old) _)),
        rw same (IsComplete-append old line),
      )

  persist_seen-append_line :
      (wu : Fields) (file file' : TextFile)
      → is_some (get "wu_id" wu) ≡ true
      → persist_seen P wu file ≡ returned tt file'
      → append_line (P.dumps (dict (seen_record P wu))) file ≡ returned tt file'
  unfolding persist_seen
  persist_seen-append_line wu file file' named written =
      sym (if_or (is_some (get "wu_id" wu)) _ _ _ named) ∙ written

  load_lines-plain :
      (s : Seen) (v : Value) → PlainLine P v → load_lines P s (P.dumps v ∷ []) ≡ load_record P s v
  unfolding load_lines
  load_lines-plain s v p = rw (p.stripped, p.nonempty, p.parses) (>>=-ok (load_record P s v))

  load_lines-broken :
      (s : Seen) {v : Value} (b : BrokenLine P v) → load_lines P s (b.before ∷ b.after ∷ []) ≡ ok s
  unfolding load_lines
  load_lines-broken s b = rw (b.before_kept, b.before_fails, b.after_kept, b.after_fails)

  -- When a record with an id, which JSON puts on one line, was written to a file of complete lines, a
  -- new client loads what it would have loaded before, and then that record; the file is complete.
  pub load_seen-persist_seen :
      (wu : Fields) (file file' : TextFile)
      → IsComplete (contents file)
      → PlainLine P (dict (seen_record P wu))
      → is_some (get "wu_id" wu) ≡ true
      → persist_seen P wu file ≡ returned tt file'
      → (load_seen P file' ≡ (load_seen P file >>= λ s. load_record P s (dict (seen_record P wu))))
        × IsComplete (contents file')
  load_seen-persist_seen wu file file' whole plain named written =
      let line = P.dumps (dict (seen_record P wu)) in
      let (loads, ended) =
        append_line-load_seen line file file' whole
          (persist_seen-append_line wu file file' named written) in
      (
        loads
            ∙ >>=-congr (load_seen P file) _ _ λ s.
              ap (load_lines P s) (splitlines-line line plain.one_line)
              ∙ load_lines-plain s (dict (seen_record P wu)) plain,
        ended,
      )

  -- A record with an id whose JSON holds a separator that is not escaped, written to a file of
  -- complete lines, is forgotten: a new client loads what it would have loaded without the write.
  pub load_seen-persist_seen_broken :
      (wu : Fields) (file file' : TextFile)
      → IsComplete (contents file)
      → BrokenLine P (dict (seen_record P wu))
      → is_some (get "wu_id" wu) ≡ true
      → persist_seen P wu file ≡ returned tt file'
      → load_seen P file' ≡ load_seen P file
  load_seen-persist_seen_broken wu file file' whole b named written =
      let line = P.dumps (dict (seen_record P wu)) in
      let (loads, _) =
        append_line-load_seen line file file' whole
          (persist_seen-append_line wu file file' named written) in
      loads
      ∙ >>=-congr (load_seen P file) _ ok (λ s.
        ap (λ l. load_lines P s (splitlines (l ++ 10 ∷ []))) b.split
        ∙ ap (load_lines P s) (
            splitlines-broken b.before b.after b.separator b.before_plain b.after_plain b.breaks
              b.not_cr)
        ∙ load_lines-broken s b)
      ∙ >>=-ok (load_seen P file)
