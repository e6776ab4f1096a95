-- ===== src/JobLog/Reading.antt =====
-- What `read_all` finds after an `append`, and where it does not find the entry.
use mathlib.Core.List.{filter_map, filter_map-append, append_assoc}
use lustro_node_agent.Base.{
  ℕ, ◌≡◌, refl, ap, sym, ◌∙◌, true, false, [], ◌∷◌, ◌++◌, none, some, arith, ◌==◌, inr,
}
use lustro_node_agent.Base.Text.{Text, is_empty, is_break, strip, splitlines}
use lustro_node_agent.Base.Value.{Value, Fields, dict}
use lustro_node_agent.Base.Exec.{returned}
use lustro_node_agent.Platform.{Platform}
use lustro_node_agent.JobLog.{
  TextFile, contents, append_line, parse_error, record_of, append, parse_line, read_all,
}
use lustro_node_agent.JobLog.Lines.{
  NoBreaks, IsComplete, splitlines-append, splitlines-line, splitlines-broken,
}

module _ (P : Platform) where
  -- The JSON of `v` is one line without spaces round it, and parses back to `v`.
  pub record PlainLine (v : Value) : Type 0 where
    pub one_line : NoBreaks (P.dumps v)
    pub stripped : strip (P.dumps v) ≡ P.dumps v
    pub nonempty : is_empty (P.dumps v) ≡ false
    pub parses : P.loads (P.dumps v) ≡ some v

  -- The JSON of `v` has one separator that `splitlines` knows and JSON does not escape, and neither
  -- part parses.
  pub record BrokenLine (v : Value) : Type 0 where
    pub before : Text
    pub separator : ℕ
    pub after : Text
    pub split : P.dumps v ≡ before ++ separator ∷ after
    pub breaks : is_break separator ≡ true
    pub not_cr : (separator == 13) ≡ false
    pub before_plain : NoBreaks before
    pub after_plain : NoBreaks after
    pub before_kept : is_empty (strip before) ≡ false
    pub after_kept : is_empty (strip after) ≡ false
    pub before_fails : P.loads (strip before) ≡ none
    pub after_fails : P.loads (strip after) ≡ none

pub append_line-returned :
    (line : Text) (file file' : TextFile)
    → append_line line file ≡ returned tt file'
    → file' ≡ some (contents file ++ (line ++ 10 ∷ []))
unfolding append_line
append_line-returned line file file' h = ground arith

pub IsComplete-append : (before line : Text) → IsComplete (before ++ (line ++ 10 ∷ []))
IsComplete-append before line = inr (before ++ line, sym (append_assoc before line (10 ∷ [])))

module _ (P : Platform) where
  read_all-contents :
      (file : TextFile) → read_all P file ≡ filter_map (parse_line P) (splitlines (contents file))
  unfolding read_all filter_map
  read_all-contents none = refl
  read_all-contents (some t) = refl

  parse_line-PlainLine : (v : Value) → PlainLine P v → parse_line P (P.dumps v) ≡ some v
  unfolding parse_line
  parse_line-PlainLine v p = rw (p.stripped, p.nonempty, p.parses)

  append_line-read_all :
      (line : Text) (file file' : TextFile)
      → IsComplete (contents file)
      → append_line line file ≡ returned tt file'
      → (read_all P file'
          ≡ read_all P file ++ filter_map (parse_line P) (splitlines (line ++ 10 ∷ [])))
        × IsComplete (contents file')
  append_line-read_all line file file' whole written =
      let same = append_line-returned line file file' written in
      let old = contents file in
      (
        rw (read_all-contents, same, read_all-contents)
            (rw (splitlines-append old (line ++ 10 ∷ []) whole)
              (filter_map-append (parse_line P) (splitlines old) _)),
        rw same (IsComplete-append old line),
      )

  -- The log of complete lines to which `append` wrote an entry that JSON puts on one line reads back
  -- as what it read before, followed by that entry with its time stamp.
  pub read_all-append :
      (entry : Fields) (file file' : TextFile)
      → IsComplete (contents file)
      → PlainLine P (dict (record_of P entry file))
      → append P entry file ≡ returned tt file'
      → (read_all P file' ≡ read_all P file ++ dict (record_of P entry file) ∷ [])
        × IsComplete (contents file')
  unfolding append filter_map
  read_all-append entry file file' whole plain written =
      let v = dict (record_of P entry file) in
      let (reads, ended) = append_line-read_all (P.dumps v) file file' whole written in
      (
        reads
            ∙ ap (λ l. read_all P file ++ filter_map (parse_line P) l)
                (splitlines-line _ plain.one_line)
            ∙ rw (parse_line-PlainLine v plain),
        ended,
      )

  -- An entry whose JSON holds a separator that is not escaped reads back as two parse errors: the
  -- entry itself is not among the rows.
  pub read_all-append_broken :
      (entry : Fields) (file file' : TextFile)
      → IsComplete (contents file)
      → (b : BrokenLine P (dict (record_of P entry file))) → append P entry file ≡ returned tt file'
      → read_all P file'
        ≡ read_all P file ++ parse_error (strip b.before) ∷ parse_error (strip b.after) ∷ []
  unfolding append filter_map parse_line
  read_all-append_broken entry file file' whole b written =
      let v = dict (record_of P entry file) in
      let (reads, _) = append_line-read_all (P.dumps v) file file' whole written in
      reads
      ∙ ap (λ l. read_all P file ++ filter_map (parse_line P) (splitlines (l ++ 10 ∷ []))) b.split
      ∙ ap (λ l. read_all P file ++ filter_map (parse_line P) l)
          (splitlines-broken b.before b.after b.separator b.before_plain b.after_plain b.breaks
            b.not_cr)
      ∙ rw (b.before_kept, b.before_fails, b.after_kept, b.after_fails)
