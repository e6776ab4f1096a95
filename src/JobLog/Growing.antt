-- ===== src/JobLog/Growing.antt =====
-- A text file to which lines are appended only grows.
use mathlib.Core.List.{append_assoc}
use lustro_node_agent.Base.{
  ◌≡◌, ◌⊎◌, refl, sym, ap, ◌∙◌, some, ◌∷◌, [], ◌++◌, arith, inl, inr, Option-cases, subst,
}
use lustro_node_agent.Base.Text.{Text, utf8}
use lustro_node_agent.Base.Exec.{final}
use lustro_node_agent.JobLog.{TextFile, contents, append_line}
use lustro_node_agent.JobLog.Lines.{IsComplete}
use lustro_node_agent.JobLog.Reading.{IsComplete-append}

-- `t` is `s` with more behind it.
abbrev pub Extends : Text → Text → Type 0
Extends s t = (more : Text) × (t ≡ s ++ more)

pub Extends-trans : (s t u : Text) → Extends s t → Extends t u → Extends s u
Extends-trans s t u (a, first) (b, second) =
    (a ++ b, second ∙ ap (λ (x : Text). x ++ b) first ∙ append_assoc s a b)

-- A file of complete lines, behind what was there.
abbrev pub GrownFrom : Text → TextFile → Type 0
GrownFrom s file = Extends s (contents file) × IsComplete (contents file)

append_line-final :
    (line : Text) (file : TextFile)
    → (final (append_line line file) ≡ some (contents file))
      ⊎ (final (append_line line file) ≡ some (contents file ++ (line ++ 10 ∷ [])))
unfolding append_line
append_line-final line file = elim (Option-cases (utf8 line)) [
  | inl unencodable ↦ inl (ground arith)
  | inr (_, encoded) ↦ inr (ground arith)
]

pub append_line-GrownFrom :
    (s line : Text) (file : TextFile)
    → GrownFrom s file
    → GrownFrom s (final (append_line line file))
append_line-GrownFrom s line file (grown, whole) = elim (append_line-final line file) [
  | inl same ↦ subst (GrownFrom s) (sym same) (grown, whole)
  | inr longer ↦ subst (GrownFrom s) (sym longer) (
    Extends-trans s (contents file) _ grown (line ++ 10 ∷ [], refl),
    IsComplete-append (contents file) line,
  )
]
