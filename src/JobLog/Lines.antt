-- ===== src/JobLog/Lines.antt =====
-- Lines of a file: what `str.splitlines` makes of a text to which a line was appended.
use mathlib.Core.List.{reverse, reverse-cons, append_assoc, append-nil}
use lustro_node_agent.Base.{
  ℕ, ◌≡◌, refl, ap, ◌∙◌, Bool, true, false, [], ◌∷◌, ◌++◌, arith, ◌||◌, ◌==◌, ◌⊎◌, inl, inr,
}
use lustro_node_agent.Base.Text.{Text, is_break, lines_from, splitlines}

abbrev has_break : Text → Bool
has_break [] = false
has_break (c ∷ t) = is_break c || has_break t

-- No code point of the text is a line separator.
abbrev pub NoBreaks : Text → Type 0
NoBreaks t = has_break t ≡ false

||-eq-false : (a b : Bool) → (a || b) ≡ false → (a ≡ false) × (b ≡ false)
||-eq-false a b h = ground arith

-- Every line of the text is ended by \n.
abbrev pub IsComplete : Text → Type 0
IsComplete t = (t ≡ []) ⊎ ((before : Text) × (t ≡ before ++ 10 ∷ []))

lines_from-append :
    (cr : Bool) (now before rest : Text)
    → lines_from cr now (before ++ 10 ∷ rest)
      ≡ lines_from cr now (before ++ 10 ∷ []) ++ lines_from false [] rest
unfolding lines_from
lines_from-append true now [] rest = refl
lines_from-append false now [] rest = refl
lines_from-append cr now (c ∷ before) rest = ground (
  arith,
  lines_from-append false (c ∷ now) before rest,
  lines_from-append (c == 13) [] before rest,
  lines_from-append false [] before rest,
)

pub splitlines-append :
    (t rest : Text) → IsComplete t → splitlines (t ++ rest) ≡ splitlines t ++ splitlines rest
unfolding splitlines
splitlines-append t rest (inl empty) = rw empty
splitlines-append t rest (inr (before, ends)) =
    rw ends (rw append_assoc (lines_from-append false [] before rest))

-- A separator other than \r ends the line that was being read.
lines_from-break :
    (now a rest : Text) (c : ℕ)
    → NoBreaks a
    → is_break c ≡ true
    → (c == 13) ≡ false
    → lines_from false now (a ++ c ∷ rest) ≡ (reverse now ++ a) ∷ lines_from false [] rest
unfolding lines_from
lines_from-break now [] rest c plain breaks not_cr = rw breaks (rw (not_cr, append-nil))
lines_from-break now (x ∷ a) rest c none_break breaks not_cr =
    let (plain, more) = ||-eq-false (is_break x) (has_break a) none_break in
    rw plain (lines_from-break (x ∷ now) a rest c more breaks not_cr ∙ regroup)
  where
    regroup :
        (reverse (x ∷ now) ++ a) ∷ lines_from false [] rest
        ≡ (reverse now ++ x ∷ a) ∷ lines_from false [] rest
    regroup = rw (reverse-cons, append_assoc)

-- A line with no separator inside is one line.
pub splitlines-line : (line : Text) → NoBreaks line → splitlines (line ++ 10 ∷ []) ≡ line ∷ []
unfolding splitlines
splitlines-line line plain = lines_from-break [] line [] 10 plain refl refl

-- A separator inside makes two lines of it.
pub splitlines-broken :
    (a b : Text) (c : ℕ)
    → NoBreaks a
    → NoBreaks b
    → is_break c ≡ true
    → (c == 13) ≡ false
    → splitlines ((a ++ c ∷ b) ++ 10 ∷ []) ≡ a ∷ b ∷ []
unfolding splitlines
splitlines-broken a b c plain_a plain_b breaks not_cr = rw append_assoc (
    lines_from-break [] a (b ++ 10 ∷ []) c plain_a breaks not_cr
    ∙ ap (λ l. a ∷ l) (lines_from-break [] b [] 10 plain_b refl refl))
