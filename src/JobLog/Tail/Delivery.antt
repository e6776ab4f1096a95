-- ===== src/JobLog/Tail/Delivery.antt =====
-- A follower gets every record once and in order, however its reads and the appends interleave.
use mathlib.Core.List.{filter_map, append_assoc, append-nil}
use lustro_node_agent.Base.{
  ℕ, zero, suc, ◌-◌, ◌≤◌, ◌≡◌, inl, inr, refl, sym, ap, ◌∙◌, subst, Option, none, some, List, [],
  ◌∷◌, ◌++◌, ◌==◌, length, arith, Bool-cases, Option-cases,
}
use lustro_node_agent.Base.Text.{Text}
use lustro_node_agent.Base.Value.{Value}
use lustro_node_agent.Platform.{Platform}
use lustro_node_agent.JobLog.{parse_line}
use lustro_node_agent.JobLog.Lines.{IsComplete}
use lustro_node_agent.JobLog.Tail.{
  first_line, after_line, lines_within, file_lines, Event, appended, polled, follow_from,
  records_of, yield_record, skip_feed,
}

-- A line is taken off.
length-skip_feed : (t : Text) → length (skip_feed t) ≤ length t
length-skip_feed [] = omega arith
length-skip_feed (c ∷ t) = ground arith

length-after : (t : Text) → length (after_line t) ≤ length t - 1
unfolding after_line
length-after [] = omega arith
length-after (c ∷ t) = elim (Bool-cases (c == 10)) [
  | inl feed ↦ rw feed (omega arith)
  | inr other ↦ elim (Bool-cases (c == 13)) [
    | inl return ↦ rw (other, return) (omega (arith, length-skip_feed t))
    | inr inner ↦ rw (other, inner) (omega (arith, length-after t))
  ]
]

pub length-after_line : (c : ℕ) (t : Text) → length (after_line (c ∷ t)) ≤ length t
length-after_line c t = omega (arith, length-after (c ∷ t))

-- The number of lines that is allowed does not matter, if it is that of the code points.
lines_within-enough :
    (n m : ℕ) (t : Text) → length t ≤ n → length t ≤ m → lines_within n t ≡ lines_within m t
unfolding lines_within
lines_within-enough zero zero t small small' = refl
lines_within-enough zero (suc m) [] small small' = refl
lines_within-enough zero (suc m) (c ∷ t) small small' = absurd (omega (arith, small))
lines_within-enough (suc n) zero [] small small' = refl
lines_within-enough (suc n) zero (c ∷ t) small small' = absurd (omega (arith, small'))
lines_within-enough (suc n) (suc m) [] small small' = refl
lines_within-enough (suc n) (suc m) (c ∷ t) small small' =
    let shorter = length-after_line c t in
    ap (λ l. first_line (c ∷ t) ∷ l)
      (lines_within-enough n m (after_line (c ∷ t)) (omega (arith, shorter, small))
        (omega (arith, shorter, small')))

pub file_lines-step :
    (c : ℕ) (t : Text) → file_lines (c ∷ t) ≡ first_line (c ∷ t) ∷ file_lines (after_line (c ∷ t))
unfolding file_lines lines_within
file_lines-step c t =
    ap (λ l. first_line (c ∷ t) ∷ l)
      (lines_within-enough (length t) (length (after_line (c ∷ t))) (after_line (c ∷ t))
        (length-after_line c t) (omega arith))

-- The first line of a text of complete lines is the same with more behind the text.
record Cut (u v : Text) : Type 0 where
  pub rest : Text
  pub whole : IsComplete rest
  pub left : after_line u ≡ rest
  pub left_more : after_line (u ++ v) ≡ rest ++ v
  pub same : first_line (u ++ v) ≡ first_line u

-- After a \r
record Skipped (u v : Text) : Type 0 where
  pub rest : Text
  pub whole : IsComplete rest
  pub left : skip_feed u ≡ rest
  pub left_more : skip_feed (u ++ v) ≡ rest ++ v

skipped : (before v : Text) → Skipped (before ++ 10 ∷ []) v
skipped [] v = record { rest = []; whole = inl refl; left = refl; left_more = refl }
skipped (c ∷ before) v = elim (Bool-cases (c == 10)) [
  | inl feed ↦ record {
    rest = before ++ 10 ∷ [];
    whole = inr (before, refl);
    left = rw feed refl;
    left_more = rw feed refl;
  }
  | inr other ↦ record {
    rest = c ∷ before ++ 10 ∷ [];
    whole = inr (c ∷ before, refl);
    left = rw other refl;
    left_more = rw other refl;
  }
]

Cut-append : (before v : Text) → Cut (before ++ 10 ∷ []) v
unfolding first_line after_line
Cut-append [] v = record { rest = []; whole = inl refl; left = refl; left_more = refl; same = refl }
Cut-append (c ∷ before) v = elim (Bool-cases (c == 10)) [
  | inl feed ↦ record {
    rest = before ++ 10 ∷ [];
    whole = inr (before, refl);
    left = rw feed refl;
    left_more = rw feed refl;
    same = rw feed refl;
  }
  | inr other ↦ elim (Bool-cases (c == 13)) [
    | inl return ↦
        let s = skipped before v in
        record {
          rest = s.rest;
          whole = s.whole;
          left = rw (other, return) s.left;
          left_more = rw (other, return) s.left_more;
          same = rw (other, return) refl;
        }
    | inr inner ↦
        let k = Cut-append before v in
        record {
          rest = k.rest;
          whole = k.whole;
          left = rw (other, inner) k.left;
          left_more = rw (other, inner) k.left_more;
          same = rw (other, inner) (ap (λ l. c ∷ l) k.same);
        }
  ]
]

-- All that others append, in order
abbrev pub added : List Event → Text
added [] = []
added (appended t ∷ events) = t ++ added events
added (polled ∷ events) = added events

-- What is appended is made of complete lines.
abbrev pub AppendsLines : List Event → Type 0
AppendsLines [] = Unit
AppendsLines (appended t ∷ events) = IsComplete t × AppendsLines events
AppendsLines (polled ∷ events) = AppendsLines events

-- The rounds of a loop to which nothing is added
abbrev pub rounds : ℕ → List Event
rounds zero = []
rounds (suc n) = polled ∷ rounds n

-- What was yielded, without the `None` of an idle log
abbrev pub delivered : List (Option Value) → List Value
delivered yields = filter_map (λ y. y) yields

Cut-cons : (c : ℕ) (t v : Text) → IsComplete (c ∷ t) → Cut (c ∷ t) v
Cut-cons c t v (inl empty) = cc
Cut-cons c t v (inr (before, same)) = subst (λ u. Cut u v) (sym same) (Cut-append before v)

whole_rest : (c : ℕ) (t : Text) → IsComplete (c ∷ t) → IsComplete (after_line (c ∷ t))
whole_rest c t whole = let k = Cut-cons c t [] whole in subst IsComplete (sym k.left) k.whole

IsComplete-more : (t u : Text) → IsComplete t → IsComplete u → IsComplete (t ++ u)
IsComplete-more t u whole (inl empty) = rw empty (subst IsComplete (sym (append-nil t)) whole)
IsComplete-more t u whole (inr (before, same)) =
    rw same (inr (t ++ before, sym (append_assoc t before (10 ∷ []))))

abbrev pub one : Option Value → List Value
one none = []
one (some v) = v ∷ []

filter_map-cons :
    (f : Text → Option Value) (l : Text) (ls : List Text)
    → filter_map f (l ∷ ls) ≡ one (f l) ++ filter_map f ls
unfolding filter_map
filter_map-cons f l ls = elim (Option-cases (f l)) [
  | inl blank ↦ rw blank refl
  | inr (v, parsed) ↦ rw parsed refl
]

module _ (P : Platform) where
  delivered-yield_record :
      (o : Option Value) (rest : List (Option Value))
      → delivered (yield_record P o rest) ≡ one o ++ delivered rest
  unfolding filter_map
  delivered-yield_record none rest = refl
  delivered-yield_record (some v) rest = refl

  -- A line of complete ones is a record of its own.
  records_of-step :
      (c : ℕ) (t v : Text)
      → IsComplete (c ∷ t)
      → records_of P (c ∷ t ++ v)
        ≡ one (parse_line P (first_line (c ∷ t))) ++ records_of P (after_line (c ∷ t) ++ v)
  records_of-step c t v whole =
      let k = Cut-cons c t v whole in
      let lines : file_lines (c ∷ t ++ v)
          ≡ first_line (c ∷ t) ∷ file_lines (after_line (c ∷ t) ++ v) =
        file_lines-step c (t ++ v) ∙ rw (k.same, k.left_more, k.left) refl in
      ap (filter_map (parse_line P)) lines ∙ filter_map-cons (parse_line P) _ _

  -- What a follower has not read after the events
  unfoldable pub unread_after : Text → List Event → Text
  unread_after unread [] = unread
  unread_after unread (appended t ∷ events) = unread_after (unread ++ t) events
  unread_after [] (polled ∷ events) = unread_after [] events
  unread_after (c ∷ t) (polled ∷ events) = unread_after (after_line (c ∷ t)) events

  pub delivered-follow_from :
      (unread : Text) (events : List Event)
      → IsComplete unread
      → AppendsLines events
      → records_of P (unread ++ added events)
        ≡ delivered (follow_from P unread events) ++ records_of P (unread_after unread events)
  unfolding follow_from unread_after filter_map
  delivered-follow_from unread [] whole lines = ap (records_of P) (append-nil unread)
  delivered-follow_from unread (appended t ∷ events) whole (first, lines) =
      ap (records_of P) (sym (append_assoc unread t (added events)))
      ∙ delivered-follow_from (unread ++ t) events (IsComplete-more unread t whole first) lines
  delivered-follow_from [] (polled ∷ events) whole lines =
      delivered-follow_from [] events whole lines
  delivered-follow_from (c ∷ t) (polled ∷ events) whole lines =
      let rest = after_line (c ∷ t) in
      let line = parse_line P (first_line (c ∷ t)) in
      records_of-step c t (added events) whole
      ∙ ap (λ l. one line ++ l) (delivered-follow_from rest events (whole_rest c t whole) lines)
      ∙ sym (append_assoc (one line) _ _)
      ∙ ap (λ l. l ++ records_of P (unread_after rest events))
          (sym (delivered-yield_record line (follow_from P rest events)))
