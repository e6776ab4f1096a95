-- ===== src/Seen/Lasting.antt =====
-- What was loaded from a file is loaded from every file that begins with it.
use lustro_node_agent.Base.{
  ◌≡◌, sym, ap, ◌∙◌, true, Bool-cases, Option-cases, inl, inr, List, [], ◌∷◌, ◌++◌,
}
use lustro_node_agent.Base.Text.{Text, strip, splitlines, is_empty}
use lustro_node_agent.Base.Value.{Value, dict, get, is_some}
use lustro_node_agent.Base.Result.{ok, >>=-eq-ok, ok-injective}
use lustro_node_agent.Platform.{Platform}
use lustro_node_agent.JobLog.{TextFile, contents}
use lustro_node_agent.JobLog.Lines.{IsComplete, splitlines-append}
use lustro_node_agent.JobLog.Growing.{Extends}
use lustro_node_agent.Seen.{
  Seen, nothing_seen, is_member, add_known, load_record, load_stripped, load_lines, load_seen,
}
use lustro_node_agent.Seen.Sets.{add-keeps}
use lustro_node_agent.Seen.Reload.{load_lines-append, load_seen-contents}

module _ (P : Platform) (w : Value) where
  add_known-keeps :
      (v : Value) (xs ys : List Value)
      → add_known P v xs ≡ ok ys
      → is_member P w xs ≡ true
      → is_member P w ys ≡ true
  unfolding add_known
  add_known-keeps v xs ys h m = elim (Bool-cases (is_some v)) [
    | inl here ↦ add-keeps P v w xs ys (rw here at h) m
    | inr missing ↦ let same : xs ≡ ys = ok-injective (rw missing at h) in rw (← same) m
  ]

  load_record-keeps :
      (s t : Seen) (v : Value)
      → load_record P s v ≡ ok t
      → is_member P w s.wu_ids ≡ true
      → is_member P w t.wu_ids ≡ true
  unfolding load_record
  load_record-keeps s t (dict rec) h m =
      let (ids, first, h₁) = >>=-eq-ok (add_known P (get "wu_id" rec) s.wu_ids) _ h in
      let (nonces, _, last) = >>=-eq-ok (add_known P (get "nonce" rec) s.nonces) _ h₁ in
      rw (← ap (λ (x : Seen). x.wu_ids) (ok-injective last))
        (add_known-keeps (get "wu_id" rec) s.wu_ids ids first m)
  load_record-keeps s t _ h m = rw (← ap (λ (x : Seen). x.wu_ids) (ok-injective h)) m

  load_stripped-keeps :
      (s t : Seen) (line : Text)
      → load_stripped P s line ≡ ok t
      → is_member P w s.wu_ids ≡ true
      → is_member P w t.wu_ids ≡ true
  load_stripped-keeps s t line h m = elim (Bool-cases (is_empty line)) [
    | inl blank ↦
        let same : ok s ≡ ok t = rw blank at h in
        rw (← ap (λ (x : Seen). x.wu_ids) (ok-injective same)) m
    | inr full ↦ elim (Option-cases (P.loads line)) [
      | inl malformed ↦
          let same : ok s ≡ ok t = rw (full, malformed) at h in
          rw (← ap (λ (x : Seen). x.wu_ids) (ok-injective same)) m
      | inr (v, parsed) ↦ load_record-keeps s t v (rw (full, parsed) at h) m
    ]
  ]

  load_lines-keeps :
      (s t : Seen) (lines : List Text)
      → load_lines P s lines ≡ ok t
      → is_member P w s.wu_ids ≡ true
      → is_member P w t.wu_ids ≡ true
  unfolding load_lines
  load_lines-keeps s t [] h m = rw (← ap (λ (x : Seen). x.wu_ids) (ok-injective h)) m
  load_lines-keeps s t (line ∷ lines) h m =
      let (r, first, rest) = >>=-eq-ok (load_stripped P s (strip line)) _ h in
      load_lines-keeps r t lines rest (load_stripped-keeps s r (strip line) first m)

  -- If every set that a file of complete lines gives holds an id, then so does every set that a longer
  -- file gives.
  pub load_seen-Extends :
      (file file' : TextFile) (m : Seen)
      → IsComplete (contents file)
      → Extends (contents file) (contents file')
      → load_seen P file' ≡ ok m
      → ((q : Seen) → load_seen P file ≡ ok q → is_member P w q.wu_ids ≡ true)
      → is_member P w m.wu_ids ≡ true
  load_seen-Extends file file' m whole (more, longer) loaded holds =
      let lines : splitlines (contents file') ≡ splitlines (contents file) ++ splitlines more =
        ap splitlines longer ∙ splitlines-append (contents file) more whole in
      let split = load_lines-append P nothing_seen (splitlines (contents file)) (splitlines more) in
      let all : load_lines P nothing_seen (splitlines (contents file) ++ splitlines more) ≡ ok m =
        ap (load_lines P nothing_seen) (sym lines) ∙ sym (load_seen-contents P file') ∙ loaded in
      let (q, first, rest) =
        >>=-eq-ok (load_lines P nothing_seen (splitlines (contents file))) _ (sym split ∙ all) in
      load_lines-keeps q m (splitlines more) rest (holds q (load_seen-contents P file ∙ first))
