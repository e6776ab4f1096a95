-- ===== src/Client/Process/Replay.antt =====
-- Anti-replay: after a work unit was processed, its id is refused, by the same client and by one that
-- was started anew from the file.
use mathlib.Core.Bool.{true≢false}
use lustro_node_agent.Base.{
  ◌<◌, ◌≡◌, refl, ap, sym, subst, ◌∙◌, true, Option, List, arith, length, inl, inr,
}
use lustro_node_agent.Base.Text.{Text}
use lustro_node_agent.Base.Value.{Value, Fields, dict, str, get, is_some}
use lustro_node_agent.Base.Result.{Exn, ok, >>=-eq-ok, ok-injective, Result-cases}
use lustro_node_agent.Base.Exec.{Outcome, returned, raised, final, Outcome-cases}
use lustro_node_agent.Platform.{Platform}
use lustro_node_agent.JobLog.{contents}
use lustro_node_agent.JobLog.Lines.{IsComplete}
use lustro_node_agent.JobLog.Reading.{PlainLine}
use lustro_node_agent.Seen.{
  Seen, ReplayStore, max_seen_entries, is_member, mark, add_known, present, seen, mark_seen,
  seen_record, persist_seen, load_record, load_seen,
}
use lustro_node_agent.Seen.Sets.{mark-is_member, add-is_member}
use lustro_node_agent.Seen.Reload.{load_seen-persist_seen}
use lustro_node_agent.Client.{Http, NodeAgentClient, Node}
use lustro_node_agent.Client.Validate.{valid_wu_id, check_field, validate_fields, as_object}
use lustro_node_agent.Client.Process.{admit, process_wu}
use lustro_node_agent.Client.Process.Admit.{admit-returned, admit-Keeps}
use lustro_node_agent.Client.Process.Processed.{Processed, process_wu-Processed}

valid_wu_id-str : (v : Value) (t : Text) → valid_wu_id v ≡ ok t → v ≡ str t
unfolding valid_wu_id
valid_wu_id-str v t h = ground arith

pub validate_fields-wu_id :
    (wu : Fields) (t : Text) → validate_fields wu ≡ ok t → get "wu_id" wu ≡ str t
unfolding validate_fields
validate_fields-wu_id wu t h =
    let (s, valid, rest) = >>=-eq-ok (valid_wu_id (get "wu_id" wu)) _ h in
    let (_, _, rest₁) = >>=-eq-ok (check_field wu "kind") _ rest in
    let (_, _, rest₂) = >>=-eq-ok (check_field wu "payload") _ rest₁ in
    let (_, _, same) = >>=-eq-ok (check_field wu "core_pubkey_id") _ rest₂ in
    valid_wu_id-str _ s valid ∙ ap str (ok-injective same)

module _ (P : Platform) where
  -- What `_mark_seen` has done when it returns.
  record Marked (wu : Fields) (s r : ReplayStore) : Type 0 where
    ids_marked : mark P (get "wu_id" wu) s.memory.wu_ids ≡ ok r.memory.wu_ids
    nonces_marked : mark P (get "nonce" wu) s.memory.nonces ≡ ok r.memory.nonces
    stored : persist_seen P wu s.file ≡ returned tt r.file

  mark_seen-Marked :
      (wu : Fields) (s r : ReplayStore) → mark_seen P wu s ≡ returned tt r → Marked wu s r
  unfolding mark_seen
  mark_seen-Marked wu s r h = elim (Result-cases (mark P (get "wu_id" wu) s.memory.wu_ids)) [
    | inr (e, bad) ↦ ground arith
    | inl (ids, first) ↦ elim (Result-cases (mark P (get "nonce" wu) s.memory.nonces)) [
      | inr (e, bad) ↦ ground arith
      | inl (nonces, second) ↦ elim (Outcome-cases (persist_seen P wu s.file)) [
        | inr (e, file, bad) ↦ ground arith
        | inl (_, file, stored) ↦ ground arith
      ]
    ]
  ]

  pub seen-of_member :
      (m : Seen) (wu : Fields) (t : Text)
      → get "wu_id" wu ≡ str t
      → is_member P (str t) m.wu_ids ≡ true
      → seen P m wu ≡ ok true
  unfolding seen
  seen-of_member m wu t id found = rw id (rw found)

  get-present :
      (v : Value) (rest : Fields) → is_some v ≡ true → get "wu_id" (present P "wu_id" v rest) ≡ v
  unfolding get
  get-present v rest h = rw h

  get-seen_record :
      (wu : Fields) (t : Text) → get "wu_id" wu ≡ str t → get "wu_id" (seen_record P wu) ≡ str t
  unfolding seen_record
  get-seen_record wu t id = get-present (get "wu_id" wu) _ (rw id) ∙ id

  add_known-is_member :
      (t : Text) (xs ys : List Value)
      → add_known P (str t) xs ≡ ok ys
      → is_member P (str t) ys ≡ true
  unfolding add_known
  add_known-is_member t xs ys h = add-is_member P t xs ys h

  load_record-is_member :
      (q m : Seen) (wu : Fields) (t : Text)
      → get "wu_id" wu ≡ str t
      → load_record P q (dict (seen_record P wu)) ≡ ok m
      → is_member P (str t) m.wu_ids ≡ true
  unfolding load_record
  load_record-is_member q m wu t id h =
      let (ids, first, h₁) =
        >>=-eq-ok (add_known P (get "wu_id" (seen_record P wu)) q.wu_ids) _ h in
      let (nonces, _, last) =
        >>=-eq-ok (add_known P (get "nonce" (seen_record P wu)) q.nonces) _ h₁ in
      rw (← ap (λ (x : Seen). x.wu_ids) (ok-injective last))
        (add_known-is_member t q.wu_ids ids (rw (get-seen_record wu t id) at first))

pub dict-injective : {a b : Fields} → dict a ≡ dict b → a ≡ b
dict-injective h = cc

module _ (P : Platform) (C : NodeAgentClient) where
  -- The call raised, made no request, and left the anti-replay record as it was.
  pub record Refused (wu : Fields) (http : Option Http) (s : Node) : Type 0 where
    pub why : Exn
    pub after : Node
    pub raises : process_wu P C (dict wu) http s ≡ raised why after
    pub sends_nothing : after.sent ≡ s.sent
    pub marks_nothing : after.replay ≡ s.replay

  -- A work unit whose id or nonce is in the record is refused.
  pub process_wu-seen :
      (wu : Fields) (http : Option Http) (s : Node)
      → seen P s.replay.memory wu ≡ ok true
      → Refused wu http s
  unfolding process_wu as_object
  process_wu-seen wu http s known = elim (Outcome-cases (admit P C wu s)) [
    | inl (wu_id, t, admitted) ↦
        absurd (true≢false (ok-injective (sym known ∙ (admit-returned P C wu s admitted).0.fresh)))
    | inr (e, t, stopped) ↦ record {
      why = e;
      after = t;
      raises = rw stopped;
      sends_nothing =
          ap (λ (o : Outcome Node Text). (final o).sent) (sym stopped)
          ∙ (admit-Keeps P C {I = λ x. x.sent ≡ s.sent} (λ x file i. i) wu).at s refl;
      marks_nothing =
          ap (λ (o : Outcome Node Text). (final o).replay) (sym stopped)
          ∙ (admit-Keeps P C {I = λ x. x.replay ≡ s.replay} (λ x file i. i) wu).at s refl;
    }
  ]

  Processed-seen :
      (wu wu' : Fields) (s t : Node) {body : Fields}
      → Processed P C wu s t body
      → length s.replay.memory.wu_ids < max_seen_entries
      → get "wu_id" wu' ≡ get "wu_id" wu
      → seen P t.replay.memory wu' ≡ ok true
  Processed-seen wu wu' s t p room same_id =
      let id = validate_fields-wu_id wu p.wu_id p.admitted.valid in
      let m = mark_seen-Marked P wu s.replay p.replay p.marked in
      let found = mark-is_member P p.wu_id _ _ room (rw id at m.ids_marked) in
      subst (λ (x : ReplayStore). seen P x.memory wu' ≡ ok true) (sym p.delivered.marked)
        (seen-of_member P p.replay.memory wu' p.wu_id (same_id ∙ id) found)

  -- After `process_wu` has returned, below the limit of the record, it refuses every work unit with
  -- the same id, whatever else that holds and over whatever network.
  pub process_wu-replay :
      (wu wu' : Fields) (http http' : Option Http) (s : Node) {body : Fields} {t : Node}
      → process_wu P C (dict wu) http s ≡ returned body t
      → length s.replay.memory.wu_ids < max_seen_entries
      → get "wu_id" wu' ≡ get "wu_id" wu
      → Refused wu' http' t
  process_wu-replay wu wu' http http' s {t} e room same_id =
      let (fields, same, p) = process_wu-Processed P C (dict wu) http s e in
      process_wu-seen wu' http' t
        (Processed-seen fields wu' s t p room (same_id ∙ ap (get "wu_id") (dict-injective same)))

  -- The file is complete again, and every client that loads it has the id.
  pub Processed-stored :
      (wu : Fields) (s t : Node) {body : Fields} (p : Processed P C wu s t body)
      → IsComplete (contents s.replay.file)
      → PlainLine P (dict (seen_record P wu))
      → IsComplete (contents t.replay.file)
        × ((m : Seen)
            → load_seen P t.replay.file ≡ ok m
            → is_member P (str p.wu_id) m.wu_ids ≡ true)
  Processed-stored wu s t p whole plain =
      let id = validate_fields-wu_id wu p.wu_id p.admitted.valid in
      let marked = mark_seen-Marked P wu s.replay p.replay p.marked in
      let (reload, ended) =
        load_seen-persist_seen P wu s.replay.file p.replay.file whole plain (rw id) marked.stored in
      let same_file = ap (λ (x : ReplayStore). load_seen P x.file) p.delivered.marked in
      (
        subst (λ (x : ReplayStore). IsComplete (contents x.file)) (sym p.delivered.marked) ended,
        λ m loaded.
            let (q, _, added) =
              >>=-eq-ok (load_seen P s.replay.file) _ (sym reload ∙ sym same_file ∙ loaded) in
            load_record-is_member P q m wu p.wu_id id added,
      )

  Processed-load_seen :
      (wu wu' : Fields) (s t : Node) {body : Fields} (m : Seen)
      → Processed P C wu s t body
      → IsComplete (contents s.replay.file)
      → PlainLine P (dict (seen_record P wu))
      → load_seen P t.replay.file ≡ ok m
      → get "wu_id" wu' ≡ get "wu_id" wu
      → seen P m wu' ≡ ok true
  Processed-load_seen wu wu' s t m p whole plain loaded same_id =
      let id = validate_fields-wu_id wu p.wu_id p.admitted.valid in
      let (_, stored) = Processed-stored wu s t p whole plain in
      seen-of_member P m wu' p.wu_id (same_id ∙ id) (stored m loaded)

  -- After `process_wu` has returned, from a file of complete lines and where JSON puts the new record
  -- on one line, every client that loads the file anew refuses every work unit with the same id.
  pub process_wu-restart :
      (wu wu' : Fields) (http http' : Option Http) (s u : Node) {body : Fields} {t : Node}
      → process_wu P C (dict wu) http s ≡ returned body t
      → IsComplete (contents s.replay.file)
      → PlainLine P (dict (seen_record P wu))
      → load_seen P t.replay.file ≡ ok u.replay.memory
      → get "wu_id" wu' ≡ get "wu_id" wu
      → Refused wu' http' u
  process_wu-restart wu wu' http http' s u {t} e whole plain loaded same_id =
      let (fields, same, p) = process_wu-Processed P C (dict wu) http s e in
      let known = subst (λ x. PlainLine P (dict (seen_record P x))) (dict-injective same) plain in
      process_wu-seen wu' http' u (
        Processed-load_seen fields wu' s t u.replay.memory p whole known loaded
          (same_id ∙ ap (get "wu_id") (dict-injective same)))
