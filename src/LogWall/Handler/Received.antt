-- ===== src/LogWall/Handler/Received.antt =====
-- What a client of the live tail receives.
use mathlib.Core.List.{map, filter_map, append_assoc, append-nil}
use lustro_node_agent.Base.{
  ℕ, suc, ◌+◌, ◌≤◌, ◌≡◌, inl, inr, refl, sym, ap, subst, ◌∙◌, true, Option, none, some, List, [],
  ◌∷◌, ◌++◌, length, take, All, arith, Option-cases,
}
use lustro_node_agent.Base.Text.{Text, Bytes, text, utf8, utf8_char, concat_bytes}
use lustro_node_agent.Base.Value.{Value}
use lustro_node_agent.Base.Exec.{Outcome, returned, raised, continue, final}
use lustro_node_agent.Platform.{Platform}
use lustro_node_agent.JobLog.{TextFile}
use lustro_node_agent.JobLog.Tail.{Event, iter_lines, records_of, contents_from}
use lustro_node_agent.JobLog.Tail.Delivery.{added, AppendsLines, rounds, delivered, one}
use lustro_node_agent.JobLog.Tail.Following.{iter_lines-delivers}
use lustro_node_agent.LogWall.Live.{Wall, enter_tail}
use lustro_node_agent.LogWall.Handler.{
  HttpServer, Connection, frame_of, write_frames, write_frame, events_head, end_stream, serve_tail,
  serve_events,
}
use lustro_node_agent.LogWall.Handler.Frames.{Sendable, received, frames, received-frames}

concat_bytes-some :
    (o p : Option Bytes) {a : Bytes}
    → concat_bytes o p ≡ some a
    → (u : Bytes) × (v : Bytes) × (o ≡ some u) × (p ≡ some v)
concat_bytes-some (some u) (some v) h = (u, v, refl, refl)
concat_bytes-some (some u) none h = cc
concat_bytes-some none p h = cc

utf8-append :
    (s t : Text) {a b : Bytes}
    → utf8 s ≡ some a
    → utf8 t ≡ some b
    → (c : Bytes) × (utf8 (s ++ t) ≡ some c)
unfolding utf8
utf8-append [] t {b} h k = (b, k)
utf8-append (x ∷ s) t h k =
    let (u, v, first, behind) = concat_bytes-some (utf8_char x) (utf8 s) h in
    let (c, whole) = utf8-append s t behind k in (u ++ c, rw (first, whole) refl)

module _ (P : Platform) (S : HttpServer) where
  -- No write fails.
  abbrev pub IsOpen : Type 0
  IsOpen = (before t : Text) → S.fails before t ≡ none

  frame_of-utf8 :
      (y : Option Value) → All (Sendable P) (one y) → (b : Bytes) × (utf8 (frame_of P y) ≡ some b)
  unfolding frame_of utf8
  frame_of-utf8 none fine = (_, refl)
  frame_of-utf8 (some v) (fine, _) =
      let (b, encoded) = utf8-append (P.dumps v) (10 ∷ 10 ∷ []) fine.encoded refl in
      utf8-append (text "data: ") (P.dumps v ++ 10 ∷ 10 ∷ []) refl encoded

  write_frame-returned :
      IsOpen
      → (y : Option Value) (sent : Text) → All (Sendable P) (one y)
      → write_frame P S y sent ≡ returned tt (sent ++ frame_of P y)
  write_frame-returned quiet y sent fine =
      let (b, encoded) = frame_of-utf8 y fine in
      let silent = quiet sent (frame_of P y) in rw encoded (rw silent refl)

  step :
      IsOpen
      → (y : Option Value) (ys : List (Option Value)) (sent : Text) → All (Sendable P) (one y)
      → write_frames P S ys (sent ++ frame_of P y)
        ≡ returned tt ((sent ++ frame_of P y) ++ frames P ys)
      → write_frames P S (y ∷ ys) sent ≡ returned tt (sent ++ frames P (y ∷ ys))
  unfolding write_frames frames
  step quiet y ys sent fine later =
      ap (λ o. continue o (λ _. write_frames P S ys)) (write_frame-returned quiet y sent fine)
      ∙ later
      ∙ ap (λ t. returned tt t) (append_assoc sent (frame_of P y) (frames P ys))

  write_frames-returned :
      IsOpen
      → (ys : List (Option Value)) (sent : Text) → All (Sendable P) (delivered ys)
      → write_frames P S ys sent ≡ returned tt (sent ++ frames P ys)
  unfolding write_frames frames filter_map
  write_frames-returned quiet [] sent fine = ap (λ t. returned tt t) (sym (append-nil sent))
  write_frames-returned quiet (none ∷ ys) sent fine =
      step quiet none ys sent tt (write_frames-returned quiet ys (sent ++ frame_of P none) fine)
  write_frames-returned quiet (some v ∷ ys) sent (first, fine) =
      step quiet (some v) ys sent (first, tt)
        (write_frames-returned quiet ys (sent ++ frame_of P (some v)) fine)

  -- The handler has a permit, and sends its head.
  streams :
      (c : Connection) (file : TextFile) (events : List Event) (left : ℕ)
      → c.wall.permits ≡ suc left
      → S.fails c.sent (events_head P S) ≡ none
      → (w : Wall) × (serve_events P S file events c
          ≡ end_stream P S w
              (write_frames P S (iter_lines P true true file events) (c.sent ++ events_head P S)))
  unfolding serve_events serve_tail enter_tail
  streams c file events left free silent =
      (record c.wall { permits = left; streaming = c.wall.streaming + 1 }, rw silent (rw free refl))

  end_stream-sent :
      (w : Wall) (o : Outcome Text (Unit {0})) → (final (end_stream P S w o)).sent ≡ final o
  unfolding end_stream
  end_stream-sent w (returned _ t) = refl
  end_stream-sent w (raised e t) = ground arith

  nothing_before : (file : TextFile) → contents_from P true file ≡ []
  nothing_before none = refl
  nothing_before (some t) = refl

  delivers :
      (file : TextFile) (events : List Event) (n : ℕ)
      → AppendsLines events
      → length (added events) ≤ n
      → delivered (iter_lines P true true file (events ++ rounds n)) ≡ records_of P (added events)
  delivers file events n lines small =
      let start = nothing_before file in
      iter_lines-delivers P true file events n (inl start) lines (rw start (omega (arith, small)))
      ∙ rw start refl

  -- A client of the live tail that got one of the permits, and to which no write fails: whatever
  -- lines others append meanwhile and however that interleaves with the reading, once the loop has
  -- gone a round for every code point of them, the client has received the head of the response and
  -- behind it a stream of which an `EventSource` makes, as its messages, the JSON of every record
  -- that was appended, once and in order, and nothing else. The JSON of each record is on one line.
  pub serve_events-receives :
      (c : Connection) (file : TextFile) (events : List Event) (n left : ℕ)
      → c.wall.permits ≡ suc left
      → IsOpen
      → AppendsLines events
      → length (added events) ≤ n
      → All (Sendable P) (records_of P (added events))
      → (body : Text) × ((final (serve_events P S file (events ++ rounds n) c)).sent
          ≡ (c.sent ++ events_head P S) ++ body)
        × (received body ≡ map P.dumps (records_of P (added events)))
  serve_events-receives c file events n left free quiet lines small fine =
      let ys = iter_lines P true true file (events ++ rounds n) in
      let (w, run) =
        streams c file (events ++ rounds n) left free (quiet c.sent (events_head P S)) in
      let all = delivers file events n lines small in
      let fine_ys = subst (All (Sendable P)) (sym all) fine in
      let sent = c.sent ++ events_head P S in
      (
        frames P ys,
        ap (λ (o : Outcome Connection (Unit {0})). (final o).sent) run
            ∙ end_stream-sent w (write_frames P S ys sent)
            ∙ ap final (write_frames-returned quiet ys sent fine_ys),
        received-frames P ys fine_ys ∙ ap (map P.dumps) all,
      )

  -- Whatever write fails and whatever record cannot be encoded: what the stream holds are the frames
  -- of the first yields, each of them whole.
  pub write_frames-take :
      (ys : List (Option Value)) (sent : Text)
      → (n : ℕ) × (final (write_frames P S ys sent) ≡ sent ++ frames P (take n ys))
  unfolding write_frames frames
  write_frames-take [] sent = (0, sym (append-nil sent))
  write_frames-take (y ∷ ys) sent = elim (Option-cases (utf8 (frame_of P y))) [
    | inl unencodable ↦ (0, rw unencodable (sym (append-nil sent)))
    | inr (b, encoded) ↦ elim (Option-cases (S.fails sent (frame_of P y))) [
      | inl works ↦
          let (n, same) = write_frames-take ys (sent ++ frame_of P y) in
          (
            suc n,
            rw encoded (rw works (same ∙ append_assoc sent (frame_of P y) (frames P (take n ys)))),
          )
      | inr (e, closed) ↦ (0, rw encoded (rw closed (sym (append-nil sent))))
    ]
  ]
