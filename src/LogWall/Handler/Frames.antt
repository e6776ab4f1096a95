-- ===== src/LogWall/Handler/Frames.antt =====
-- The frames of a live tail, and what the page's `EventSource` makes of them: it cuts the stream into
-- lines, gathers the `data` fields, and hands a message out at each blank line.
use mathlib.Core.List.{map, filter_map, append_assoc}
use lustro_node_agent.Base.{
  ℕ, ◌-◌, ◌≡◌, refl, ap, ◌∙◌, Bool, false, ◌||◌, Option, none, some, List, [], ◌∷◌, ◌++◌, ◌==◌,
  length, length-append, take, drop, All, if◌then◌else◌, arith,
}
use lustro_node_agent.Base.Text.{Text, Bytes, text, text_eq, utf8}
use lustro_node_agent.Base.Value.{Value}
use lustro_node_agent.Platform.{Platform}
use lustro_node_agent.JobLog.Tail.{first_line, after_line, file_lines, lines_within}
use lustro_node_agent.JobLog.Tail.Delivery.{file_lines-step, delivered, one}
use lustro_node_agent.LogWall.{starts_with}
use lustro_node_agent.LogWall.Handler.{frame_of}

-- One space behind the colon does not belong to the value of a field.
abbrev pub drop_one_space : Text → Text
drop_one_space [] = []
drop_one_space (c ∷ t) = if c == 32 then t else c ∷ t

-- What a line adds to the message. Comments and other fields add nothing.
abbrev pub data_of : Text → Text
data_of l = if starts_with (text "data:") l then drop_one_space (drop 5 l) else []

abbrev pub without_last : Text → Text
without_last t = take (length t - 1) t

abbrev pub dispatch : Text → List Text → List Text
dispatch [] later = later
dispatch (c ∷ message) later = without_last (c ∷ message) ∷ later

-- The messages of the lines, behind what the lines before have gathered. A message that no blank
-- line ends is lost.
pub messages : Text → List Text → List Text
messages message [] = []
messages message (l ∷ ls) =
    let ended = dispatch message (messages [] ls) in
    let more = messages (message ++ data_of l) ls in if text_eq l (10 ∷ []) then ended else more

pub received : Text → List Text
unfolding messages file_lines
received stream = messages [] (file_lines stream)

abbrev has_feed : Text → Bool
has_feed [] = false
has_feed (c ∷ t) = (c == 10 || c == 13) || has_feed t

-- No \n and no \r
abbrev pub NoFeed : Text → Type 0
NoFeed t = has_feed t ≡ false

pub ||-eq-false : (a b : Bool) → (a || b) ≡ false → (a ≡ false) × (b ≡ false)
||-eq-false a b h = ground arith

-- JSON puts the record on one line, and UTF-8 can encode that.
pub record Sendable (P : Platform) (v : Value) : Type 0 where
  pub one_line : NoFeed (P.dumps v)
  pub bytes : Bytes
  pub encoded : utf8 (P.dumps v) ≡ some bytes

line_cut :
    (l rest : Text)
    → NoFeed l
    → (first_line (l ++ 10 ∷ rest) ≡ l ++ 10 ∷ []) × (after_line (l ++ 10 ∷ rest) ≡ rest)
unfolding first_line after_line
line_cut [] rest plain = (refl, refl)
line_cut (c ∷ l) rest plain =
    let (here, behind) = ||-eq-false (c == 10 || c == 13) (has_feed l) plain in
    let (not_lf, not_cr) = ||-eq-false (c == 10) (c == 13) here in
    let (first, after) = line_cut l rest behind in
    (rw (not_lf, not_cr) (ap (λ t. c ∷ t) first), rw (not_lf, not_cr) after)

file_lines-line :
    (l rest : Text) → NoFeed l → file_lines (l ++ 10 ∷ rest) ≡ (l ++ 10 ∷ []) ∷ file_lines rest
unfolding first_line after_line
file_lines-line [] rest plain = file_lines-step 10 rest
file_lines-line (c ∷ l) rest plain =
    let (first, after) = line_cut (c ∷ l) rest plain in
    file_lines-step c (l ++ 10 ∷ rest) ∙ rw (first, after) refl

take-append : (xs ys : Text) → take (length xs) (xs ++ ys) ≡ xs
take-append [] ys = refl
take-append (x ∷ xs) ys = ap (λ l. x ∷ l) (take-append xs ys)

without_last-snoc : (t : Text) (c : ℕ) → without_last (t ++ c ∷ []) ≡ t
without_last-snoc t c =
    let n : length (t ++ c ∷ []) - 1 ≡ length t = omega (arith, length-append t (c ∷ [])) in
    rw n (take-append t (c ∷ []))

dispatch-snoc : (t : Text) (later : List Text) → dispatch (t ++ 10 ∷ []) later ≡ t ∷ later
dispatch-snoc [] later = refl
dispatch-snoc (c ∷ t) later = ap (λ m. m ∷ later) (without_last-snoc (c ∷ t) 10)

module _ (P : Platform) where
  -- The message of a frame
  abbrev pub payload : Option Value → List Text
  payload none = []
  payload (some v) = P.dumps v ∷ []

  unfoldable pub frames : List (Option Value) → Text
  frames [] = []
  frames (y ∷ ys) = frame_of P y ++ frames ys

  idle_lines :
      (rest : Text)
      → file_lines (frame_of P none ++ rest) ≡ text ": keep-alive\n" ∷ text "\n" ∷ file_lines rest
  unfolding frame_of
  idle_lines rest =
      file_lines-line (text ": keep-alive") (10 ∷ rest) refl
      ∙ ap (λ l. text ": keep-alive\n" ∷ l) (file_lines-line [] rest refl)

  data_lines :
      (v : Value) (rest : Text)
      → NoFeed (P.dumps v)
      → file_lines (frame_of P (some v) ++ rest)
        ≡ (text "data: " ++ (P.dumps v ++ 10 ∷ [])) ∷ text "\n" ∷ file_lines rest
  unfolding frame_of
  data_lines v rest plain =
      ap (λ t. file_lines (text "data: " ++ t)) (append_assoc (P.dumps v) (10 ∷ 10 ∷ []) rest)
      ∙ file_lines-line (text "data: " ++ P.dumps v) (10 ∷ rest) plain
      ∙ ap (λ l. (text "data: " ++ (P.dumps v ++ 10 ∷ [])) ∷ l) (file_lines-line [] rest refl)

  received-frame :
      (y : Option Value) (rest : Text)
      → All (Sendable P) (one y)
      → received (frame_of P y ++ rest) ≡ payload y ++ received rest
  unfolding received messages starts_with text_eq
  received-frame none rest fine = ap (messages []) (idle_lines rest)
  received-frame (some v) rest (fine, _) =
      ap (messages []) (data_lines v rest fine.one_line)
      ∙ dispatch-snoc (P.dumps v) (messages [] (file_lines rest))

  -- The messages of a stream of frames are the JSON of its records.
  pub received-frames :
      (ys : List (Option Value))
      → All (Sendable P) (delivered ys)
      → received (frames ys) ≡ map P.dumps (delivered ys)
  unfolding frames received messages file_lines lines_within filter_map
  received-frames [] fine = refl
  received-frames (none ∷ ys) fine = received-frame none (frames ys) tt ∙ received-frames ys fine
  received-frames (some v ∷ ys) (first, fine) =
      received-frame (some v) (frames ys) (first, tt)
      ∙ ap (λ l. P.dumps v ∷ l) (received-frames ys fine)
