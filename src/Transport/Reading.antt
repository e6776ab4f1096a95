-- ===== src/Transport/Reading.antt =====
-- What comes through `FetchBackend`: within the limit, the same by both ways of reading, and no
-- exception but its own.
use mathlib.Core.List.{append_assoc, append-nil}
use lustro_node_agent.Base.{
  ◌+◌, ◌≤◌, ◌≡◌, ◌⊎◌, refl, sym, ap, ◌∙◌, true, false, not, Bool, Bool-cases, Option, none, some,
  List, [], ◌∷◌, ◌++◌, inl, inr, arith, ltb, length, not-ltb→le, le→not-ltb, ◌≢◌, Option-cases,
  length-append,
}
use lustro_node_agent.Base.Text.{Text, Bytes, utf8, is_empty}
use lustro_node_agent.Base.Result.{
  Exn, Result, ok, err, or_raise, guard-eq-ok, transport_error, type_error, >>=-eq-ok, ok-injective,
}
use lustro_node_agent.Platform.{Platform}
use lustro_node_agent.Client.{Request, Response, answered, failed}
use lustro_node_agent.Client.Pull.{
  read_chunks, parse_wu, streamed_wu, buffered_wu, max_wu_response_bytes,
}
use lustro_node_agent.Client.Pull.Bounds.{joined}
use lustro_node_agent.Transport.{
  JsResponse, Fetched, arrived, rejected, FetchResponse, max_response_bytes, validate_body_size,
  read_response, settle_fetch, fetch, iter_bytes, iter_reader, as_response, reply_of, request_body,
  fetch_reply,
}

-- A response that was read: its text has a UTF-8 encoding within the limit.
pub record Fits (t : Text) : Type 0 where
  pub encoded : Bytes
  pub encodes : utf8 t ≡ some encoded
  pub short : length encoded ≤ max_response_bytes

or_raise-some : {A : Type 0} (o : Option A) (e : Exn) (a : A) → or_raise o e ≡ ok a → o ≡ some a
or_raise-some o e a h = ground arith

not-true : (b : Bool) → not b ≡ true → b ≡ false
not-true b h = ground arith

read_response-Fits : (r : JsResponse) (f : FetchResponse) → read_response r ≡ ok f → Fits f.text
unfolding read_response
read_response-Fits r f h =
    let (_, h₁) = guard-eq-ok (not r.redirected) transport_error _ h in
    let (t, _, h₂) = >>=-eq-ok (or_raise r.text transport_error) _ h₁ in
    let (b, encoded, h₃) = >>=-eq-ok (or_raise (utf8 t) transport_error) _ h₂ in
    let (small, same) =
      guard-eq-ok (not (ltb max_response_bytes (length b))) transport_error _ h₃ in
    record {
      encoded = b;
      encodes = rw (← ok-injective same) (or_raise-some (utf8 t) transport_error b encoded);
      short = not-ltb→le max_response_bytes (length b) (not-true _ small);
    }

settle_fetch-Fits :
    (answer : Fetched) (f : FetchResponse) → settle_fetch answer ≡ ok f → Fits f.text
unfolding settle_fetch
settle_fetch-Fits (arrived r) f h = read_response-Fits r f h
settle_fetch-Fits rejected f h = cc

fetch-Fits :
    (body : Option Text) (answer : Fetched) (f : FetchResponse)
    → fetch body answer ≡ ok f
    → Fits f.text
unfolding fetch
fetch-Fits body answer f h =
    let (_, _, h₁) = >>=-eq-ok (validate_body_size body) _ h in settle_fetch-Fits answer f h₁

fetch-err :
    (body : Option Text) (answer : Fetched) (e : Exn)
    → fetch body answer ≡ err e
    → e ≡ transport_error
unfolding fetch settle_fetch validate_body_size read_response
fetch-err body answer e h = ground arith

iter_bytes-Fits :
    (t : Text) (f : Fits t) → iter_bytes t ≡ record { yielded = f.encoded ∷ []; fault = none }
unfolding iter_bytes
iter_bytes-Fits t f = ground (arith, le→not-ltb max_response_bytes (length f.encoded) f.short)

-- The chunks of such a response are one: the whole encoding.
read_chunks-Fits :
    (t : Text) (f : Fits t)
    → read_chunks [] (iter_bytes t).yielded (iter_bytes t).fault ≡ ok f.encoded
unfolding read_chunks
read_chunks-Fits t f =
    let fits = le→not-ltb max_wu_response_bytes (0 + length f.encoded) (omega (arith, f.short)) in
    rw (iter_bytes-Fits t f) (rw fits refl)

answered-injective : {a b : Response} → answered a ≡ answered b → a ≡ b
answered-injective h = cc

module _ (P : Platform) where
  reply_of-Fits :
      (f : Result FetchResponse) (r : Response)
      → reply_of P f ≡ answered r
      → (g : FetchResponse) × (f ≡ ok g) × (r ≡ as_response P g)
  unfolding reply_of
  reply_of-Fits (ok g) r h = (g, refl, sym (answered-injective h))
  reply_of-Fits (err e) r h = cc

  streamed_wu-Fits :
      (g : FetchResponse) (f : Fits g.text)
      → P.utf8_decode f.encoded ≡ some g.text
      → streamed_wu P (as_response P g) ≡ parse_wu P g.text
  unfolding streamed_wu as_response
  streamed_wu-Fits g f decodes = ground (arith, read_chunks-Fits g.text f)

  buffered_wu-Fits :
      (g : FetchResponse) → Fits g.text → buffered_wu P (as_response P g) ≡ parse_wu P g.text
  unfolding buffered_wu as_response
  buffered_wu-Fits g f = ground (arith, le→not-ltb max_wu_response_bytes (length f.encoded) f.short)

  module _ (network : List Request → Request → Fetched) (past : List Request) (q : Request) where
    fetch_reply-plain :
        q.authorization ≡ none
        → fetch_reply P network past q ≡ reply_of P (fetch (request_body P q) (network past q))
    unfolding fetch_reply
    fetch_reply-plain e = ground arith

    fetch_reply-headers :
        (t : Text) → q.authorization ≡ some t → fetch_reply P network past q ≡ failed type_error
    unfolding fetch_reply
    fetch_reply-headers t e = ground arith

    fetch_reply-Fits :
        (r : Response)
        → fetch_reply P network past q ≡ answered r
        → (g : FetchResponse) × Fits g.text × (r ≡ as_response P g)
    fetch_reply-Fits r h = elim (Option-cases q.authorization) [
      | inr (t, e) ↦ ground (arith, fetch_reply-headers t e)
      | inl e ↦
          let (g, fetched, same) = reply_of-Fits _ r (sym (fetch_reply-plain e) ∙ h) in
          (g, fetch-Fits _ _ g fetched, same)
    ]

    -- Where decoding undoes the encoding of the body, the streamed way of `pull_and_process` reads from
    -- every response of the backend what the buffered way reads: one limit, one result.
    pub streamed_wu-buffered_wu :
        (r : Response)
        → ((b : Bytes) → utf8 r.body_text ≡ some b → P.utf8_decode b ≡ some r.body_text)
        → fetch_reply P network past q ≡ answered r
        → streamed_wu P r ≡ buffered_wu P r
    unfolding as_response
    streamed_wu-buffered_wu r decodes h =
        let (g, fits, same) = fetch_reply-Fits r h in
        let text_of : r.body_text ≡ g.text = ap (λ (x : Response). x.body_text) same in
        let decoded : P.utf8_decode fits.encoded ≡ some g.text =
          rw text_of at (decodes fits.encoded (rw text_of fits.encodes)) in
        rw same (streamed_wu-Fits g fits decoded ∙ sym (buffered_wu-Fits g fits))

    reply_of-failed : (f : Result FetchResponse) (e : Exn) → reply_of P f ≡ failed e → f ≡ err e
    unfolding reply_of
    reply_of-failed (ok g) e h = cc
    reply_of-failed (err d) e h = cc

    -- The backend raises nothing but `TransportError`, and a `TypeError` for a request with headers.
    pub fetch_reply-failed :
        (e : Exn)
        → fetch_reply P network past q ≡ failed e
        → ((e ≡ transport_error) × (q.authorization ≡ none))
          ⊎ ((e ≡ type_error) × (q.authorization ≢ none))
    fetch_reply-failed e h = elim (Option-cases q.authorization) [
      | inr (t, headers) ↦ inr (ground (arith, fetch_reply-headers t headers), λ plain. cc)
      | inl plain ↦
          inl (fetch-err _ _ e (reply_of-failed _ e (sym (fetch_reply-plain plain) ∙ h)), plain)
    ]

-- The reader of a stream never hands out more than the limit: what it yields, behind what was read.
pub iter_reader_bound :
    (body : Bytes) (chunks : List Bytes)
    → length body ≤ max_response_bytes
    → length (body ++ joined (iter_reader body chunks).yielded) ≤ max_response_bytes
unfolding iter_reader joined
iter_reader_bound body [] h = rw append-nil h
iter_reader_bound body (chunk ∷ chunks) h =
    let rest = iter_reader_bound (body ++ chunk) chunks in
    elim (Bool-cases (is_empty chunk)) [
      | inl empty ↦ rw empty (rw append-nil h)
      | inr more ↦ elim (Bool-cases (ltb max_response_bytes (length body + length chunk))) [
        | inl big ↦ rw more (rw big (rw append-nil h))
        | inr fits ↦
            let small = not-ltb→le max_response_bytes (length body + length chunk) fits in
            rw more
              (rw fits (rw append_assoc at rest (omega (arith, small, length-append body chunk))))
      ]
    ]
