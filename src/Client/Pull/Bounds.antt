-- ===== src/Client/Pull/Bounds.antt =====
-- The limit of `pull_and_process` on the body of a response.
use mathlib.Core.List.{append_assoc, append-nil}
use lustro_node_agent.Base.{
  ◌+◌, ◌≤◌, ◌≡◌, refl, ap, sym, ◌∙◌, Bool-cases, Option, none, some, List, [], ◌∷◌, ◌++◌, inl, inr,
  arith, ltb, length, length-append, not-ltb→le, le→not-ltb, subst, ◌↔◌,
}
use lustro_node_agent.Base.Text.{Bytes}
use lustro_node_agent.Base.Result.{Exn, ok, ok-injective}
use lustro_node_agent.Client.Pull.{max_wu_response_bytes, read_chunks}

unfoldable pub joined : List Bytes → Bytes
joined [] = []
joined (chunk ∷ more) = chunk ++ joined more

read_chunks-ok :
    (body : Bytes) (chunks : List Bytes) (fault : Option Exn) (b : Bytes)
    → length body ≤ max_wu_response_bytes
    → read_chunks body chunks fault ≡ ok b
    → (fault ≡ none) × (b ≡ body ++ joined chunks) × (length b ≤ max_wu_response_bytes)
unfolding read_chunks joined
read_chunks-ok body [] none b small h =
    let e = ok-injective h in
    (
      refl,
      sym e ∙ sym (append-nil body),
      subst (λ (x : Bytes). length x ≤ max_wu_response_bytes) e small,
    )
read_chunks-ok body [] (some e) b small h = ground arith
read_chunks-ok body (chunk ∷ more) fault b small h =
    elim (Bool-cases (ltb max_wu_response_bytes (length body + length chunk))) [
      | inl big ↦ ground arith
      | inr fits ↦
          let (whole, same, short) =
            read_chunks-ok (body ++ chunk) more fault b
              (rw length-append
                (not-ltb→le max_wu_response_bytes (length body + length chunk) fits))
              (rw fits at h) in
          (whole, same ∙ append_assoc body chunk (joined more), short)
    ]

read_chunks-of_small :
    (body : Bytes) (chunks : List Bytes)
    → length (body ++ joined chunks) ≤ max_wu_response_bytes
    → read_chunks body chunks none ≡ ok (body ++ joined chunks)
unfolding read_chunks joined
read_chunks-of_small body [] small = ap ok (sym (append-nil body))
read_chunks-of_small body (chunk ∷ more) small =
    let same = append_assoc body chunk (joined more) in
    let fits = le→not-ltb max_wu_response_bytes (length body + length chunk) (
      omega
        (arith, length-append body (chunk ++ joined more), length-append chunk (joined more))) in
    let rest = read_chunks-of_small (body ++ chunk) more (rw same small) in
    rw fits (rw same at rest)

-- The loop returns a body exactly where the stream ends without an exception and its chunks together
-- have at most 1 MiB, and the body is then all of them in order.
pub read_chunks_iff :
    (chunks : List Bytes) (fault : Option Exn) (b : Bytes)
    → (read_chunks [] chunks fault ≡ ok b)
      ↔ ((fault ≡ none) × (b ≡ joined chunks) × (length b ≤ max_wu_response_bytes))
unfolding read_chunks
read_chunks_iff chunks fault b = (
  read_chunks-ok [] chunks fault b (omega arith),
  λ (whole, same, small). rw (whole, same) (read_chunks-of_small [] chunks (rw same at small)),
)
