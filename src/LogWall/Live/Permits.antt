-- ===== src/LogWall/Live/Permits.antt =====
-- Where the permits of the live tails are.
use lustro_node_agent.Base.{
  ℕ, zero, suc, ◌+◌, ◌≤◌, ◌≡◌, refl, sym, ap, subst, ◌∙◌, Option, none, some, arith,
}
use lustro_node_agent.Base.Result.{Exn}
use lustro_node_agent.Base.Exec.{returned, final}
use lustro_node_agent.LogWall.{send_json, error_body}
use lustro_node_agent.LogWall.Live.{
  Wall, max_sse_clients, opened, answer_of, enter_tail, leave_tail, Step, enters, ends, Reach, here,
  later,
}

abbrev held : Wall → ℕ
held s = s.permits + s.streaming + s.lost

enter_tail-held : (headers : Option Exn) (s : Wall) → held (final (enter_tail headers s)) ≡ held s
unfolding enter_tail
enter_tail-held headers s = go headers s.permits refl
  where
    go :
        (headers : Option Exn) (p : ℕ)
        → s.permits ≡ p
        → held (final (answer_of headers p s)) ≡ held s
    go headers zero same = refl
    go none (suc p) same = omega (arith, same)
    go (some e) (suc p) same = omega (arith, same)

leave_tail-held : (s : Wall) (n : ℕ) → s.streaming ≡ suc n → held (leave_tail s) ≡ held s
unfolding leave_tail
leave_tail-held s n streams = omega (arith, streams)

Step-held : {s t : Wall} → Step s t → held t ≡ held s
Step-held {s} (enters headers) = enter_tail-held headers s
Step-held {s} (ends {n} streams) = leave_tail-held s n streams

Reach-held : {s t : Wall} → Reach s t → held t ≡ held s
Reach-held here = refl
Reach-held (later r step) = Step-held step ∙ Reach-held r

-- However the handlers interleave, at most five clients stream at once, and every permit of the five
-- is free, held by a client that streams, or lost by a handler whose headers could not be sent.
pub Reach-permits :
    {t : Wall}
    → Reach opened t
    → (t.streaming ≤ max_sse_clients) × (t.permits + t.streaming + t.lost ≡ max_sse_clients)
Reach-permits {t} r =
    let all : t.permits + t.streaming + t.lost ≡ max_sse_clients = Reach-held r in
    (omega (arith, all), all)

refused_at :
    (headers : Option Exn) (t : Wall)
    → t.permits ≡ 0
    → enter_tail headers t ≡ returned (send_json 503 (error_body "too many live clients")) t
unfolding enter_tail
refused_at headers t none_free = rw none_free refl

IsShut : Wall → Type 0
IsShut s = (s.permits ≡ 0) × (s.streaming ≡ 0)

Step-IsShut : {s t : Wall} → Step s t → IsShut s → IsShut t
unfolding IsShut
Step-IsShut {s} (enters headers) (none_free, none_streams) =
    let same : final (enter_tail headers s) ≡ s = ap final (refused_at headers s none_free) in
    subst IsShut (sym same) (none_free, none_streams)
Step-IsShut (ends streams) (none_free, none_streams) = absurd (omega (arith, streams, none_streams))

Reach-IsShut : {s t : Wall} → Reach s t → IsShut s → IsShut t
Reach-IsShut here shut = shut
Reach-IsShut (later r step) shut = Step-IsShut step (Reach-IsShut r shut)

-- Once no permit is free and no client streams, the live tail is refused for good: that stays so
-- whatever the handlers do, and every client is answered 503.
pub Reach-refused :
    {s t : Wall} (headers : Option Exn)
    → Reach s t
    → s.permits ≡ 0
    → s.streaming ≡ 0
    → (t.permits ≡ 0)
      × (t.streaming ≡ 0)
      × (enter_tail headers t ≡ returned (send_json 503 (error_body "too many live clients")) t)
unfolding IsShut
Reach-refused {s} {t} headers r none_free none_streams =
    let (still_none, still_idle) = Reach-IsShut r (none_free, none_streams) in
    (still_none, still_idle, refused_at headers t still_none)
