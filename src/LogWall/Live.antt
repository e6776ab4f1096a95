-- ===== src/LogWall/Live.antt =====
-- `_serve_events`: the live tails, each of which holds a permit of a semaphore that the handlers of all
-- connections share.
pub mod Permits
mod Tests
use lustro_node_agent.Base.{ℕ, zero, suc, ◌+◌, ◌-◌, ◌≡◌, Option, none, some}
use lustro_node_agent.Base.Result.{Exn}
use lustro_node_agent.Base.Exec.{Outcome, returned, raised, final}
use lustro_node_agent.LogWall.{Answer, send_json, send_events, error_body}

abbrev pub max_sse_clients : ℕ
max_sse_clients = 5

-- The semaphore, and the handlers that hold a permit: those that stream, and those that an exception
-- has ended before the `try`, whose permit nobody gives back.
pub record Wall : Type 0 where
  pub permits : ℕ
  pub streaming : ℕ
  pub lost : ℕ

-- `LogWallServer.__init__`
abbrev pub opened : Wall
opened = record { permits = max_sse_clients; streaming = 0; lost = 0 }

abbrev pub answer_with : Option Exn → ℕ → Wall → Outcome Wall Answer
answer_with none left s =
    returned send_events (record s { permits = left; streaming = s.streaming + 1 })
answer_with (some e) left s = raised e (record s { permits = left; lost = s.lost + 1 })

abbrev pub answer_of : Option Exn → ℕ → Wall → Outcome Wall Answer
answer_of headers zero s = returned (send_json 503 (error_body "too many live clients")) s
answer_of headers (suc left) s = answer_with headers left s

-- A handler up to its `try`. `headers` is the exception of sending the status and the headers, where
-- the client is gone.
unfoldable pub enter_tail : Option Exn → Wall → Outcome Wall Answer
enter_tail headers s = answer_of headers s.permits s

-- The `finally`
unfoldable pub leave_tail : Wall → Wall
leave_tail s = record s { permits = s.permits + 1; streaming = s.streaming - 1 }

-- The handlers run at once: one of them enters, or one that streams ends, by whatever exception.
pub data Step (s : Wall) : Wall → Type 0 where
  enters : (headers : Option Exn) → Step s (final (enter_tail headers s))
  ends : {n : ℕ} → s.streaming ≡ suc n → Step s (leave_tail s)

pub data Reach (s : Wall) : Wall → Type 0 where
  here : Reach s s
  later : {t u : Wall} → Reach s t → Step t u → Reach s u
