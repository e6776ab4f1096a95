-- ===== src/LogWall/Handler.antt =====
-- What a connection of the log wall gets: `_send_json`, `_serve_html`, `_serve_events`, `do_GET` and `do_POST` of
-- node_agent/logwall.py, over what `http.server` does. A connection is the text whose UTF-8 was
-- written to it.
pub mod Frames
pub mod Received
pub mod Secret
mod Tests
use lustro_node_agent.Base.{
  ℕ, pos, Bool, true, Option, none, some, List, [], ◌∷◌, ◌++◌, length, if◌then◌else◌,
}
use lustro_node_agent.Base.Text.{Text, Bytes, text, utf8}
use lustro_node_agent.Base.Value.{Value, Items, nil, cons, list, int}
use lustro_node_agent.Base.Result.{Exn, Result, ok, err, or_raise, unicode_error}
use lustro_node_agent.Base.Exec.{Outcome, Exec, returned, raised, pure, lift, ◌>>=◌, ◌>>◌}
use lustro_node_agent.Platform.{Platform}
use lustro_node_agent.JobLog.{TextFile}
use lustro_node_agent.JobLog.Tail.{Event, iter_lines}
use lustro_node_agent.LogWall.{
  Answer, send_json, send_records, send_html, send_events, error_body, Query, do_get,
}
use lustro_node_agent.LogWall.Live.{Wall, enter_tail, leave_tail}

-- The methods of HTTP that the class has a handler for
pub data Method : Type 0 where
  get : Method
  post : Method
  put : Method
  delete : Method
  patch : Method

abbrev pub Header : Type 0
Header = Text × Text

-- `BaseHTTPRequestHandler`, the socket, and `PAGE_HTML`.
pub record HttpServer : Type 0 where
  -- What `send_response`, `send_header` and `end_headers` write for a status and headers
  pub head : ℕ → List Header → Text
  -- The exception of a write, by what was written before and what is written
  pub fails : Text → Text → Option Exn
  -- Whether an exception says that the client is gone: the three that `_serve_events` catches
  pub is_gone : Exn → Bool
  pub page_html : Text

-- The wall that all handlers share, and what was written to this client.
pub record Connection : Type 0 where
  pub wall : Wall
  pub sent : Text

abbrev pub items_of : List Value → Items
items_of [] = nil
items_of (v ∷ vs) = cons v (items_of vs)

abbrev pub html_type : Text
html_type = text "text/html; charset=utf-8"

abbrev pub json_type : Text
json_type = text "application/json; charset=utf-8"

-- `t.encode("utf-8")`
abbrev pub encode : Text → Result Bytes
encode t = or_raise (utf8 t) unicode_error

-- A frame that `_serve_events` writes: a comment for `None`, and else the record as data.
unfoldable pub frame_of : Platform → Option Value → Text
frame_of P none = text ": keep-alive\n\n"
frame_of P (some v) = text "data: " ++ (P.dumps v ++ 10 ∷ 10 ∷ [])

module _ (P : Platform) (S : HttpServer) where
  abbrev pub written : Option Exn → Text → Exec Text (Unit {0})
  written none t sent = returned tt (sent ++ t)
  written (some e) t sent = raised e sent

  -- `self.wfile.write(…)`
  abbrev pub write : Text → Exec Text (Unit {0})
  write t sent = written (S.fails sent t) t sent

  -- `Content-Type` and `Content-Length`
  abbrev pub body_headers : Text → ℕ → List Header
  body_headers content_type n =
      (text "Content-Type", content_type) ∷ (text "Content-Length", P.to_str (int (pos n))) ∷ []

  -- The body is encoded first, so that a text which UTF-8 cannot encode writes nothing.
  unfoldable pub send_body : ℕ → Text → Text → Exec Text (Unit {0})
  send_body status content_type body = do
    bytes ← lift (encode body)
    write (S.head status (body_headers content_type (length bytes)))
    write body

  abbrev pub write_frame : Option Value → Exec Text (Unit {0})
  write_frame y = do lift (encode (frame_of P y)); write (frame_of P y)

  -- The loop of `_serve_events`, up to a moment
  unfoldable pub write_frames : List (Option Value) → Exec Text (Unit {0})
  write_frames [] = pure tt
  write_frames (y ∷ ys) = do write_frame y; write_frames ys

  unfoldable pub events_head : Text
  events_head = S.head 200 (
      (text "Content-Type", text "text/event-stream")
      ∷ (text "Cache-Control", text "no-cache, no-store")
      ∷ (text "X-Accel-Buffering", text "no")
      ∷ [])

  -- The `except` and the `finally` of `_serve_events`
  unfoldable pub end_stream : Wall → Outcome Text (Unit {0}) → Outcome Connection (Unit {0})
  end_stream w (returned _ sent) = returned tt (record { wall = leave_tail w; sent = sent })
  end_stream w (raised e sent) =
      let c : Connection = record { wall = leave_tail w; sent = sent } in
      if S.is_gone e then returned tt c else raised e c

  abbrev pub settle_sent : Wall → Outcome Text (Unit {0}) → Outcome Connection (Unit {0})
  settle_sent w (returned _ sent) = returned tt (record { wall = w; sent = sent })
  settle_sent w (raised e sent) = raised e (record { wall = w; sent = sent })

  -- `_serve_html`
  unfoldable pub serve_html : Exec Text (Unit {0})
  unfolding send_body
  serve_html = send_body 200 html_type S.page_html

  -- `_send_json`, and `_serve_html`
  unfoldable pub send_answer : Answer → Exec Text (Unit {0})
  unfolding send_body serve_html
  send_answer (send_json status v) = send_body status json_type (P.dumps v)
  send_answer (send_records rs) = send_body 200 json_type (P.dumps (list (items_of rs)))
  send_answer send_html = serve_html
  send_answer send_events = pure tt

  module _ (file : TextFile) (events : List Event) where
    -- `_serve_events` from what its start has answered
    unfoldable pub serve_tail : Outcome Wall Answer → Exec Connection (Unit {0})
    unfolding send_answer write_frames events_head end_stream iter_lines
    serve_tail (raised e w) c = raised e (record { wall = w; sent = c.sent })
    serve_tail (returned send_events w) c =
        end_stream w (write_frames (iter_lines P true true file events) (c.sent ++ events_head))
    serve_tail (returned a w) c = settle_sent w (send_answer a c.sent)

    -- `_serve_events`
    unfoldable pub serve_events : Exec Connection (Unit {0})
    unfolding serve_tail events_head
    serve_events c = serve_tail (enter_tail (S.fails c.sent events_head) c.wall) c

    unfoldable pub respond : Answer → Exec Connection (Unit {0})
    unfolding serve_events send_answer
    respond send_events c = serve_events c
    respond a c = settle_sent c.wall (send_answer a c.sent)

    -- A handler that raises writes nothing.
    unfoldable pub settle_get : Result Answer → Exec Connection (Unit {0})
    unfolding respond
    settle_get (err e) c = raised e c
    settle_get (ok a) c = respond a c

    -- `do_POST`
    unfoldable pub handle_post : Exec Connection (Unit {0})
    unfolding respond
    handle_post = respond (send_json 405 (error_body "method not allowed"))

    -- `do_GET`
    unfoldable pub handle_get :
        (Text → Bool) → Option Text → Text → Query → Exec Connection (Unit {0})
    unfolding settle_get
    handle_get is_ip host path params c = settle_get (do_get P is_ip host path params file) c

    -- A request by its method. Those after `post` are names of `do_POST`.
    unfoldable pub handle :
        Method → (Text → Bool) → Option Text → Text → Query → Exec Connection (Unit {0})
    unfolding handle_get handle_post
    handle get is_ip host path params = handle_get is_ip host path params
    handle post is_ip host path params = handle_post
    handle put is_ip host path params = handle_post
    handle delete is_ip host path params = handle_post
    handle patch is_ip host path params = handle_post
