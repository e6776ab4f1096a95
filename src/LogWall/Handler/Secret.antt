-- ===== src/LogWall/Handler/Secret.antt =====
-- Who learns nothing of the log, and what a handler leaves of the wall.
use lustro_node_agent.Base.{
  ℕ, zero, suc, ◌+◌, ◌≡◌, ◌≢◌, ◌⊎◌, inl, inr, refl, sym, ap, ◌∙◌, Bool, false, ◌||◌, ◌&&◌, Option,
  none, List, arith, Bool-cases,
}
use lustro_node_agent.Base.Text.{Text, text, text_eq, text_eq-ne}
use lustro_node_agent.Base.Value.{Value}
use lustro_node_agent.Base.Result.{ok}
use lustro_node_agent.Base.Exec.{Outcome, returned, raised, final}
use lustro_node_agent.Platform.{Platform}
use lustro_node_agent.JobLog.{TextFile}
use lustro_node_agent.JobLog.Tail.{Event}
use lustro_node_agent.LogWall.{
  Answer, send_json, send_html, error_body, Query, host_allowed, do_get,
}
use lustro_node_agent.LogWall.Hosts.{Foreign, host_allowed-Foreign}
use lustro_node_agent.LogWall.Live.{Wall, answer_of, enter_tail, leave_tail}
use lustro_node_agent.LogWall.Handler.Frames.{||-eq-false}
use lustro_node_agent.LogWall.Handler.{
  HttpServer, Connection, events_head, end_stream, settle_sent, serve_tail, serve_events, respond,
  settle_get, handle_get, handle_post, Method, get, post, put, delete, patch, handle,
}

-- A GET is for the log: from an allowed host, on one of the two paths that serve it.
abbrev pub gets_log : (Text → Bool) → Option Text → Text → Bool
gets_log is_ip host path =
    host_allowed is_ip host && (text_eq path (text "/api/log") || text_eq path (text "/events"))

-- The request is for the log: such a request by GET.
unfoldable pub asks_for_log : Method → (Text → Bool) → Option Text → Text → Bool
asks_for_log get is_ip host path = gets_log is_ip host path
asks_for_log post is_ip host path = false
asks_for_log put is_ip host path = false
asks_for_log delete is_ip host path = false
asks_for_log patch is_ip host path = false

module _ (P : Platform) (S : HttpServer) where
  -- An answer that does not hold the log
  data Plain : Answer → Type 0 where
    json : (status : ℕ) (v : Value) → Plain (send_json status v)
    page : Plain send_html

  settle_get-Plain :
      (a : Answer) (file file' : TextFile) (events events' : List Event) (c : Connection)
      → Plain a
      → settle_get P S file events (ok a) c ≡ settle_get P S file' events' (ok a) c
  unfolding settle_get respond
  settle_get-Plain _ file file' events events' c (json status v) = refl
  settle_get-Plain _ file file' events events' c page = refl

  module _ (is_ip : Text → Bool) (host : Option Text) (path : Text) (params : Query) where
    do_get-Plain :
        gets_log is_ip host path ≡ false
        → (a : Answer) × Plain a × ((file : TextFile) → do_get P is_ip host path params file ≡ ok a)
    unfolding do_get
    do_get-Plain h = elim (Bool-cases (host_allowed is_ip host)) [
      | inr refused ↦ (_, json 403 (error_body "host not allowed"), λ file. rw refused refl)
      | inl allowed ↦
          let (not_log, not_tail) =
            ||-eq-false (text_eq path (text "/api/log")) (text_eq path (text "/events"))
              (rw allowed at h) in
          elim (Bool-cases (text_eq path (text "/"))) [
            | inl root ↦ (_, page, λ file. rw (allowed, root) refl)
            | inr other ↦ (
              _,
              json 404 (error_body "not found"),
              λ file. rw (allowed, other, not_log, not_tail) refl,
            )
          ]
    ]

    handle_get-secret :
        (file file' : TextFile) (events events' : List Event) (c : Connection)
        → gets_log is_ip host path ≡ false
        → handle_get P S file events is_ip host path params c
          ≡ handle_get P S file' events' is_ip host path params c
    unfolding handle_get
    handle_get-secret file file' events events' c h =
        let (a, plain, answers) = do_get-Plain h in
        ap (λ r. settle_get P S file events r c) (answers file)
        ∙ settle_get-Plain a file file' events events' c plain
        ∙ ap (λ r. settle_get P S file' events' r c) (sym (answers file'))

    -- The same for a request of any of the methods that is not for the log
    handle-secret :
        (m : Method) (file file' : TextFile) (events events' : List Event) (c : Connection)
        → asks_for_log m is_ip host path ≡ false
        → handle P S file events m is_ip host path params c
          ≡ handle P S file' events' m is_ip host path params c
    unfolding handle handle_post respond asks_for_log
    handle-secret get file file' events events' c h =
        handle_get-secret file file' events events' c h
    handle-secret post file file' events events' c h = refl
    handle-secret put file file' events events' c h = refl
    handle-secret delete file file' events events' c h = refl
    handle-secret patch file file' events events' c h = refl

    -- The request is not a GET, or its host is foreign, or its path is not one that serves the log.
    abbrev pub Elsewhere : Method → Type 0
    Elsewhere m =
        (m ≢ get) ⊎ (Foreign is_ip host ⊎ ((path ≢ text "/api/log") × (path ≢ text "/events")))

    Elsewhere-asks_for_log : (m : Method) → Elsewhere m → asks_for_log m is_ip host path ≡ false
    unfolding asks_for_log
    Elsewhere-asks_for_log get (inl other) = absurd (other refl)
    Elsewhere-asks_for_log get (inr (inl foreign)) =
        rw (host_allowed-Foreign is_ip host foreign) refl
    Elsewhere-asks_for_log get (inr (inr (not_log, not_tail))) =
        rw (text_eq-ne path (text "/api/log") not_log, text_eq-ne path (text "/events") not_tail)
          (ground arith)
    Elsewhere-asks_for_log post e = refl
    Elsewhere-asks_for_log put e = refl
    Elsewhere-asks_for_log delete e = refl
    Elsewhere-asks_for_log patch e = refl

    -- A request of one of the five methods that is not a GET, or has no `Host` header or one whose
    -- name, with or without a port, is neither localhost nor a literal address (a name of plain
    -- characters, perhaps empty), or is for a path other than /api/log and /events: what its
    -- connection gets, what it raises and what it leaves of the wall are the same whatever the log
    -- holds and whatever is appended to it.
    pub handle-foreign :
        (m : Method) (file file' : TextFile) (events events' : List Event) (c : Connection)
        → Elsewhere m
        → handle P S file events m is_ip host path params c
          ≡ handle P S file' events' m is_ip host path params c
    handle-foreign m file file' events events' c e =
        handle-secret m file file' events events' c (Elsewhere-asks_for_log m e)

  end_stream-wall :
      (w : Wall) (o : Outcome Text (Unit {0})) → (final (end_stream P S w o)).wall ≡ leave_tail w
  unfolding end_stream
  end_stream-wall w (returned _ t) = refl
  end_stream-wall w (raised e t) = ground arith

  settle_sent-wall :
      (w : Wall) (o : Outcome Text (Unit {0})) → (final (settle_sent P S w o)).wall ≡ w
  settle_sent-wall w (returned _ t) = refl
  settle_sent-wall w (raised e t) = refl

  permit_back :
      (s : Wall) (left : ℕ)
      → s.permits ≡ suc left
      → leave_tail (record s { permits = left; streaming = s.streaming + 1 }) ≡ s
  unfolding leave_tail
  permit_back s left free = ground arith

  entered :
      (file : TextFile) (events : List Event) (c : Connection) (p : ℕ)
      → c.wall.permits ≡ p
      → (final (serve_tail P S file events (answer_of none p c.wall) c)).wall ≡ c.wall
  unfolding serve_tail
  entered file events c zero none_free = settle_sent-wall c.wall _
  entered file events c (suc left) free = end_stream-wall _ _ ∙ permit_back c.wall left free

  -- A handler of the live tail to which the write of the head does not fail leaves the wall as it
  -- found it, be it refused or whatever ends its stream: a write that fails, a record that UTF-8
  -- cannot encode, or an exception that nothing catches. A permit that it took is free again.
  pub serve_events-wall :
      (file : TextFile) (events : List Event) (c : Connection)
      → S.fails c.sent (events_head P S) ≡ none
      → (final (serve_events P S file events c)).wall ≡ c.wall
  unfolding serve_events enter_tail
  serve_events-wall file events c sends = rw sends (entered file events c c.wall.permits refl)
