-- ===== src/Client/Process/Submitted.antt =====
-- What the POST of a result has done when it returns: the requests made, and the record kept.
use lustro_node_agent.Base.{
  ◌≡◌, refl, ap, subst, ◌∙◌, Option, none, some, List, [], ◌∷◌, ◌++◌, ◌+◌, ◌-◌, arith, All,
  All-append,
}
use mathlib.Core.List.{append_assoc}
use lustro_node_agent.Base.Text.{Text}
use lustro_node_agent.Base.Value.{Fields, dict}
use lustro_node_agent.Base.Result.{attribute_error}
use lustro_node_agent.Base.Exec.{Outcome, Exec, returned, raised, final, continue-returned}
use lustro_node_agent.Platform.{Platform}
use lustro_node_agent.Seen.{ReplayStore, mark_seen}
use lustro_node_agent.Client.{Request, Response, answered, Http, NodeAgentClient, Node}
use lustro_node_agent.Client.Wire.{using_client, closed, send, raise_for_status}
use lustro_node_agent.Client.Wire.Keeps.{AllowsLog, AllowsRequest}
use lustro_node_agent.Client.Process.{
  activity_request, post, deliver, mark_processed, report_activity, submit,
}
use lustro_node_agent.Client.Process.Activity.{report_activity-Keeps}

module _ (P : Platform) (C : NodeAgentClient) where
  -- The requests of a run that went on from `sent`: the result, then reports of it.
  abbrev pub IsReport : Text → Request → Type 0
  IsReport wu_id q = (url : Text) × (q ≡ activity_request P C url wu_id)

  deliver-returned :
      (h : Http) (q : Request) (s : Node) {r : Response} {t : Node}
      → deliver P C h q s ≡ returned r t
      → (h.reply s.sent q ≡ answered r)
        × (h.status_raises r.status ≡ none)
        × (t ≡ record s { sent = s.sent ++ q ∷ [] })
  unfolding send raise_for_status
  deliver-returned h q s e = ground arith

  mark_processed-returned :
      (wu : Fields) (s t : Node)
      → mark_processed P C wu s ≡ returned tt t
      → mark_seen P wu s.replay ≡ returned tt t.replay × (t.sent ≡ s.sent)
  unfolding mark_processed
  mark_processed-returned wu s t e = ground arith

  -- The node has made the requests `before`, the POST of the result, and reports of it, and its
  -- anti-replay record is `r`.
  pub record Delivered (before : List Request) (q : Request) (wu_id : Text) (r : ReplayStore)
      (t : Node) : Type 0 where
    pub marked : t.replay ≡ r
    pub reports : List Request
    pub sent : t.sent ≡ before ++ q ∷ reports
    pub only_reports : All (IsReport wu_id) reports

  pub Delivered-AllowsLog :
      (before : List Request) (q : Request) (wu_id : Text) (r : ReplayStore)
      → AllowsLog C (Delivered before q wu_id r)
  Delivered-AllowsLog before q wu_id r entry s d = record {
    marked = d.marked;
    reports = d.reports;
    sent = d.sent;
    only_reports = d.only_reports;
  }

  Delivered-AllowsRequest :
      (before : List Request) (q : Request) (wu_id url : Text) (r : ReplayStore)
      → AllowsRequest (Delivered before q wu_id r) (activity_request P C url wu_id)
  Delivered-AllowsRequest before q wu_id url r s d =
      let new = activity_request P C url wu_id in
      record {
        marked = d.marked;
        reports = d.reports ++ new ∷ [];
        sent = ap (λ l. l ++ new ∷ []) d.sent ∙ append_assoc before (q ∷ d.reports) (new ∷ []);
        only_reports =
            All-append (IsReport wu_id) d.reports (new ∷ []) d.only_reports ((url, refl), tt);
      }

  pub submit-returned :
      (wu : Fields) (wu_id url : Text) (body : Fields) (h : Http) (s : Node) {resp : Response}
      {t : Node}
      → submit P C wu wu_id url body h s ≡ returned resp t
      → (r : ReplayStore) × (mark_seen P wu s.replay ≡ returned tt r)
        × Delivered s.sent (post P C url (dict body)) wu_id r t
  unfolding submit
  submit-returned wu wu_id url body h s e =
      let q = post P C url (dict body) in
      let (resp, t₁, delivered, e₁) = continue-returned (deliver P C h q s) _ e in
      let (_, _, same) = deliver-returned h q s delivered in
      let (_, t₂, marked, e₂) = continue-returned (mark_processed P C wu t₁) _ e₁ in
      let (stored, kept) = mark_processed-returned wu t₁ t₂ marked in
      let (_, t₃, reported, e₃) = continue-returned (report_activity P C wu_id h t₂) _ e₂ in
      let I = Delivered s.sent q wu_id t₂.replay in
      let start : I t₂ = record {
        marked = refl;
        reports = [];
        sent = kept ∙ ap (λ (x : Node). x.sent) same;
        only_reports = tt;
      } in
      let after =
        (report_activity-Keeps P C {I = I} (Delivered-AllowsLog s.sent q wu_id t₂.replay) wu_id h
            (λ url _. Delivered-AllowsRequest s.sent q wu_id url t₂.replay)).at
          t₂ start in
      (
        t₂.replay,
        subst (λ (x : ReplayStore). mark_seen P wu x ≡ returned tt t₂.replay)
            (ap (λ (x : Node). x.replay) same) stored,
        subst I (ap final reported ∙ ap final e₃) after,
      )

  -- The node in which `using_client` runs its body, and the one that the body leaves.
  pub record Wrapped {A : Type 0} (body : Http → Exec Node A) (a : A) (s t : Node) : Type 0 where
    pub client : Http
    pub inner_start : Node
    pub inner_end : Node
    pub ran : body client inner_start ≡ returned a inner_end
    pub start_sent : inner_start.sent ≡ s.sent
    pub start_replay : inner_start.replay ≡ s.replay
    pub end_sent : t.sent ≡ inner_end.sent
    pub end_replay : t.replay ≡ inner_end.replay

  pub using_client-returned :
      {A : Type 0} (http : Option Http) (body : Http → Exec Node A) (s : Node) {a : A} {t : Node}
      → using_client C http body s ≡ returned a t
      → Wrapped body a s t
  unfolding using_client
  using_client-returned (some h) body s {t} e = record {
    client = h;
    inner_start = s;
    inner_end = t;
    ran = e;
    start_sent = refl;
    start_replay = refl;
    end_sent = refl;
    end_replay = refl;
  }
  using_client-returned {A} none body s {a} {t} e = opened C.httpx e
    where
      closes :
          (h : Http) (s' : Node) (o : Outcome Node A)
          → body h s' ≡ o
          → closed o ≡ returned a t
          → (u : Node) × (body h s' ≡ returned a u)
            × (t ≡ record u { open_clients = u.open_clients - 1 })
      closes h s' (returned b u) ran e = (u, cc, cc)
      closes h s' (raised x u) ran e = cc

      opened :
          (o : Option Http)
          → elim o [
            | none ↦ raised attribute_error s
            | some h ↦ closed (body h (record s { open_clients = s.open_clients + 1 }))
          ]
            ≡ returned a t
          → Wrapped body a s t
      opened none e = cc
      opened (some h) e =
          let s' = record s { open_clients = s.open_clients + 1 } in
          let (u, ran, same) = closes h s' (body h s') refl e in
          record {
            client = h;
            inner_start = s';
            inner_end = u;
            ran = ran;
            start_sent = refl;
            start_replay = refl;
            end_sent = ap (λ (x : Node). x.sent) same;
            end_replay = ap (λ (x : Node). x.replay) same;
          }

  -- The same, for a node with the same requests and the same anti-replay record.
  pub Delivered-Wrapped :
      {A : Type 0} {body : Http → Exec Node A} {a : A} {s t : Node} (w : Wrapped body a s t)
      (q : Request) (wu_id : Text) (r : ReplayStore)
      → Delivered w.inner_start.sent q wu_id r w.inner_end
      → Delivered s.sent q wu_id r t
  Delivered-Wrapped w q wu_id r d = record {
    marked = w.end_replay ∙ d.marked;
    reports = d.reports;
    sent = w.end_sent ∙ d.sent ∙ ap (λ l. l ++ q ∷ d.reports) w.start_sent;
    only_reports = d.only_reports;
  }
