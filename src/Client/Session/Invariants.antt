-- ===== src/Client/Session/Invariants.antt =====
-- What holds after every sequence of calls and restarts.
use mathlib.Core.List.{append-nil}
use lustro_node_agent.Base.{ℕ, ◌+◌, ◌≡◌, refl, sym, List, ◌∷◌, [], arith}
use lustro_node_agent.Base.Text.{Text}
use lustro_node_agent.Base.Value.{Fields}
use lustro_node_agent.Platform.{Platform}
use lustro_node_agent.JobLog.{TextFile, contents, append_line}
use lustro_node_agent.JobLog
use lustro_node_agent.JobLog.Lines.{IsComplete}
use lustro_node_agent.JobLog.Growing.{GrownFrom, append_line-GrownFrom}
use lustro_node_agent.Seen.Marking.{Bounded, mark_seen-GrownFrom, mark_seen-Bounded}
use lustro_node_agent.Seen.Sets.{SetLaws}
use lustro_node_agent.Client.{NodeAgentClient, Node}
use lustro_node_agent.Client.Process.Keeps.{OnlyEdge, OnlyEdge-AllowsChecked, HasOpen}
use lustro_node_agent.Client.Session.{Call, perform, perform_all, Reach}
use lustro_node_agent.Client.Session.Parts.{Allows, Parts, perform-Keeps, Reach-Keeps}

module _ (P : Platform) (C : NodeAgentClient) where
  -- From a state whose requests all went to the guard's scheme, host and a port that fits, no sequence
  -- of calls and restarts, whatever the network answers, leads to a request elsewhere.
  pub Reach-OnlyEdge : {s t : Node} → Reach P C s t → OnlyEdge P C s → OnlyEdge P C t
  Reach-OnlyEdge r =
      let allows : Allows P C (OnlyEdge P C) = record {
        log = λ entry s i. i;
        marks = λ wu s i. i;
        checked = OnlyEdge-AllowsChecked P C;
        cursor = λ s file i. i;
      } in
      Reach-Keeps P C
        (record { outside = allows; inside = allows; opens = λ s i. i; closes = λ s i. i })
        (λ s m loaded i. i) r

  HasOpen-Allows : (n : ℕ) → Allows P C (HasOpen P C n)
  HasOpen-Allows n = record {
    log = λ entry s i. i;
    marks = λ wu s i. i;
    checked = λ q url passed s i. i;
    cursor = λ s file i. i;
  }

  -- After every sequence of calls and restarts there are as many open HTTP clients as before: each call
  -- closes what it opened, also where it raises.
  pub Reach-open_clients : {s t : Node} → Reach P C s t → t.open_clients ≡ s.open_clients
  Reach-open_clients {s} r =
      let n = s.open_clients in
      Reach-Keeps P C
        (record {
          outside = HasOpen-Allows n;
          inside = HasOpen-Allows (n + 1);
          opens = λ s i. omega arith;
          closes = λ s i. omega arith;
        })
        (λ s m loaded i. i) r refl

  GrownSeen : Text → Node → Type 0
  GrownSeen before s = GrownFrom before s.replay.file

  -- The anti-replay file is only appended to, and is made of complete lines after every sequence of
  -- calls and restarts if it was before.
  pub Reach-GrownFrom :
      {s t : Node}
      → Reach P C s t
      → IsComplete (contents s.replay.file)
      → GrownFrom (contents s.replay.file) t.replay.file
  unfolding GrownSeen
  Reach-GrownFrom {s} r whole =
      let allows : Allows P C (GrownSeen (contents s.replay.file)) = record {
        log = λ entry t i. i;
        marks = λ wu t i. mark_seen-GrownFrom P (contents s.replay.file) wu t.replay i;
        checked = λ q url passed t i. i;
        cursor = λ t file i. i;
      } in
      Reach-Keeps P C
        (record { outside = allows; inside = allows; opens = λ t i. i; closes = λ t i. i })
        (λ t m loaded i. i) r (([], sym (append-nil _)), whole)

  -- Where the client's journal is `JobLog.append` and the job log is made of complete lines: after
  -- every sequence of calls and restarts it is what it was with complete lines behind it, so that no
  -- entry is lost, whatever fails.
  pub Reach-job_log :
      {s t : Node}
      → ((entry : Fields) (file : TextFile) → C.journal entry file ≡ JobLog.append P entry file)
      → Reach P C s t
      → IsComplete (contents s.job_log)
      → GrownFrom (contents s.job_log) t.job_log
  unfolding JobLog.append
  Reach-job_log {s} journal r whole =
      let allows : Allows P C (λ t. GrownFrom (contents s.job_log) t.job_log) = record {
        log = λ entry t i.
            rw (journal entry t.job_log) (append_line-GrownFrom (contents s.job_log) _ t.job_log i);
        marks = λ wu t i. i;
        checked = λ q url passed t i. i;
        cursor = λ t file i. i;
      } in
      Reach-Keeps P C
        (record { outside = allows; inside = allows; opens = λ t i. i; closes = λ t i. i })
        (λ t m loaded i. i) r (([], sym (append-nil _)), whole)

  -- While no client is started anew, neither set grows past its limit: from sets within it, every
  -- sequence of calls leads to sets within it.
  pub calls-Bounded :
      SetLaws P
      → (calls : List Call) (s : Node) → Bounded P s.replay.memory
      → Bounded P (perform_all P C calls s).replay.memory
  calls-Bounded laws [] s i = i
  calls-Bounded laws (c ∷ calls) s i =
      let allows : Allows P C (λ t. Bounded P t.replay.memory) = record {
        log = λ entry t i. i;
        marks = λ wu t i. mark_seen-Bounded P laws wu t.replay i;
        checked = λ q url passed t i. i;
        cursor = λ t file i. i;
      } in
      let parts : Parts P C (λ t. Bounded P t.replay.memory) (λ t. Bounded P t.replay.memory) =
        record { outside = allows; inside = allows; opens = λ t i. i; closes = λ t i. i } in
      calls-Bounded laws calls (perform P C c s) (perform-Keeps P C parts c s i)
