-- ===== src/Cli/Serve/Warned.antt =====
-- The dashboard is bound beyond this machine only after a warning.
use mathlib.Core.List.{append-nil}
use lustro_node_agent.Base.{
  ℕ, ℤ, ◌≡◌, ◌⊎◌, inl, inr, refl, sym, Bool, true, false, Bool-cases, Option, none, some, List, [],
  ◌∷◌, ◌++◌, if◌then◌else◌, arith,
}
use lustro_node_agent.Base.Text.{Text}
use lustro_node_agent.Base.Result.{Exn, Result, ok, err}
use lustro_node_agent.Base.Exec.{final, raise, pure, ◌>>◌}
use lustro_node_agent.Cli.Serve.{
  ServeArgs, Sockets, Output, port_refused, warned, cannot_bind, bound, is_local, host_of, port_of,
  warn, emit, settle_start, start, serve_on, cmd_serve_log,
}

-- What `serve-log` does that others see, besides the warning
abbrev pub IsEnd : Text → List Output → Type 0
IsEnd host last =
    (last ≡ [])
    ⊎ ((port : ℤ) × ((last ≡ cannot_bind host port ∷ []) ⊎ (last ≡ bound host port ∷ [])))

module _ (N : Sockets) where
  refused :
      (host : Text) (port : ℤ) (e : Exn) (binds : Bool) (outputs : List Output)
      → (last : List Output) × IsEnd host last
        × (final (
              (if binds then (do emit (cannot_bind host port); pure {A = ℕ} 2) else raise e)
                outputs)
            ≡ outputs ++ last)
  refused host port e true outputs = (cannot_bind host port ∷ [], inr (port, inl refl), refl)
  refused host port e false outputs = ([], inl refl, sym (append-nil outputs))

  settle_start-keeps :
      (r : Result (Unit {0})) (outputs : List Output) → final (settle_start N r outputs) ≡ outputs
  settle_start-keeps (ok _) outputs = refl
  settle_start-keeps (err e) outputs = ground arith

  started :
      (host : Text) (port : ℤ) (r : Result (Unit {0})) (outputs : List Output)
      → (last : List Output) × IsEnd host last
        × (final (start N host port r outputs) ≡ outputs ++ last)
  started host port (ok _) outputs =
      (bound host port ∷ [], inr (port, inr refl), settle_start-keeps (N.serve host port) _)
  started host port (err e) outputs = refused host port e (N.is_bind_error e) outputs

  -- `serve-log` refuses the port and does nothing else, or it tries to bind the host that it was
  -- given: at once if that is this machine by name, and else behind a warning that names it.
  pub cmd_serve_log-warned :
      (args : ServeArgs)
      → (final (cmd_serve_log N args []) ≡ port_refused ∷ [])
        ⊎ ((last : List Output) × IsEnd (host_of N args) last
            × (((is_local (host_of N args) ≡ true) × (final (cmd_serve_log N args []) ≡ last))
                ⊎ ((is_local (host_of N args) ≡ false)
                    × (final (cmd_serve_log N args []) ≡ warned (host_of N args) ∷ last))))
  unfolding cmd_serve_log warn
  cmd_serve_log-warned args = on_port (host_of N args) (port_of N args.port)
    where
      Says : Text → List Output → Type 0
      Says host outputs =
          (outputs ≡ port_refused ∷ [])
          ⊎ ((last : List Output) × IsEnd host last
              × (((is_local host ≡ true) × (outputs ≡ last))
                  ⊎ ((is_local host ≡ false) × (outputs ≡ warned host ∷ last))))

      on_port : (host : Text) (port : Option ℤ) → Says host (final (serve_on N host port []))
      on_port host none = inl refl
      on_port host (some port) = elim (Bool-cases (is_local host)) [
        | inl near ↦
            let (last, ends, same) = started host port (N.bind host port) [] in
            inr (last, ends, inl (near, rw (near) same))
        | inr far ↦
            let (last, ends, same) = started host port (N.bind host port) (warned host ∷ []) in
            inr (last, ends, inr (far, rw (far) same))
      ]
