-- ===== src/Cli/Main/Ends.antt =====
-- How a command ends, and how `serve-log` does.
use lustro_node_agent.Base.{
  ℕ, ℤ, ◌≡◌, ◌⊎◌, inl, inr, refl, Bool, true, false, Option, none, some, List, [], ◌∷◌, ◌++◌,
  if◌then◌else◌, arith,
}
use lustro_node_agent.Base.Text.{Text}
use lustro_node_agent.Base.Result.{Result, ok, err}
use lustro_node_agent.Base.Exec.{Outcome, Exec, returned, raised, pure, raise, continue}
use lustro_node_agent.Cli.Serve.{
  ServeArgs, Sockets, Output, bound, host_of, port_of, warn, settle_start, start, serve_on,
  cmd_serve_log,
}

module _ {S : Type 0} where
  -- The command returns 0 or 2, or raises.
  abbrev pub Ends : Outcome S ℕ → Type 0
  Ends (returned n s) = (n ≡ 0) ⊎ (n ≡ 2)
  Ends (raised e s) = Unit

  -- The command returns 0, or raises.
  abbrev pub Succeeds : Outcome S ℕ → Type 0
  Succeeds (returned n s) = n ≡ 0
  Succeeds (raised e s) = Unit

  pub Ends-continue :
      {A : Type 0} (o : Outcome S A) (f : A → Exec S ℕ)
      → ((a : A) (s : S) → Ends (f a s))
      → Ends (continue o f)
  Ends-continue (returned a s) f ends = ends a s
  Ends-continue (raised e s) f ends = tt

  pub Ends-if :
      (b : Bool) (m n : Exec S ℕ) (s : S) → Ends (m s) → Ends (n s) → Ends ((if b then m else n) s)
  Ends-if true m n s left right = left
  Ends-if false m n s left right = right

settle_start-Ends :
    (N : Sockets) (r : Result (Unit {0})) (s : List Output) → Ends (settle_start N r s)
settle_start-Ends N (ok _) s = inl refl
settle_start-Ends N (err e) s = Ends-if (N.is_interrupt e) (pure 0) (raise e) s (inl refl) tt

start-Ends :
    (N : Sockets) (host : Text) (port : ℤ) (r : Result (Unit {0})) (s : List Output)
    → Ends (start N host port r s)
start-Ends N host port (ok _) s = settle_start-Ends N (N.serve host port) _
start-Ends N host port (err e) s = Ends-if (N.is_bind_error e) _ (raise e) s (inr refl) tt

serve_on-Ends :
    (N : Sockets) (host : Text) (port : Option ℤ) (s : List Output) → Ends (serve_on N host port s)
serve_on-Ends N host none s = inr refl
serve_on-Ends N host (some port) s =
    Ends-continue (warn N host s) _ (λ _ t. start-Ends N host port (N.bind host port) t)

pub cmd_serve_log-Ends :
    (N : Sockets) (args : ServeArgs) (s : List Output) → Ends (cmd_serve_log N args s)
unfolding cmd_serve_log
cmd_serve_log-Ends N args s = serve_on-Ends N (host_of N args) (port_of N args.port) s

-- The last output is that the dashboard was bound.
abbrev pub WasBound : List Output → Type 0
WasBound outputs =
    (before : List Output) × (host : Text) × (port : ℤ) × (outputs ≡ before ++ bound host port ∷ [])

-- Where the command returns 0, the dashboard was bound.
abbrev pub EndsBound : Outcome (List Output) ℕ → Type 0
EndsBound (returned n s) = n ≡ 0 → WasBound s
EndsBound (raised e s) = Unit

EndsBound-continue :
    {A : Type 0} (o : Outcome (List Output) A) (f : A → Exec (List Output) ℕ)
    → ((a : A) (s : List Output) → EndsBound (f a s))
    → EndsBound (continue o f)
EndsBound-continue (returned a s) f ends = ends a s
EndsBound-continue (raised e s) f ends = tt

EndsBound-if :
    (b : Bool) (m n : Exec (List Output) ℕ) (s : List Output)
    → EndsBound (m s)
    → EndsBound (n s)
    → EndsBound ((if b then m else n) s)
EndsBound-if true m n s left right = left
EndsBound-if false m n s left right = right

settle_start-EndsBound :
    (N : Sockets) (r : Result (Unit {0})) (s : List Output)
    → WasBound s
    → EndsBound (settle_start N r s)
settle_start-EndsBound N (ok _) s was = λ _. was
settle_start-EndsBound N (err e) s was =
    EndsBound-if (N.is_interrupt e) (pure 0) (raise e) s (λ _. was) tt

start-EndsBound :
    (N : Sockets) (host : Text) (port : ℤ) (r : Result (Unit {0})) (s : List Output)
    → EndsBound (start N host port r s)
start-EndsBound N host port (ok _) s =
    settle_start-EndsBound N (N.serve host port) _ (s, host, port, refl)
start-EndsBound N host port (err e) s =
    EndsBound-if (N.is_bind_error e) _ (raise e) s (λ h. absurd (omega (arith, h))) tt

serve_on-EndsBound :
    (N : Sockets) (host : Text) (port : Option ℤ) (s : List Output)
    → EndsBound (serve_on N host port s)
serve_on-EndsBound N host none s = λ h. absurd (omega (arith, h))
serve_on-EndsBound N host (some port) s =
    EndsBound-continue (warn N host s) _ (λ _ t. start-EndsBound N host port (N.bind host port) t)

pub cmd_serve_log-EndsBound :
    (N : Sockets) (args : ServeArgs) (s : List Output) → EndsBound (cmd_serve_log N args s)
unfolding cmd_serve_log
cmd_serve_log-EndsBound N args s = serve_on-EndsBound N (host_of N args) (port_of N args.port) s
