-- ===== src/Cli/Serve.antt =====
-- `serve-log`: where the dashboard is bound, and what is written to the error stream before.
pub mod Warned
use lustro_node_agent.Base.{
  ℕ, ℤ, pos, Bool, true, false, ◌||◌, Option, none, some, List, [], ◌∷◌, ◌++◌, if◌then◌else◌,
}
use lustro_node_agent.Base.Text.{Text, text, text_eq}
use lustro_node_agent.Base.Result.{Exn, Result, ok, err}
use lustro_node_agent.Base.Exec.{Outcome, Exec, returned, raised, pure, raise, ◌>>=◌, ◌>>◌}
use lustro_node_agent.CorePin.{Environ}

-- `DEFAULT_PORT` of logwall.py
abbrev pub default_port : ℕ
default_port = 8787

-- `DEFAULT_HOST` of logwall.py
abbrev pub default_host : Text
default_host = text "127.0.0.1"

pub record ServeArgs : Type 0 where
  pub host : Option Text
  pub port : Option ℤ

-- What the command does that others see
pub data Output : Type 0 where
  port_refused : Output
  warned : Text → Output
  cannot_bind : Text → ℤ → Output
  bound : Text → ℤ → Output

-- `int` of a text, the environment, and the socket: `LogWallServer(…)`, then whether an exception of
-- it is an `OSError` or an `OverflowError`.
pub record Sockets : Type 0 where
  pub parse_int : Text → Option ℤ
  pub environ : Environ
  pub bind : Text → ℤ → Result (Unit {0})
  pub is_bind_error : Exn → Bool
  -- `server.start(…)`, which ends with an exception or a shutdown, and whether an exception is a
  -- `KeyboardInterrupt`
  pub serve : Text → ℤ → Result (Unit {0})
  pub is_interrupt : Exn → Bool

abbrev pub emit : Output → Exec (List Output) (Unit {0})
emit o s = returned tt (s ++ o ∷ [])

-- `host in ("127.0.0.1", "localhost")`
unfoldable pub is_local : Text → Bool
is_local host = text_eq host (text "127.0.0.1") || text_eq host (text "localhost")

module _ (N : Sockets) where
  abbrev pub host_or : Option Text → Text → Text
  host_or none fallback = fallback
  host_or (some h) fallback = h

  unfoldable pub host_of : ServeArgs → Text
  host_of args = host_or args.host (host_or (N.environ "LUSTRO_LOGWALL_HOST") default_host)

  abbrev pub env_port : Option Text → Option ℤ
  env_port none = some (pos default_port)
  env_port (some t) = N.parse_int t

  unfoldable pub port_of : Option ℤ → Option ℤ
  port_of none = env_port (N.environ "LUSTRO_LOGWALL_PORT")
  port_of (some p) = some p

  unfoldable pub warn : Text → Exec (List Output) (Unit {0})
  warn host = if is_local host then pure tt else emit (warned host)

  -- The `try` around `server.start`
  abbrev pub settle_start : Result (Unit {0}) → Exec (List Output) ℕ
  settle_start (ok _) = pure 0
  settle_start (err e) = if N.is_interrupt e then pure 0 else raise e

  abbrev pub start : Text → ℤ → Result (Unit {0}) → Exec (List Output) ℕ
  start host port (ok _) = do emit (bound host port); settle_start (N.serve host port)
  start host port (err e) =
      if N.is_bind_error e then (do emit (cannot_bind host port); pure 2) else raise e

  abbrev pub serve_on : Text → Option ℤ → Exec (List Output) ℕ
  serve_on host none = do emit port_refused; pure 2
  serve_on host (some port) = do warn host; start host port (N.bind host port)

  -- `cmd_serve_log`
  unfoldable pub cmd_serve_log : ServeArgs → Exec (List Output) ℕ
  unfolding host_of port_of warn
  cmd_serve_log args = serve_on (host_of args) (port_of args.port)
