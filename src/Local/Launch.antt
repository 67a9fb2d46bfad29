-- ===== src/Local/Launch.antt =====
-- conduit/_local.py: the constructor of `LocalConduit`, `local`, and the methods passed on.
use mathlib.Core.Option
use conduit_client_python.Prelude.{
  true, ℕ, String, Bool, false, Option, none, some, List, [], ◌∷◌, ◌<>◌,
}
use conduit_client_python.Errors.{Outcome, ok, raised}
use conduit_client_python.Exec.{Exec, pure, raise, ◌>>=◌, ◌>>◌}
use conduit_client_python.Wire.{Info}
use conduit_client_python.Pipeline.{Pipeline}
use conduit_client_python.Client.{Run, World, get_engine_info, run, close}
use conduit_client_python.Session.{exit_result}
use conduit_client_python.Provision.{resolve_version, ensure_binary}
use conduit_client_python.Process.{
  Machine, Act, warned, printed, made_dir, opened_log, spawned, Supervised, act, terminate,
}
use conduit_client_python.Local.{supervised, beside, address, wait_ready}

-- The arguments of `local`; those of the constructor are the same, with the directory resolved.
pub record LocalArgs : Type 0 where
  pub state_dir : Option String
  pub version : Option String
  pub binary : Option String
  pub startup_timeout : ℕ

module _ (M : Machine) where
  -- The arguments of `subprocess.Popen`.
  abbrev pub command : String → String → ℕ → ℕ → List String
  command binary state_dir grpc_port http_port =
      binary
      ∷ "run"
      ∷ "--api.enabled"
      ∷ ("--api.grpc.address=127.0.0.1:" <> M.show_port grpc_port)
      ∷ ("--api.http.address=127.0.0.1:" <> M.show_port http_port)
      ∷ "--db.type=badger"
      ∷ ("--db.badger.path=" <> state_dir <> "/conduit.db")
      ∷ []

  -- `binary` if it is given, else `ensure_binary(version)`
  unfoldable pub find_binary : LocalArgs → Exec (Supervised M.engine.State) String
  find_binary args s = elim (args.binary) [
    | some path ↦ (ok path, s)
    | none ↦
        let (r, host) = ensure_binary M.surroundings M.faults args.version s.host in
        (r, record s { host = host })
  ]

  -- `_free_port`
  unfoldable pub free_port : Exec (Supervised M.engine.State) ℕ
  free_port s = let (r, system) = M.assign_port s.system in (r, record s { system = system })

  -- `self._stopped = False`, `atexit.register(self._atexit_kill)`
  abbrev pub mark_running : Exec (Supervised M.engine.State) (Unit {0})
  mark_running s = (ok tt, record s { stopped = false; registered = true })

  -- The constructor up to its `try`. It returns the port of the API.
  unfoldable pub spawn_engine : String → LocalArgs → Exec (Supervised M.engine.State) ℕ
  unfolding find_binary free_port
  spawn_engine state_dir args = do
    binary ← find_binary args
    grpc_port ← free_port
    http_port ← free_port
    act M (opened_log (state_dir <> "/conduit.log")) (M.open_log (state_dir <> "/conduit.log"))
    let argv = command binary state_dir grpc_port http_port
    act M (spawned argv) (M.spawn argv)
    mark_running
    pure grpc_port

  -- `except BaseException`: what `_terminate` raises takes the place of the exception.
  unfoldable pub undo :
      Outcome (Unit {0}) × World (Supervised M.engine.State)
      → Outcome (Unit {0}) × World (Supervised M.engine.State)
  undo (ok u, w) = (ok u, w)
  undo (raised x, w) = (beside M (terminate M) >> raise x) w

  abbrev pub await_engine :
      ℕ
      → ℕ
      → Outcome ℕ × Supervised M.engine.State
      → Option (Outcome (Unit {0}) × World (Supervised M.engine.State))
  await_engine fuel timeout (raised x, s) =
      some (raised x, record { engine = s; closed = false; trace = [] })
  await_engine fuel timeout (ok port, s) = Option.map undo (
      wait_ready M fuel (address M port) timeout
        (record { engine = s; closed = false; trace = [] }))

  -- `LocalConduit.__init__`
  unfoldable pub start_engine :
      ℕ
      → String
      → LocalArgs
      → Supervised M.engine.State
      → Option (Outcome (Unit {0}) × World (Supervised M.engine.State))
  start_engine fuel state_dir args s =
      await_engine fuel args.startup_timeout (spawn_engine state_dir args s)

  -- The directory of the engine's state, without a slash at its end.
  unfoldable pub state_directory : Option String → String
  state_directory none = M.cwd <> "/.conduit/state"
  state_directory (some dir) = dir

  -- An output.
  abbrev pub tell : Act → Exec (Supervised M.engine.State) (Unit {0})
  tell a = act M a λ t. (ok tt, t)

  -- `if state_dir is None: warnings.warn(…)`
  abbrev pub warn_default : Option String → Exec (Supervised M.engine.State) (Unit {0})
  warn_default (some dir) = pure tt
  warn_default none = tell (
      warned (
        "conduit.local(): no state_dir given, defaulting to "
        <> state_directory none
        <> " (stable across runs in this working directory -- never an ephemeral temp dir, which would silently lose pipeline positions on exit; see the design doc's Mode-1 caveat). Pass state_dir= explicitly for anything beyond a quick local experiment."))

  -- `local` up to its `return`.
  unfoldable pub announce : LocalArgs → Exec (Supervised M.engine.State) (Unit {0})
  unfolding state_directory
  announce args =
      let dir = state_directory args.state_dir in
      warn_default args.state_dir
      >> act M (made_dir dir) (M.make_dir dir)
      >> tell (
          printed (
            "conduit.local(): using engine v"
            <> resolve_version M.surroundings args.version
            <> ", state_dir="
            <> dir))

  abbrev pub construct :
      ℕ
      → LocalArgs
      → Outcome (Unit {0}) × Supervised M.engine.State
      → Option (Outcome (Unit {0}) × World (Supervised M.engine.State))
  construct fuel args (raised x, s) =
      some (raised x, record { engine = s; closed = false; trace = [] })
  construct fuel args (ok u, s) = start_engine fuel (state_directory args.state_dir) args s

  -- `local`
  unfoldable pub local :
      ℕ
      → LocalArgs
      → Supervised M.engine.State
      → Option (Outcome (Unit {0}) × World (Supervised M.engine.State))
  local fuel args s = construct fuel args (announce args s)

  -- The methods that a `LocalConduit` passes on to its client.
  unfoldable pub local_run : Pipeline → Bool → ℕ → Exec (World (Supervised M.engine.State)) Run
  local_run pipeline start timeout = run (supervised M) pipeline start timeout

  unfoldable pub local_get_info : ℕ → Exec (World (Supervised M.engine.State)) Info
  local_get_info timeout = get_engine_info (supervised M) timeout

  unfoldable pub local_close : Exec (World (Supervised M.engine.State)) (Unit {0})
  local_close = close (supervised M) (some (terminate M))

  -- `with local(...) as client: body`, with `__enter__` and `__exit__`, which calls `close`.
  unfoldable pub local_with :
      {A : Type 0}
      → Exec (World (Supervised M.engine.State)) A
      → Exec (World (Supervised M.engine.State)) A
  local_with body w =
      let (r, w') = body w in let (r', w'') = local_close w' in (exit_result r r', w'')
