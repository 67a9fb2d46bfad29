-- ===== src/Process.antt =====
-- conduit/_local.py: the supervised process and its log file, and how they are stopped. The
-- operating system is a parameter: the process may exit at any time, a wait may time out, and the
-- calls may fail. Times are milliseconds.
pub mod Teardown
use conduit_client_python.Prelude.{
  ℕ, zero, suc, ◌-◌, String, Bool, true, false, Option, none, some, List, [], ◌∷◌, ◌++◌,
}
use conduit_client_python.Prelude.Int.{ℤ}
use conduit_client_python.Errors.{
  Exception, os_error, interrupt, timeout_expired, Outcome, ok, raised,
}
use conduit_client_python.Exec.{Exec, pure, lift, ◌>>=◌, ◌>>◌}
use conduit_client_python.Client.{Engine}
use conduit_client_python.Checksums.{Bytes}
use conduit_client_python.Provision.{Surroundings}
use conduit_client_python.Install.{Faults, Host}

-- What the supervisor asks of its host, for one process and its log file.
pub record Machine : Type 1 where
  -- the engine that runs in the process, and the clock
  pub engine : Engine
  -- for the provisioning of the binary
  pub surroundings : Surroundings
  pub faults : Faults
  -- `Path.cwd()`
  pub cwd : String
  pub make_dir : String → engine.State → Outcome (Unit {0}) × engine.State
  -- the port that the system assigns to a socket bound to port 0
  pub assign_port : engine.State → Outcome ℕ × engine.State
  -- `open("ab")`, `close()`
  pub open_log : String → engine.State → Outcome (Unit {0}) × engine.State
  pub close_log : engine.State → Outcome (Unit {0}) × engine.State
  -- the size of the log and then its content, or an `OSError`
  pub read_log : engine.State → Option (ℕ × Bytes)
  -- `subprocess.Popen`, and the methods of the process
  pub spawn : List String → engine.State → Outcome (Unit {0}) × engine.State
  pub poll : engine.State → Option ℤ × engine.State
  pub terminate : engine.State → Outcome (Unit {0}) × engine.State
  pub kill : engine.State → Outcome (Unit {0}) × engine.State
  pub wait : ℕ → engine.State → Outcome (Unit {0}) × engine.State
  -- `decode("utf-8", errors="replace")`, and how Python writes numbers
  pub decode_replace : Bytes → String
  pub show_port : ℕ → String
  pub show_code : ℤ → String
  pub seconds : ℕ → String

-- What has been done, in order; a record of it is kept for the theorems.
pub data Act : Type 0 where
  warned printed made_dir opened_log : String → Act
  spawned : List String → Act
  polled : Option ℤ → Act
  terminated killed closed_log : Act
  waited : ℕ → Act

-- The state of a `LocalConduit`, around the state of the system.
pub record Supervised (S : Type 0) : Type 0 where
  pub system : S
  pub host : Host
  pub stopped : Bool
  -- whether the hook at exit is registered
  pub registered : Bool
  pub acts : List Act

abbrev pub graceful_stop_timeout : ℕ
graceful_stop_timeout = 10000

-- What a file holds from a position on.
unfoldable pub drop : ℕ → Bytes → Bytes
drop zero bytes = bytes
drop (suc n) [] = []
drop (suc n) (b ∷ bytes) = drop n bytes

-- `with contextlib.suppress(OSError)`
abbrev pub suppress_os_error : Outcome (Unit {0}) → Outcome (Unit {0})
suppress_os_error (raised (os_error text)) = ok tt
suppress_os_error r = r

-- `with contextlib.suppress(Exception)`
abbrev pub suppress_exception : Outcome (Unit {0}) → Outcome (Unit {0})
suppress_exception (raised interrupt) = raised interrupt
suppress_exception (raised x) = ok tt
suppress_exception (ok u) = ok u

module _ (M : Machine) where
  -- A call of the system that is recorded.
  abbrev pub act :
      {A : Type 0}
      → Act
      → (M.engine.State → Outcome A × M.engine.State)
      → Exec (Supervised M.engine.State) A
  act a f s =
      let (r, system) = f s.system in (r, record s { system = system; acts = s.acts ++ a ∷ [] })

  -- `self._process.poll()`
  unfoldable pub poll_process : Supervised M.engine.State → Option ℤ × Supervised M.engine.State
  poll_process s =
      let (code, system) = M.poll s.system in
      (code, record s { system = system; acts = s.acts ++ polled code ∷ [] })

  -- `except subprocess.TimeoutExpired`
  abbrev pub kill_if_expired : Outcome (Unit {0}) → Exec (Supervised M.engine.State) (Unit {0})
  kill_if_expired (raised timeout_expired) =
      act killed M.kill >> act (waited graceful_stop_timeout) (M.wait graceful_stop_timeout)
  kill_if_expired r = lift r

  -- `wait` and its handler.
  abbrev pub wait_or_kill : Exec (Supervised M.engine.State) (Unit {0})
  wait_or_kill s =
      let (r, s') = act (waited graceful_stop_timeout) (M.wait graceful_stop_timeout) s in
      kill_if_expired r s'

  -- What is done to a process by its exit code.
  abbrev pub stop_process : Option ℤ → Exec (Supervised M.engine.State) (Unit {0})
  stop_process (some code) = pure tt
  stop_process none = act terminated M.terminate >> wait_or_kill

  abbrev pub close_log_file : Exec (Supervised M.engine.State) (Unit {0})
  close_log_file s = let (r, s') = act closed_log M.close_log s in (suppress_os_error r, s')

  -- `_terminate` behind its test.
  unfoldable pub tear_down : Exec (Supervised M.engine.State) (Unit {0})
  unfolding poll_process
  tear_down s = let (code, s') = poll_process s in (stop_process code >> close_log_file) s'

  -- `_terminate`
  unfoldable pub terminate : Exec (Supervised M.engine.State) (Unit {0})
  terminate s = elim (s.stopped) [
    | true ↦ (ok tt, s)
    | false ↦ tear_down (record s { stopped = true })
  ]

  -- `_atexit_kill`
  unfoldable pub atexit_kill : Exec (Supervised M.engine.State) (Unit {0})
  atexit_kill s = let (r, s') = terminate s in (suppress_exception r, s')

  -- The exit of the host, which calls the hook if it has been registered.
  unfoldable pub exit_host : Exec (Supervised M.engine.State) (Unit {0})
  unfolding atexit_kill
  exit_host s = elim (s.registered) [ true ↦ atexit_kill s | false ↦ (ok tt, s) ]

  -- `_log_tail`
  unfoldable pub log_tail : Supervised M.engine.State → String
  log_tail s = elim (M.read_log s.system) [
    | none ↦ "<log unavailable>"
    | some log ↦ M.decode_replace (drop (log.0 - 4096) log.1)
  ]
