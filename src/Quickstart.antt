-- ===== src/Quickstart.antt =====
-- examples/quickstart.py: the whole library in one program, which builds a pipeline, starts an engine,
-- runs the pipeline on it, waits for it, asks for its status and stops it.
pub mod Quiet
pub mod Working
pub mod Trace
pub mod Body
pub mod Ends
pub mod Returns
use conduit_client_python.Prelude.{ℕ, true, false, Option, none, some, [], ◌∷◌}
use conduit_client_python.Errors.{Outcome, ok, raised}
use conduit_client_python.Exec.{Exec, pure, ◌>>=◌, ◌>>◌}
use conduit_client_python.Pipeline.{Pipeline, object, new_pipeline, source, destination}
use conduit_client_python.Client.{Run, World}
use conduit_client_python.Run.{Format, RunStatus, status, stop, wait_running}
use conduit_client_python.Process.{Machine, Supervised}
use conduit_client_python.Local.{supervised}
use conduit_client_python.Local.Launch.{LocalArgs, local_run}
use conduit_client_python.Local.Whole.{with_local}

unfoldable pub orders_sync : Pipeline
orders_sync =
    destination
      (record {
        plugin = "log";
        name = "";
        settings = none;
        kwargs = ("level", object "info") ∷ [];
      })
      (source
        (record {
          plugin = "generator";
          name = "";
          settings = some (("format.type", object "structured") ∷ []);
          kwargs = ("operations", object "create") ∷ [];
        })
        (new_pipeline "orders-sync" none ""))

-- `local(state_dir="./conduit-state")`: the text of the path has no `./`.
abbrev pub quickstart_args : LocalArgs
quickstart_args = record {
  state_dir = some "conduit-state";
  version = none;
  binary = none;
  startup_timeout = 30000;
}

module _ (M : Machine) (format : Format) where
  abbrev W : Type 0
  W = World (Supervised M.engine.State)

  -- The end of a wait. `none` means that its fuel ran out.
  abbrev pub wait_result : W → Option (Outcome RunStatus × W) → Outcome (Option RunStatus) × W
  wait_result w none = (ok none, w)
  wait_result w (some (ok s, v)) = (ok (some s), v)
  wait_result w (some (raised x, v)) = (raised x, v)

  -- `run.wait_running()`
  unfoldable pub wait_step : ℕ → Run → Exec W (Option RunStatus)
  wait_step fuel handle w =
      wait_result w (wait_running (supervised M) format handle 30000 200 fuel w)

  -- `print(run.status())` and `run.stop()`; what is printed is the result.
  abbrev pub finish : Run → Option RunStatus → Exec W (Option RunStatus)
  finish handle none = pure none
  finish handle (some up) = do
    found ← status (supervised M) handle 5000
    stop (supervised M) handle false 10000
    pure (some found)

  -- The body of the `with` statement, for any pipeline.
  unfoldable pub quickstart_body : ℕ → Pipeline → Exec W (Option RunStatus)
  unfolding local_run
  quickstart_body fuel pipeline = do
    handle ← local_run M pipeline true 10000
    reached ← wait_step fuel handle
    finish handle reached

  unfoldable pub quickstart :
      ℕ → Supervised M.engine.State → Option (Outcome (Option RunStatus) × W)
  quickstart fuel s = with_local M fuel quickstart_args (quickstart_body fuel orders_sync) s
