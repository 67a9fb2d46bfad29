-- ===== src/Quickstart/Returns.antt =====
-- When the program is sure to return, and what it leaves.
use conduit_client_python.Prelude.{String, ℕ, Bool}
use conduit_client_python.Errors.{Outcome}
use conduit_client_python.Pipeline.{BuildPlan, Pipeline}
use conduit_client_python.Client.{World}
use conduit_client_python.Process.{Machine, Supervised}
use conduit_client_python.Local.Launch.{LocalArgs, state_directory, announce, spawn_engine}

module _ (M : Machine) (alive : M.engine.State → Bool) (time : M.engine.State → ℕ)
    (ready started lag : ℕ) (plan : BuildPlan) (Live Up : M.engine.State → Type 0)
    (Created Started : String → M.engine.State → Type 0) where
  abbrev W : Type 0
  W = World (Supervised M.engine.State)

  -- The call of `Popen`, with what is in front of it.
  abbrev spawning : LocalArgs → Supervised M.engine.State → Outcome ℕ × Supervised M.engine.State
  spawning args s = spawn_engine M (state_directory M args.state_dir) args (announce M args s).1
