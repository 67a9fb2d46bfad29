-- ===== src/Quickstart/Working.antt =====
-- An engine that does its work.
use conduit_client_python.Prelude.{String, List, [], ◌∷◌, All, true, ℕ, ◌+◌, ◌≤◌, ◌≡◌, false, arith}
use conduit_client_python.Errors.{ok}
use conduit_client_python.Wire.{Request, Info, get_info, get_pipeline, stop_pipeline}
use conduit_client_python.Client.{Run, World, call, get_engine_info}
use conduit_client_python.Client.Accepted.{Accepts, IsAccepting}
use conduit_client_python.Client.Trace.{script, translate_ok}
use conduit_client_python.Pipeline.{BuildPlan}
use conduit_client_python.Client.Moved.{IsLasting}
use conduit_client_python.Run.Reaches.{IsPrompt, IsHealthy, IsKept}
use conduit_client_python.Process.{Machine, Supervised}
use conduit_client_python.Local.{supervised}
use conduit_client_python.Local.Ready.{IsMachineClock}
use conduit_client_python.Local.Serving.{IsServing}

module _ (M : Machine) (time : M.engine.State → ℕ) (ready started lag : ℕ) (plan : BuildPlan)
    (Live Up : M.engine.State → Type 0) (Created Started : String → M.engine.State → Type 0) where
  abbrev W : Type 0
  W = World (Supervised M.engine.State)

  -- An engine that does its work. A process that lives, and that has only been probed, comes up, and
  -- an answer of `GetInfo` says that it is up; then it creates the pipeline of the plan, accepts the
  -- other requests of the plan for that pipeline, and starts it. While a started pipeline is asked
  -- for its status, and nothing else is done, it stays started, its status is not degraded, and from
  -- a time on it is running; and it can be stopped. Of a pipeline that has not been created or that
  -- has been stopped nothing is said. Each call takes no longer than the lag.
  pub record IsWorking : Type 0 where
    pub serving : IsServing M time ready lag Live
    pub comes_up :
        (s : M.engine.State) (info : Info)
        → Live s
        → (M.engine.answer get_info 1000 s).0 ≡ ok info
        → Up (M.engine.answer get_info 1000 s).1
    pub accepting : IsAccepting M.engine 10000 plan Up Created Started
    pub keeps : (handle : Run) → IsKept M.engine handle (Started handle.pipeline_id)
    pub statuses :
        (handle : Run) → IsHealthy M.engine time handle started lag (Started handle.pipeline_id)
    pub stops :
        (id : String) (s : M.engine.State)
        → Started id s
        → (M.engine.answer (stop_pipeline id false) 10000 s).0 ≡ ok tt
    pub answer_lag :
        (r : Request) (timeout : ℕ) (s : M.engine.State)
        → time (M.engine.answer r timeout s).1 ≤ time s + lag

  module _ (clock : IsMachineClock M time) (working : IsWorking) where
    -- The same of the system under the supervisor.
    abbrev pub now : Supervised M.engine.State → ℕ
    now s = time s.system

    abbrev pub Under : (M.engine.State → Type 0) → Supervised M.engine.State → Type 0
    Under P s = P s.system

    abbrev pub UnderId :
        (String → M.engine.State → Type 0) → String → Supervised M.engine.State → Type 0
    UnderId P id s = P id s.system

    supervised-Accepts :
        (id : String) (rs : List Request)
        → All (λ r. Accepts M.engine 10000 r (Created id) (λ _. Created id)) rs
        → All
            (λ r. Accepts (supervised M) 10000 r (UnderId Created id) (λ _. UnderId Created id))
            rs
    supervised-Accepts id [] accepts = tt
    supervised-Accepts id (r ∷ rest) (accepts, later) =
        ((λ s h. accepts s.system h), supervised-Accepts id rest later)

    pub supervised-IsAccepting :
        IsAccepting (supervised M) 10000 plan (Under Up) (UnderId Created) (UnderId Started)
    supervised-IsAccepting = record {
      creates = λ s h. working.accepting.creates s.system h;
      configures =
          λ id. supervised-Accepts id (script plan id false) (working.accepting.configures id);
      starts = λ id s h. working.accepting.starts id s.system h;
    }

    pub supervised-IsKept :
        (handle : Run) → IsKept (supervised M) handle (UnderId Started handle.pipeline_id)
    supervised-IsKept handle = record {
      answered = λ s h. (working.keeps handle).answered s.system h;
      read = λ s h. (working.keeps handle).read s.system h;
      slept = λ d s h. (working.keeps handle).slept d s.system h;
    }

    pub hooked_lasts : IsLasting (supervised M) (λ s. s.registered ≡ true)
    hooked_lasts = record { answered = λ r timeout s h. h; read = λ s h. h; slept = λ d s h. h }

    pub running_lasts : IsLasting (supervised M) (λ s. s.stopped ≡ false)
    running_lasts = record { answered = λ r timeout s h. h; read = λ s h. h; slept = λ d s h. h }

    pub later_lasts : (from : ℕ) → IsLasting (supervised M) (λ s. from ≤ time s.system)
    later_lasts from = record {
      answered =
          λ r timeout s h. let le = clock.engine_clock.answer_le r timeout s.system in omega arith;
      read = λ s h. let le = clock.engine_clock.monotonic_le s.system in omega arith;
      slept = λ d s h.
          let le =
            clock.engine_clock.sleep_le d s.system (working.serving.uninterrupted d s.system) in
          omega arith;
    }

    pub prompt : (handle : Run) → IsPrompt (supervised M) now handle lag
    prompt handle = record {
      monotonic_lag = λ s. working.serving.monotonic_lag s.system;
      answer_lag = λ s. working.answer_lag (get_pipeline handle.pipeline_id) 5000 s.system;
      sleep_lag = λ d s. working.serving.sleep_lag d s.system;
      uninterrupted = λ d s. working.serving.uninterrupted d s.system;
    }

    -- The engine is up behind an answer of `GetInfo`.
    pub Up-get_engine_info :
        (v w : W) {info : Info}
        → Live v.engine.system
        → (get_engine_info (supervised M) 1000 v).0 ≡ ok info
        → w ≡ (get_engine_info (supervised M) 1000 v).1
        → Up w.engine.system
    unfolding get_engine_info call
    Up-get_engine_info v w {info} live answered after = rw after (
        working.comes_up v.engine.system info live
          (translate_ok (M.engine.answer get_info 1000 v.engine.system).0 answered))
