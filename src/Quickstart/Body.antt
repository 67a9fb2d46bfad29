-- ===== src/Quickstart/Body.antt =====
-- When the body of the program is sure to return.
use conduit_client_python.Prelude.{
  sym, ◌∙◌, String, ap, ◌∷◌, ◌++◌, ℕ, ◌+◌, ◌*◌, ◌≤◌, ◌<◌, ◌≡◌, refl, true, false, some, arith,
}
use conduit_client_python.Errors.{Outcome, ok}
use conduit_client_python.Wire.{create_pipeline, stop_pipeline}
use conduit_client_python.Pipeline.{BuildPlan, Pipeline, build_requests}
use conduit_client_python.Client.{World, Run, run, call, translate}
use conduit_client_python.Client.Accepted.{run_accepted}
use conduit_client_python.Client.Trace.{script, calls}
use conduit_client_python.Client.Moved.{lasting}
use conduit_client_python.Run.{
  Format, RunStatus, is_degraded, status, stop, wait_running, read_clock,
}
use conduit_client_python.Client.Sequence.{run_returned}
use conduit_client_python.Run.Ending.{wait_running-Result}
use conduit_client_python.Quickstart.Trace.{BodyDone, stop-BodyDone}
use conduit_client_python.Run.Reaches.{IsHealthy, status_healthy, wait_running_reaches, Up-status}
use conduit_client_python.Session.Quiet.{run-IsQuietly}
use conduit_client_python.Process.{Machine, Supervised}
use conduit_client_python.Local.{supervised}
use conduit_client_python.Local.Launch.{local_run}
use conduit_client_python.Local.Ready.{IsMachineClock, supervised-IsClock}
use conduit_client_python.Quickstart.{wait_step, quickstart_body}
use conduit_client_python.Quickstart.Working.{
  IsWorking, supervised-IsKept, supervised-IsAccepting, later_lasts, prompt,
}

module _ (M : Machine) (time : M.engine.State → ℕ) (ready started lag : ℕ) (plan : BuildPlan)
    (Live Up : M.engine.State → Type 0) (Created Started : String → M.engine.State → Type 0) where
  abbrev W : Type 0
  W = World (Supervised M.engine.State)

  abbrev now : Supervised M.engine.State → ℕ
  now s = time s.system

  -- A pipeline has been started, on the system under the supervisor.
  abbrev Runs : Run → Supervised M.engine.State → Type 0
  Runs handle s = Started handle.pipeline_id s.system

  module _ (clock : IsMachineClock M time)
      (working : IsWorking M time ready started lag plan Live Up Created Started)
      (format : Format) where
    -- The wait for a pipeline that has been started, and the question behind it.
    waits_for :
        (fuel : ℕ) (handle : Run) (w : W)
        → Runs handle w.engine
        → 30000 < fuel
        → lag < 30000
        → started + 200 + 3 * lag ≤ now w.engine + 30000
        → (reached : RunStatus) × (w2 : W) × (wait_running
              (supervised M)
              format
              handle
              30000
              200
              fuel
              w
            ≡ some (ok reached, w2))
          × (found : RunStatus) × ((status (supervised M) handle 5000 w2).0 ≡ ok found)
          × (is_degraded found ≡ false)
          × Runs handle (status (supervised M) handle 5000 w2).1.engine
    waits_for fuel handle w up enough fast room =
        let E = supervised M in
        let kept =
          supervised-IsKept M time ready started lag plan Live Up Created Started clock working
            handle in
        let prompt' =
          prompt M time ready started lag plan Live Up Created Started clock working handle in
        let clock' = supervised-IsClock M time clock in
        let healthy : IsHealthy E now handle started lag (Runs handle) =
          λ s h. working.statuses handle s.system h in
        let (reached, w2, waits, running, up2) =
          wait_running_reaches E now handle started lag (Runs handle) kept clock' prompt' healthy
            format 30000 200 (omega arith) fuel w up enough fast room in
        let (found, asks, fine, _) =
          status_healthy E now handle started lag (Runs handle) kept clock' prompt' healthy w2
            up2 in
        (
          reached,
          w2,
          waits,
          found,
          asks,
          fine,
          Up-status E now handle started lag (Runs handle) kept clock' prompt' healthy w2 up2,
        )

    pub body_returns :
        (fuel : ℕ) (p : Pipeline) (from : ℕ) (w : W)
        → build_requests p ≡ ok plan
        → Up w.engine.system
        → from ≤ time w.engine.system
        → 30000 < fuel
        → lag < 30000
        → started + 200 + 3 * lag ≤ from + 30000
        → (found : RunStatus) × ((quickstart_body M format fuel p w).0 ≡ ok (some found))
          × (is_degraded found ≡ false)
          × BodyDone M format plan w (quickstart_body M format fuel p w).1
    unfolding quickstart_body local_run wait_step stop call read_clock
    body_returns fuel p from w built up later enough fast room =
        let E = supervised M in
        let (handle, runs, up1) =
          run_accepted E 10000 plan (λ s. Up s.system) (λ id s. Created id s.system)
            (λ id s. Started id s.system)
            (supervised-IsAccepting M time ready started lag plan Live Up Created Started clock
              working)
            p w built up in
        let w1 = (run E p true 10000 w).1 in
        let later1 : from ≤ time w1.engine.system =
          lasting E (λ s. from ≤ time s.system)
            (later_lasts M time ready started lag plan Live Up Created Started clock working from)
            (run-IsQuietly E p true 10000 w).engine later in
        let (reached, w2, waits, found, asks, fine, up3) =
          waits_for fuel handle w1 up1 enough fast (omega arith) in
        let w3 = (status E handle 5000 w2).1 in
        let stops : (call E (stop_pipeline handle.pipeline_id false) 10000 w3).0 ≡ ok tt =
          ap (λ (r : Outcome (Unit {0})). translate r)
            (working.stops handle.pipeline_id w3.engine.system up3) in
        let (created, _, named, submitted) = run_returned E 10000 p plan true w built runs in
        let ran : w1.trace
            ≡ w.trace
              ++ calls 10000
                  (create_pipeline plan.create_pipeline ∷ script plan handle.pipeline_id true) =
          submitted
          ∙ ap
              (λ (id : String).
                w.trace ++ calls 10000 (create_pipeline plan.create_pipeline ∷ script plan id true))
              (sym named) in
        let ends = wait_running-Result E format handle 30000 200 fuel w1 (ok reached, w2) waits in
        let done =
          stop-BodyDone M format plan handle ends.events w w1 w2 ends.only_polls ran ends.trace in
        (found, rw (runs, waits, asks, stops) refl, fine, rw (runs, waits, asks, stops) done)
