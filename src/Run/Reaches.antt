-- ===== src/Run/Reaches.antt =====
-- When `wait_running` is sure to return a running status.
use conduit_client_python.Prelude.{
  ℕ, zero, suc, ◌+◌, ◌*◌, ◌≤◌, ◌<◌, ◌≡◌, refl, inl, inr, Bool-cases, true, false, Option, none,
  some, arith, ltb, ltb→lt, ltb→le, Bool,
}
use conduit_client_python.Errors.{Outcome, ok}
use conduit_client_python.Wire.{PipelineMessage, get_pipeline}
use conduit_client_python.Client.{Engine, Run, World, call}
use conduit_client_python.Run.{
  RunStatus, is_running, is_degraded, Format, run_status, status, read_clock, pause, poll_loop,
  wait_running, settle, after_pause,
}
use conduit_client_python.Run.Pause.{pause_whole}
use conduit_client_python.Run.Wait.{IsClock, status-call, time-read_clock, time-status, time-pause}

module _ (E : Engine) (time : E.State → ℕ) (run : Run) (lag : ℕ) where
  -- Each call takes no longer than the lag: reading the clock, asking for the pipeline, and a sleep
  -- beyond its length. No sleep is interrupted.
  pub record IsPrompt : Type 0 where
    pub monotonic_lag : (s : E.State) → time (E.monotonic s).1 ≤ time s + lag
    pub answer_lag :
        (s : E.State) → time (E.answer (get_pipeline run.pipeline_id) 5000 s).1 ≤ time s + lag
    pub sleep_lag : (d : ℕ) (s : E.State) → time (E.sleep d s).1 ≤ time s + d + lag
    pub uninterrupted : (d : ℕ) (s : E.State) → (E.sleep d s).0 ≡ false

module _ (E : Engine) (run : Run) (Up : E.State → Type 0) where
  -- What lasts while the client waits for its pipeline: over an answer for this pipeline, over a
  -- reading of the clock, and over a sleep. Nothing is said of other requests.
  pub record IsKept : Type 0 where
    pub answered : (s : E.State) → Up s → Up (E.answer (get_pipeline run.pipeline_id) 5000 s).1
    pub read : (s : E.State) → Up s → Up (E.monotonic s).1
    pub slept : (d : ℕ) (s : E.State) → Up s → Up (E.sleep d s).1

module _ (E : Engine) (time : E.State → ℕ) (run : Run) (ready lag : ℕ) (Up : E.State → Type 0) where
  -- While the pipeline is up, the engine answers for it, with a status that is not degraded, and
  -- that is running from a time on.
  abbrev pub IsHealthy : Type 0
  IsHealthy =
      (s : E.State)
      → Up s
      → (m : PipelineMessage) × ((E.answer (get_pipeline run.pipeline_id) 5000 s).0 ≡ ok m)
        × ((found : RunStatus) × (run_status m.state ≡ ok found)
            × (is_degraded found ≡ false)
            × (ready ≤ time s → is_running found ≡ true))

  module _ (kept : IsKept E run Up) (clock : IsClock E time) (prompt : IsPrompt E time run lag)
      (healthy : IsHealthy) where
    pub status_healthy :
        (w : World E.State)
        → Up w.engine
        → (found : RunStatus) × ((status E run 5000 w).0 ≡ ok found)
          × (is_degraded found ≡ false)
          × (ready ≤ time w.engine → is_running found ≡ true)
    unfolding status call
    status_healthy w is_up =
        let (m, answers, (found, same, fine, up)) = healthy w.engine is_up in
        (found, rw (answers, same) refl, fine, up)

    Up-read_clock : (w : World E.State) → Up w.engine → Up (read_clock E w).1.engine
    unfolding read_clock
    Up-read_clock w is_up = kept.read w.engine is_up

    pub Up-status : (w : World E.State) → Up w.engine → Up (status E run 5000 w).1.engine
    unfolding call
    Up-status w is_up = rw (status-call E run 5000 w) (kept.answered w.engine is_up)

    Up-pause : (d : ℕ) (w : World E.State) → Up w.engine → Up (pause E d w).1.engine
    unfolding pause
    Up-pause d w is_up = kept.slept d w.engine is_up

    status_lag : (w : World E.State) → time (status E run 5000 w).1.engine ≤ time w.engine + lag
    unfolding call
    status_lag w = rw (status-call E run 5000 w) (prompt.answer_lag w.engine)

    read_lag : (w : World E.State) → time (read_clock E w).1.engine ≤ time w.engine + lag
    unfolding read_clock
    read_lag w = prompt.monotonic_lag w.engine

    pause_lag : (d : ℕ) (w : World E.State) → time (pause E d w).1.engine ≤ time w.engine + d + lag
    unfolding pause
    pause_lag d w = prompt.sleep_lag d w.engine

    module _ (format : Format) (timeout poll_interval : ℕ) (positive : 0 < poll_interval) where
      not_ready : (b : Bool) (from now : ℕ) → (from ≤ now → b ≡ true) → b ≡ false → now < from
      not_ready b from now up down = elim (Bool-cases (ltb now from)) [
        | inl early ↦ ltb→lt now from early
        | inr late ↦ absurd (cc (up (ltb→le now from late), down))
      ]

      -- The result is a running status, of a pipeline that is still up.
      abbrev pub IsReached : Option (Outcome RunStatus × World E.State) → Type 0
      IsReached result =
          (s : RunStatus) × (w : World E.State) × (result ≡ some (ok s, w))
          × (is_running s ≡ true)
          × Up w.engine

      settle-IsReached :
          (found : RunStatus) (w : World E.State)
          (next : RunStatus → Option (Outcome RunStatus × World E.State))
          → is_degraded found ≡ false
          → Up w.engine
          → (is_running found ≡ false → IsReached (next found))
          → IsReached (settle E format run timeout poll_interval (ok found) w next)
      unfolding settle
      settle-IsReached found w next fine is_up more = elim (Bool-cases (is_running found)) [
        | inl up ↦ rw (up, settle) (found, w, refl, up, is_up)
        | inr down ↦ rw (down, fine, settle) (more down)
      ]

      poll_loop-IsReached :
          (fuel deadline : ℕ) (last : Option RunStatus) (w : World E.State)
          → Up w.engine
          → 0 < fuel
          → deadline < time w.engine + fuel
          → time w.engine + lag < deadline
          → ready + poll_interval + 3 * lag ≤ deadline
          → IsReached (poll_loop E format run timeout poll_interval fuel deadline last w)
      unfolding poll_loop after_pause
      poll_loop-IsReached zero deadline last w is_up some_left enough early late =
          absurd (omega arith)
      poll_loop-IsReached (suc fuel) deadline last w is_up some_left enough early late =
          let w' = (read_clock E w).1 in
          let w'' = (status E run 5000 w').1 in
          let read = time-read_clock E time clock w in
          let lag1 = read_lag w in
          let lag2 = status_lag w' in
          let whole = prompt.uninterrupted poll_interval w''.engine in
          let lag3 = pause_lag poll_interval w'' in
          let before : ltb (read_clock E w).0 deadline ≡ true = ground arith in
          let (found, answer, fine, up) = status_healthy w' (Up-read_clock w is_up) in
          let is_up' = Up-pause poll_interval w'' (Up-status w' (Up-read_clock w is_up)) in
          rw (before, poll_loop, answer)
            (settle-IsReached found w'' _ fine (Up-status w' (Up-read_clock w is_up)) λ down.
              let waits : time w'.engine < ready = not_ready _ _ _ up down in
              let again = time-pause E time clock poll_interval w'' whole in
              let answered = time-status E time clock run 5000 w' in
              rw (pause_whole E poll_interval w'' whole, after_pause)
                (poll_loop-IsReached fuel deadline (some found) (pause E poll_interval w'').1 is_up'
                  (omega arith) (omega arith) (omega arith) late))

      -- On a clock that runs forward, with sleeps that are not interrupted, for a pipeline that is up
      -- at the start and stays so while the client only asks for it, reads the clock and sleeps, and
      -- for which the engine answers, while it is up, with a status that is not degraded, and that is
      -- running from some time on: `wait_running` returns a running status and leaves the pipeline up,
      -- if the deadline leaves room for one poll interval and three calls behind that time, and a
      -- first call is faster than the timeout. A round for each unit of the timeout, and one more, are
      -- enough.
      pub wait_running_reaches :
          (fuel : ℕ) (w : World E.State)
          → Up w.engine
          → timeout < fuel
          → lag < timeout
          → ready + poll_interval + 3 * lag ≤ time w.engine + timeout
          → (s : RunStatus) × (v : World E.State) × (wait_running E format run timeout poll_interval
                fuel w
              ≡ some (ok s, v))
            × (is_running s ≡ true)
            × Up v.engine
      unfolding wait_running
      wait_running_reaches fuel w is_up enough fast room =
          let read = time-read_clock E time clock w in
          poll_loop-IsReached fuel ((read_clock E w).0 + timeout) none (read_clock E w).1
            (Up-read_clock w is_up) (omega arith) (omega arith) (omega arith) (omega arith)
