-- ===== src/Run/Wait.antt =====
-- When `wait_running` ends.
use conduit_client_python.Prelude.{
  ℕ, zero, suc, ◌+◌, ◌≤◌, ◌<◌, ◌≡◌, refl, inl, inr, Bool-cases, Option, none, some, false, arith,
  ltb, ltb→lt,
}
use conduit_client_python.Errors.{interrupt, Outcome, ok, raised, Outcome-cases}
use conduit_client_python.Wire.{Request, get_pipeline}
use conduit_client_python.Client.{Engine, Run, World, call}
use conduit_client_python.Run.Pause.{pause-cases}
use conduit_client_python.Run.{
  RunStatus, is_running, is_degraded, Format, status, read_clock, pause, degraded_error,
  timeout_error, poll_loop, wait_running, settle, after_pause,
}

-- A clock that does not go back, and that a sleep moves on by its length: what the documentation
-- of `time.monotonic` and `time.sleep` says.
pub record IsClock (E : Engine) (time : E.State → ℕ) : Type 0 where
  pub reads : (s : E.State) → (E.monotonic s).0 ≡ time (E.monotonic s).1
  pub monotonic_le : (s : E.State) → time s ≤ time (E.monotonic s).1
  pub answer_le : (r : Request) (t : ℕ) (s : E.State) → time s ≤ time (E.answer r t s).1
  pub sleep_le : (d : ℕ) (s : E.State) → (E.sleep d s).0 ≡ false → time s + d ≤ time (E.sleep d s).1

module _ (E : Engine) (format : Format) (run : Run) (timeout poll_interval : ℕ) where
  abbrev Next : Type 0
  Next = RunStatus → Option (Outcome RunStatus × World E.State)

  settle_total :
      (r : Outcome RunStatus) (w : World E.State) (next : Next)
      → ((s : RunStatus) → (result : Outcome RunStatus × World E.State) × (next s ≡ some result))
      → (result : Outcome RunStatus × World E.State) × (settle E format run timeout poll_interval r
            w next
          ≡ some result)
  unfolding settle
  settle_total (raised x) w next h = ((raised x, w), refl)
  settle_total (ok s) w next h = elim (Bool-cases (is_running s)) [
    | inl up ↦ ((ok s, w), rw (up, settle) refl)
    | inr down ↦ elim (Bool-cases (is_degraded s)) [
      | inl bad ↦ (
        (raised (degraded_error E format run timeout poll_interval s), w),
        rw (down, bad, settle) refl,
      )
      | inr fine ↦ let (result, e) = h s in (result, rw (down, fine, settle) e)
    ]
  ]

module _ (E : Engine) (run : Run) (t : ℕ) (w : World E.State) where
  -- What follows the call in `status` leaves the world alone.
  pub status-call : (status E run t w).1 ≡ (call E (get_pipeline run.pipeline_id) t w).1
  unfolding status
  status-call = elim (Outcome-cases (call E (get_pipeline run.pipeline_id) t w).0) [
    | inl (response, e) ↦ rw e refl
    | inr (x, e) ↦ rw e refl
  ]

module _ (E : Engine) (time : E.State → ℕ) (clock : IsClock E time) where
  pub time-read_clock :
      (w : World E.State)
      → ((read_clock E w).0 ≡ time (read_clock E w).1.engine)
        × (time w.engine ≤ time (read_clock E w).1.engine)
  unfolding read_clock
  time-read_clock w = (clock.reads w.engine, clock.monotonic_le w.engine)

  pub time-pause :
      (d : ℕ) (w : World E.State)
      → (E.sleep d w.engine).0 ≡ false
      → time w.engine + d ≤ time (pause E d w).1.engine
  unfolding pause
  time-pause d w = clock.sleep_le d w.engine

  pub time-status :
      (run : Run) (t : ℕ) (w : World E.State) → time w.engine ≤ time (status E run t w).1.engine
  unfolding call
  time-status run t w =
      rw (status-call E run t w) (clock.answer_le (get_pipeline run.pipeline_id) t w.engine)

  module _ (format : Format) (run : Run) (timeout poll_interval : ℕ)
      (positive : 0 < poll_interval) where
    poll_loop_total :
        (fuel deadline : ℕ) (last : Option RunStatus) (w : World E.State)
        → 0 < fuel
        → deadline < time w.engine + fuel
        → (result : Outcome RunStatus × World E.State) × (poll_loop E format run timeout
              poll_interval fuel deadline last w
            ≡ some result)
    unfolding poll_loop after_pause
    poll_loop_total zero deadline last w some_left enough = absurd (omega arith)
    poll_loop_total (suc fuel) deadline last w some_left enough =
        let w' = (read_clock E w).1 in
        let w'' = (status E run 5000 w').1 in
        elim (Bool-cases (ltb (read_clock E w).0 deadline)) [
          | inl early ↦
              let before = ltb→lt (read_clock E w).0 deadline early in
              let read = time-read_clock w in
              let answered = time-status run 5000 w' in
              rw (early, poll_loop)
                (settle_total E format run timeout poll_interval (status E run 5000 w').0 w'' _ λ s.
                  elim (pause-cases E poll_interval w'') [
                    | inr (_, cut) ↦ (
                      (raised interrupt, (pause E poll_interval w'').1),
                      rw (cut, after_pause) refl,
                    )
                    | inl (whole, returns) ↦
                        let slept_on = time-pause poll_interval w'' whole in
                        rw (returns, after_pause)
                          (poll_loop_total fuel deadline (some s) (pause E poll_interval w'').1
                            (omega arith) (omega arith))
                  ])
          | inr late ↦ (
            (raised (timeout_error E format run timeout poll_interval last), w'),
            rw (late, poll_loop) refl,
          )
        ]

    -- On a clock that runs forward, with a poll interval that is not 0, `wait_running` ends: a round
    -- for each unit of the timeout, and one more, are enough, whatever the engine answers.
    pub wait_running_total :
        (fuel : ℕ) (w : World E.State)
        → timeout < fuel
        → (result : Outcome RunStatus × World E.State) × (wait_running E format run timeout
              poll_interval fuel w
            ≡ some result)
    unfolding wait_running
    wait_running_total fuel w enough =
        let read = time-read_clock w in
        poll_loop_total fuel ((read_clock E w).0 + timeout) none (read_clock E w).1 (omega arith)
          (omega arith)
