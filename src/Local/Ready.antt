-- ===== src/Local/Ready.antt =====
-- When and how the wait for an engine ends.
use conduit_client_python.Prelude.{
  ℕ, zero, suc, ◌+◌, ◌≤◌, ◌<◌, ◌≡◌, refl, inl, inr, Bool-cases, Option-cases, false, String, Option,
  none, some, [], ◌∷◌, ◌++◌, arith, ltb, ltb→lt,
}
use conduit_client_python.Errors.{ConduitError, conduit, interrupt, Outcome, ok, raised}
use conduit_client_python.Wire.{Info, get_info}
use conduit_client_python.Client.{opened_channel, World, call, get_engine_info}
use conduit_client_python.Run.{read_clock, pause, after_pause}
use conduit_client_python.Run.Pause.{pause-cases}
use conduit_client_python.Run.Wait.{IsClock, time-read_clock, time-pause}
use conduit_client_python.Process.{Machine, Supervised, poll_process}
use conduit_client_python.Local.{
  supervised, poll_beside, shut, crashed_error, unreachable_error, after_info, ready_loop,
  wait_ready,
}

-- A host whose clock does not go back, and is moved on by a sleep.
pub record IsMachineClock (M : Machine) (time : M.engine.State → ℕ) : Type 0 where
  pub engine_clock : IsClock M.engine time
  pub poll_le : (s : M.engine.State) → time s ≤ time (M.poll s).1

module _ (M : Machine) where
  abbrev W : Type 0
  W = World (Supervised M.engine.State)

  abbrev Next : Type 0
  Next = ConduitError → Option (Outcome (Unit {0}) × W)

  after_info_total :
      (reply : Outcome Info) (w : W) (next : Next)
      → ((e : ConduitError) → (result : Outcome (Unit {0}) × W) × (next e ≡ some result))
      → (result : Outcome (Unit {0}) × W) × (after_info M reply w next ≡ some result)
  unfolding after_info
  after_info_total (ok info) w next h = ((ok tt, w), refl)
  after_info_total (raised (conduit e)) w next h = h e
  after_info_total (raised x) w next h = ((raised x, w), refl)

  module _ (time : M.engine.State → ℕ) (clock : IsMachineClock M time) where
    pub supervised-IsClock : IsClock (supervised M) (λ s. time s.system)
    supervised-IsClock = record {
      reads = λ s. clock.engine_clock.reads s.system;
      monotonic_le = λ s. clock.engine_clock.monotonic_le s.system;
      answer_le = λ r t s. clock.engine_clock.answer_le r t s.system;
      sleep_le = λ d s whole. clock.engine_clock.sleep_le d s.system whole;
    }

    pub time-poll_beside : (w : W) → time w.engine.system ≤ time (poll_beside M w).1.engine.system
    unfolding poll_beside poll_process
    time-poll_beside w = clock.poll_le w.engine.system

    pub time-get_engine_info :
        (t : ℕ) (w : W)
        → time w.engine.system ≤ time (get_engine_info (supervised M) t w).1.engine.system
    unfolding get_engine_info call
    time-get_engine_info t w = clock.engine_clock.answer_le get_info t w.engine.system

    ready_loop_total :
        (addr : String) (timeout fuel deadline : ℕ) (last : Option ConduitError) (w : W)
        → 0 < fuel
        → deadline < time w.engine.system + fuel
        → (result : Outcome (Unit {0}) × W) × (ready_loop M addr timeout fuel deadline last w
            ≡ some result)
    unfolding ready_loop after_pause
    ready_loop_total addr timeout zero deadline last w some_left enough = absurd (omega arith)
    ready_loop_total addr timeout (suc fuel) deadline last w some_left enough =
        let E = supervised M in
        let w1 = (read_clock E w).1 in
        let w2 = (poll_beside M w1).1 in
        let w3 = (get_engine_info E 1000 w2).1 in
        elim (Bool-cases (ltb (read_clock E w).0 deadline)) [
          | inr late ↦ (
            (raised (unreachable_error M addr timeout last (shut M w1).engine), shut M w1),
            rw (late, ready_loop) refl,
          )
          | inl early ↦ elim (Option-cases (poll_beside M w1).0) [
            | inr (n, exits) ↦ (
              (raised (crashed_error M n (shut M w2).engine), shut M w2),
              rw (early, ready_loop, exits) refl,
            )
            | inl runs ↦
                let before = ltb→lt (read_clock E w).0 deadline early in
                let read = time-read_clock E (λ s. time s.system) supervised-IsClock w in
                let asked = time-poll_beside w1 in
                let answered = time-get_engine_info 1000 w2 in
                rw (early, ready_loop, runs)
                  (after_info_total (get_engine_info E 1000 w2).0 w3 _ λ e.
                    elim (pause-cases E 100 w3) [
                      | inr (_, cut) ↦
                          ((raised interrupt, (pause E 100 w3).1), rw (cut, after_pause) refl)
                      | inl (whole, returns) ↦
                          let slept_on =
                            time-pause E (λ s. time s.system) supervised-IsClock 100 w3 whole in
                          rw (returns, after_pause)
                            (ready_loop_total addr timeout fuel deadline (some e) (pause E 100 w3).1
                              (omega arith) (omega arith))
                    ])
          ]
        ]

    -- On a host whose clock runs forward, `_wait_ready` ends: a round for each millisecond of the
    -- timeout, and one more, are enough, whatever the process and its engine do.
    pub wait_ready_total :
        (fuel : ℕ) (addr : String) (timeout : ℕ) (w : W)
        → timeout < fuel
        → (result : Outcome (Unit {0}) × W) × (wait_ready M fuel addr timeout w ≡ some result)
    unfolding wait_ready
    wait_ready_total fuel addr timeout w enough =
        let w1 = (read_clock (supervised M) w).1 in
        let read = time-read_clock (supervised M) (λ s. time s.system) supervised-IsClock w in
        ready_loop_total addr timeout fuel ((read_clock (supervised M) w).0 + timeout) none
          (record w1 { trace = w1.trace ++ opened_channel false addr ∷ [] }) (omega arith)
          (omega arith)
