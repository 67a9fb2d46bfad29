-- ===== src/Local/Reaches.antt =====
-- When `local` is sure to return.
use conduit_client_python.Prelude.{
  ℕ, zero, suc, ◌+◌, ◌*◌, ◌≤◌, ◌<◌, ◌≡◌, refl, inl, inr, true, false, String, Option, none, some,
  [], ◌∷◌, ◌++◌, arith, ltb,
}
use conduit_client_python.Errors.{ConduitError, Outcome, ok}
use conduit_client_python.Wire.{Info}
use conduit_client_python.Client.{opened_channel, World, get_engine_info}
use conduit_client_python.Run.{read_clock, pause, after_pause}
use conduit_client_python.Run.Pause.{pause_whole}
use conduit_client_python.Run.Wait.{time-read_clock, time-pause}
use conduit_client_python.Process.{Machine, Supervised}
use conduit_client_python.Local.{
  supervised, address, poll_beside, after_info, ready_loop, wait_ready,
}
use conduit_client_python.Local.Launch.{
  LocalArgs, state_directory, announce, spawn_engine, undo, start_engine, local,
}
use conduit_client_python.Local.Ready.{
  IsMachineClock, supervised-IsClock, time-poll_beside, time-get_engine_info,
}
use conduit_client_python.Local.Serving.{
  IsServing, Live-read_clock, Live-poll_beside, Live-info, Live-pause, read_lag, poll_lives,
  info_lag, pause_lag, info-cases,
}

module _ (M : Machine) (time : M.engine.State → ℕ) (ready lag : ℕ)
    (Live : M.engine.State → Type 0) where
  abbrev W : Type 0
  W = World (Supervised M.engine.State)

  module _ (clock : IsMachineClock M time) (serving : IsServing M time ready lag Live) where
    -- The world is the one behind an answer of `GetInfo`, which a process that lives has given.
    abbrev pub IsProbed : W → Type 0
    IsProbed w =
        (v : W) × (info : Info) × Live v.engine.system
        × ((get_engine_info (supervised M) 1000 v).0 ≡ ok info)
        × (w ≡ (get_engine_info (supervised M) 1000 v).1)

    -- The result of a wait that found the engine ready, no earlier than it began.
    abbrev IsUp : ℕ → Option (Outcome (Unit {0}) × W) → Type 0
    IsUp from result =
        (w : W) × (result ≡ some (ok tt, w)) × (from ≤ time w.engine.system) × IsProbed w

    ready_loop-IsUp :
        (addr : String) (timeout fuel deadline from : ℕ) (last : Option ConduitError) (w : W)
        → Live w.engine.system
        → from ≤ time w.engine.system
        → 0 < fuel
        → deadline < time w.engine.system + fuel
        → time w.engine.system + lag < deadline
        → ready + 100 + 3 * lag ≤ deadline
        → IsUp from (ready_loop M addr timeout fuel deadline last w)
    unfolding ready_loop after_info after_pause
    ready_loop-IsUp addr timeout zero deadline from last w live later some_left enough early room =
        absurd (omega arith)
    ready_loop-IsUp addr timeout (suc fuel) deadline from last w live later some_left enough early
          room =
        let E = supervised M in
        let w1 = (read_clock E w).1 in
        let w2 = (poll_beside M w1).1 in
        let w3 = (get_engine_info E 1000 w2).1 in
        let system_clock = supervised-IsClock M time clock in
        let read = time-read_clock E (λ s. time s.system) system_clock w in
        let lag1 = read_lag M time ready lag Live serving w in
        let before : ltb (read_clock E w).0 deadline ≡ true = ground arith in
        let polled = time-poll_beside M time clock w1 in
        let answered = time-get_engine_info M time clock 1000 w2 in
        let live1 = Live-read_clock M time ready lag Live serving w live in
        let live2 = Live-poll_beside M time ready lag Live serving w1 live1 in
        elim (info-cases M time ready lag Live serving w2 live2) [
          | inl (info, answers) ↦ (
            w3,
            rw (before, ready_loop, poll_lives M time ready lag Live serving w1 live1, answers)
                refl,
            omega arith,
            (w2, info, live2, answers, refl),
          )
          | inr (soon, (e, fails)) ↦
              let whole = serving.uninterrupted 100 w3.engine.system in
              let lag3 = info_lag M time ready lag Live serving w2 in
              let lag4 = pause_lag M time ready lag Live serving w3 in
              let again = time-pause E (λ s. time s.system) system_clock 100 w3 whole in
              rw
                (
                  before,
                  ready_loop,
                  poll_lives M time ready lag Live serving w1 live1,
                  fails,
                  pause_whole E 100 w3 whole,
                  after_pause,
                )
                (ready_loop-IsUp addr timeout fuel deadline from (some e) (pause E 100 w3).1
                  (Live-pause M time ready lag Live serving w3
                    (Live-info M time ready lag Live serving w2 live2))
                  (omega arith) (omega arith) (omega arith) (omega arith) room)
        ]

    wait_ready-IsUp :
        (fuel : ℕ) (addr : String) (timeout : ℕ) (w : W)
        → Live w.engine.system
        → timeout < fuel
        → lag < timeout
        → ready + 100 + 3 * lag ≤ time w.engine.system + timeout
        → IsUp (time w.engine.system) (wait_ready M fuel addr timeout w)
    unfolding wait_ready
    wait_ready-IsUp fuel addr timeout w live enough fast room =
        let E = supervised M in
        let w1 = (read_clock E w).1 in
        let read = time-read_clock E (λ s. time s.system) (supervised-IsClock M time clock) w in
        ready_loop-IsUp addr timeout fuel ((read_clock E w).0 + timeout) (time w.engine.system) none
          (record w1 { trace = w1.trace ++ opened_channel false addr ∷ [] })
          (Live-read_clock M time ready lag Live serving w live) (omega arith) (omega arith)
          (omega arith) (omega arith) (omega arith)

    pub start_engine_reaches :
        (fuel : ℕ) (state_dir : String) (args : LocalArgs) (s : Supervised M.engine.State)
        (port : ℕ)
        → (spawn_engine M state_dir args s).0 ≡ ok port
        → Live (spawn_engine M state_dir args s).1.system
        → args.startup_timeout < fuel
        → lag < args.startup_timeout
        → ready + 100 + 3 * lag
          ≤ time (spawn_engine M state_dir args s).1.system + args.startup_timeout
        → (w : W) × (start_engine M fuel state_dir args s ≡ some (ok tt, w))
          × (time (spawn_engine M state_dir args s).1.system ≤ time w.engine.system)
          × IsProbed w
    unfolding start_engine undo
    start_engine_reaches fuel state_dir args s port spawns live enough fast room =
        let spawned = (spawn_engine M state_dir args s).1 in
        let (w, up, later, probed) =
          wait_ready-IsUp fuel (address M port) args.startup_timeout
            (record { engine = spawned; closed = false; trace = [] }) live enough fast room in
        (w, rw (spawns, up) refl, later, probed)

    -- Where the directory is made, the process is spawned and goes on to live, and its API answers from
    -- some time on and until then fails in a way that the client can translate, on a clock that runs
    -- forward, with sleeps that are not interrupted: `local` returns its client, if the startup
    -- timeout leaves room for one pause and three calls behind that time, and a first call is faster
    -- than the timeout. A round for each millisecond of the timeout, and one more, are enough.
    pub local_reaches :
        (fuel : ℕ) (args : LocalArgs) (s : Supervised M.engine.State) (port : ℕ)
        → (announce M args s).0 ≡ ok tt
        → (spawn_engine M (state_directory M args.state_dir) args (announce M args s).1).0 ≡ ok port
        → Live
            (spawn_engine M (state_directory M args.state_dir) args (announce M args s).1).1.system
        → args.startup_timeout < fuel
        → lag < args.startup_timeout
        → ready + 100 + 3 * lag
          ≤ time
              (spawn_engine M
                (state_directory M args.state_dir)
                args
                (announce M args s).1).1.system
            + args.startup_timeout
        → (w : W) × (local M fuel args s ≡ some (ok tt, w))
    unfolding local
    local_reaches fuel args s port told spawns live enough fast room =
        let (w, starts, _, _) =
          start_engine_reaches fuel (state_directory M args.state_dir) args (announce M args s).1
            port spawns live enough fast room in
        (w, rw told starts)
