-- ===== src/Local/Start.antt =====
-- What the start of an engine leaves behind, when it returns and when it raises.
use mathlib.Core.Option.{some-injective, none-ne-some}
use conduit_client_python.Prelude.{
  true, ℕ, ◌<◌, ◌≡◌, refl, ◌∙◌, sym, ap, ◌⊎◌, inl, inr, Option-cases, false, String, some, [], ◌∷◌,
  arith,
}
use conduit_client_python.Errors.{Exception, Outcome, ok, raised, Outcome-cases, ok≢raised}
use conduit_client_python.Wire.{Info}
use conduit_client_python.Client.{World, opened_channel, get_engine_info}
use conduit_client_python.Process.{Machine, Supervised, terminate}
use conduit_client_python.Process.Teardown.{IsTornDown, terminate-IsTornDown}
use conduit_client_python.Local.{supervised, address, wait_ready}
use conduit_client_python.Local.Launch.{
  LocalArgs, spawn_engine, undo, start_engine, announce, local, state_directory,
}
use conduit_client_python.Local.Ready.{IsMachineClock, wait_ready_total}
use conduit_client_python.Local.Since.{Since}
use conduit_client_python.Local.Outcomes.{Readied, ready, stopped-Readied, wait_ready-Readied}

module _ (M : Machine) where
  abbrev W : Type 0
  W = World (Supervised M.engine.State)

  abbrev connected : Supervised M.engine.State → W
  connected s = record { engine = s; closed = false; trace = [] }

  module _ (state_dir : String) (args : LocalArgs) (s : Supervised M.engine.State) where
    stopped-spawn_engine :
        {port : ℕ}
        → (spawn_engine M state_dir args s).0 ≡ ok port
        → ((spawn_engine M state_dir args s).1.stopped ≡ false)
          × ((spawn_engine M state_dir args s).1.registered ≡ true)
    unfolding spawn_engine
    stopped-spawn_engine h = (ground arith, ground arith)

    -- How a start fails: before the process runs, or behind it, and then it is torn down.
    pub data Unstarted (fuel : ℕ) (x : Exception) (w : W) : Type 0 where
      unspawned :
          (spawn_engine M state_dir args s).0 ≡ raised x
          → w ≡ connected (spawn_engine M state_dir args s).1
          → Unstarted fuel x w
      undone :
          (port : ℕ) (cause : Exception) (v : W)
          → (spawn_engine M state_dir args s).0 ≡ ok port
          → wait_ready M fuel
              (address M port)
              args.startup_timeout
              (connected (spawn_engine M state_dir args s).1)
            ≡ some (raised cause, v)
          → v.engine.stopped ≡ false
          → (x ≡ cause) ⊎ ((terminate M v.engine).0 ≡ raised x)
          → w.engine ≡ (terminate M v.engine).1
          → IsTornDown M v.engine.system v.engine (terminate M v.engine)
          → Unstarted fuel x w

    -- How a start succeeds: the process has not been stopped, and its engine has answered.
    pub record Started (w : W) : Type 0 where
      pub port : ℕ
      pub spawned : (spawn_engine M state_dir args s).0 ≡ ok port
      pub info : Info
      pub before : W
      pub answered : (get_engine_info (supervised M) 1000 before).0 ≡ ok info
      pub after : w ≡ (get_engine_info (supervised M) 1000 before).1
      pub since :
          Since M
            (record (connected (spawn_engine M state_dir args s).1) {
              trace = opened_channel false (address M port) ∷ [];
            })
            w
      pub stopped : w.engine.stopped ≡ false
      pub registered : w.engine.registered ≡ true
      pub closed : w.closed ≡ false

    undo_raised :
        (fuel port : ℕ) (result : Outcome (Unit {0}) × W) {x : Exception} {w : W}
        → (spawn_engine M state_dir args s).0 ≡ ok port
        → wait_ready M fuel
            (address M port)
            args.startup_timeout
            (connected (spawn_engine M state_dir args s).1)
          ≡ some result
        → result.1.engine.stopped ≡ false
        → undo M result ≡ (raised x, w)
        → Unstarted fuel x w
    unfolding undo
    undo_raised fuel port (ok u, v) spawns ends running h =
        absurd (ok≢raised (ap (λ (p : Outcome (Unit {0}) × W). p.0) h))
    undo_raised fuel port (raised cause, v) {x} {w} spawns ends running h =
        let down = terminate-IsTornDown M v.engine running in
        elim (Outcome-cases (terminate M v.engine).0) [
          | inl (u, stops) ↦
              let h' : (raised cause, record v { engine = (terminate M v.engine).1 })
                  ≡ (raised x, w) =
                (rw stops at h) in
              undone port cause v spawns ends running (inl (cc h'))
                (sym (ap (λ (p : Outcome (Unit {0}) × W). p.1.engine) h')) down
          | inr (y, fails) ↦
              let h' : (raised y, record v { engine = (terminate M v.engine).1 }) ≡ (raised x, w) =
                (rw fails at h) in
              undone port cause v spawns ends running
                (inr (fails ∙ ap (λ (p : Outcome (Unit {0}) × W). p.0) h'))
                (sym (ap (λ (p : Outcome (Unit {0}) × W). p.1.engine) h')) down
        ]

    undo_returned :
        (result : Outcome (Unit {0}) × W) {w : W} → undo M result ≡ (ok tt, w) → result ≡ (ok tt, w)
    unfolding undo
    undo_returned (ok u, v) h = h
    undo_returned (raised cause, v) h = elim (Outcome-cases (terminate M v.engine).0) [
      | inl (u, ends) ↦
          absurd (ok≢raised (ap (λ (p : Outcome (Unit {0}) × W). p.0) (sym (rw ends at h))))
      | inr (y, fails) ↦
          absurd (ok≢raised (ap (λ (p : Outcome (Unit {0}) × W). p.0) (sym (rw fails at h))))
    ]

    answered_at :
        (port deadline : ℕ) {w : W}
        → (spawn_engine M state_dir args s).0 ≡ ok port
        → Readied M
            (address M port)
            args.startup_timeout
            deadline
            (record (connected (spawn_engine M state_dir args s).1) {
              trace = opened_channel false (address M port) ∷ [];
            })
            (ok tt, w)
        → Started w
    answered_at port deadline spawns (ready info before answered since) = record {
      port = port;
      spawned = spawns;
      info = info;
      before = before;
      answered = answered;
      after = refl;
      since = since;
      stopped = since.stopped ∙ (stopped-spawn_engine spawns).0;
      registered = since.registered ∙ (stopped-spawn_engine spawns).1;
      closed = since.closed;
    }

    module _ (fuel : ℕ) where
      -- What `wait_ready` had to do with a start whose process was spawned.
      awaited :
          {port : ℕ} {result : Outcome (Unit {0}) × W}
          → (spawn_engine M state_dir args s).0 ≡ ok port
          → start_engine M fuel state_dir args s ≡ some result
          → (end : Outcome (Unit {0}) × W) × (wait_ready M fuel
                (address M port)
                args.startup_timeout
                (connected (spawn_engine M state_dir args s).1)
              ≡ some end)
            × (undo M end ≡ result)
      unfolding start_engine
      awaited {port} spawns h =
          elim (Option-cases (
            wait_ready M fuel (address M port) args.startup_timeout
              (connected (spawn_engine M state_dir args s).1))) [
                | inl stuck ↦ absurd (none-ne-some _ (rw (spawns, stuck) at h))
                | inr (end, ends) ↦ (end, ends, some-injective _ _ (rw (spawns, ends) at h))
              ]

      -- When the start raises, either it did so before there was a process, or the process that it
      -- had started has been torn down behind the failed wait for its engine, and it raises what that
      -- wait has raised or what the tear-down has.
      pub start_engine_raised :
          {x : Exception} {w : W}
          → start_engine M fuel state_dir args s ≡ some (raised x, w)
          → Unstarted fuel x w
      unfolding start_engine
      start_engine_raised h = elim (Outcome-cases (spawn_engine M state_dir args s).0) [
        | inr (y, fails) ↦
            let h' = some-injective _ _ (rw fails at h) in
            unspawned (fails ∙ ap raised (cc h'))
              (sym (ap (λ (p : Outcome (Unit {0}) × W). p.1) h'))
        | inl (port, spawns) ↦
            let (end, ends, undone_to) = awaited spawns h in
            let how = wait_ready-Readied M fuel (address M port) args.startup_timeout _ end ends in
            undo_raised fuel port end spawns ends
              (stopped-Readied M how ∙ (stopped-spawn_engine spawns).0) undone_to
      ]

      -- When the start returns, the process has been spawned and not been stopped, the hook at exit
      -- is registered, the client is
      -- open, and `GetInfo` was answered in its last call; between the two, the process has only been
      -- polled, and over the channel `GetInfo` was called, with sleeps, and nothing else.
      pub start_engine_returned :
          {w : W} → start_engine M fuel state_dir args s ≡ some (ok tt, w) → Started w
      unfolding start_engine
      start_engine_returned {w} h = elim (Outcome-cases (spawn_engine M state_dir args s).0) [
        | inr (y, fails) ↦
            let h' = some-injective _ _ (rw fails at h) in
            absurd (ok≢raised (ap (λ (p : Outcome (Unit {0}) × W). p.0) (sym h')))
        | inl (port, spawns) ↦
            let (end, ends, same) = awaited spawns h in
            let how =
              wait_ready-Readied M fuel (address M port) args.startup_timeout _ (ok tt, w)
                (ends ∙ ap some (undo_returned end same)) in
            answered_at port _ spawns how
      ]

    module _ (time : M.engine.State → ℕ) (clock : IsMachineClock M time) where
      start_engine_total :
          (fuel : ℕ)
          → args.startup_timeout < fuel
          → (result : Outcome (Unit {0}) × W) × (start_engine M fuel state_dir args s ≡ some result)
      unfolding start_engine
      start_engine_total fuel enough = elim (Outcome-cases (spawn_engine M state_dir args s).0) [
        | inr (y, fails) ↦
            ((raised y, connected (spawn_engine M state_dir args s).1), rw fails refl)
        | inl (port, spawns) ↦
            let (end, ends) =
              wait_ready_total M time clock fuel (address M port) args.startup_timeout
                (connected (spawn_engine M state_dir args s).1) enough in
            (undo M end, rw (spawns, ends) refl)
      ]

  module _ (time : M.engine.State → ℕ) (clock : IsMachineClock M time) where
    -- On a host whose clock runs forward, `local` ends, with a round of the wait for each millisecond
    -- of the startup timeout and one more, whatever fails and whatever the process does.
    pub local_total :
        (fuel : ℕ) (args : LocalArgs) (s : Supervised M.engine.State)
        → args.startup_timeout < fuel
        → (result : Outcome (Unit {0}) × W) × (local M fuel args s ≡ some result)
    unfolding local
    local_total fuel args s enough = elim (Outcome-cases (announce M args s).0) [
      | inr (y, fails) ↦ ((raised y, connected (announce M args s).1), rw fails refl)
      | inl (u, told) ↦
          let (end, ends) =
            start_engine_total (state_directory M args.state_dir) args (announce M args s).1 time
              clock fuel enough in
          (end, rw told ends)
    ]
