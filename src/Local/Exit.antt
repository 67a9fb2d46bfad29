-- ===== src/Local/Exit.antt =====
-- Whether the process has exited once `close` has returned.
use conduit_client_python.Prelude.{
  ℕ, ◌≡◌, refl, sym, ◌⊎◌, inl, inr, Option-cases, Bool-cases, Bool, true, false, some, List, [],
  ◌∷◌,
}
use conduit_client_python.Prelude.Int.{ℤ}
use conduit_client_python.Errors.{timeout_expired, Outcome, ok, raised, Outcome-cases, ok≢raised}
use conduit_client_python.Client.{World, close}
use conduit_client_python.Exec.{Exec}
use conduit_client_python.Process.{
  Machine, Supervised, atexit_kill, graceful_stop_timeout, tear_down, terminate, suppress_os_error,
}
use conduit_client_python.Process.Teardown.{
  exit_host_registered, exit_host_stopped, expired-cases, stopped-terminate, terminate_stopped,
}
use conduit_client_python.Local.{supervised}
use conduit_client_python.Local.Launch.{local_close, local_with}
use conduit_client_python.Local.Stops.{
  Stop, by_close, at_exit, stop, stops, local_close_open, local_close_closed,
}

module _ (M : Machine) (alive : M.engine.State → Bool) where
  -- What the system reports of the process is true: an exit code, or a wait that returns, is of a
  -- process that has exited. A close of the channel or of
  -- the log file starts no process.
  pub record IsReported : Type 0 where
    pub polls :
        (s : M.engine.State) (code : ℤ) → (M.poll s).0 ≡ some code → alive (M.poll s).1 ≡ false
    pub waits : (d : ℕ) (s : M.engine.State) → (M.wait d s).0 ≡ ok tt → alive (M.wait d s).1 ≡ false
    pub channel : (s : M.engine.State) → alive s ≡ false → alive (M.engine.close_channel s) ≡ false
    pub closes : (s : M.engine.State) → alive s ≡ false → alive (M.close_log s).1 ≡ false

  -- The signals of the system arrive: they can be sent, a wait fails by its timeout only, and a
  -- killed process exits. A close of the log file fails by an `OSError` only.
  pub record IsDelivered : Type 0 where
    pub terminates : (s : M.engine.State) → (M.terminate s).0 ≡ ok tt
    pub kills : (s : M.engine.State) → (M.kill s).0 ≡ ok tt
    pub expires :
        (d : ℕ) (s : M.engine.State)
        → ((M.wait d s).0 ≡ ok tt) ⊎ ((M.wait d s).0 ≡ raised timeout_expired)
    pub exits : (s : M.engine.State) → (M.wait graceful_stop_timeout (M.kill s).1).0 ≡ ok tt
    pub log_closes : (s : M.engine.State) → suppress_os_error (M.close_log s).0 ≡ ok tt

  -- A call that has returned leaves no process.
  abbrev pub IsExited : Outcome (Unit {0}) × Supervised M.engine.State → Type 0
  IsExited result = result.0 ≡ ok tt → alive result.1.system ≡ false

  module _ (reported : IsReported) where
    tear_down-IsExited : (s : Supervised M.engine.State) → IsExited (tear_down M s)
    unfolding tear_down
    tear_down-IsExited s =
        let t1 = (M.poll s.system).1 in
        let t2 = (M.terminate t1).1 in
        let t3 = (M.wait graceful_stop_timeout t2).1 in
        let t4 = (M.kill t3).1 in
        elim (Option-cases (M.poll s.system).0) [
          | inr (code, polls) ↦ rw polls (λ h. reported.closes _ (reported.polls _ code polls))
          | inl runs ↦ rw runs (elim (Outcome-cases (M.terminate t1).0) [
            | inr (x, fails) ↦ rw fails (λ h. absurd (ok≢raised (sym h)))
            | inl (u, signals) ↦
                rw signals (elim (Outcome-cases (M.wait graceful_stop_timeout t2).0) [
                  | inl (tt, ends) ↦ rw ends (λ h. reported.closes _ (reported.waits _ t2 ends))
                  | inr (x, ends) ↦ elim (expired-cases M x) [
                    | inr (_, passes) ↦ rw (ends, passes _) (λ h. absurd (ok≢raised (sym h)))
                    | inl expired ↦
                        rw (ends, expired)
                          (elim (Outcome-cases (M.kill t3).0) [
                            | inr (y, fails) ↦ rw fails (λ h. absurd (ok≢raised (sym h)))
                            | inl (v, kills) ↦
                                rw kills (elim (Outcome-cases (M.wait graceful_stop_timeout t4).0) [
                                  | inl (tt, dies) ↦
                                      rw dies (λ h. reported.closes _ (reported.waits _ t4 dies))
                                  | inr (y, lives) ↦ rw lives (λ h. absurd (ok≢raised (sym h)))
                                ])
                          ])
                  ]
                ])
          ])
        ]

    terminate-IsExited :
        (s : Supervised M.engine.State) → s.stopped ≡ false → IsExited (terminate M s)
    unfolding terminate
    terminate-IsExited s running =
        rw (running, terminate) (tear_down-IsExited (record s { stopped = true }))

    -- The system as `terminate` meets it behind the close of the channel.
    abbrev behind_channel : World (Supervised M.engine.State) → Supervised M.engine.State
    behind_channel w = (supervised M).close_channel w.engine

    -- A `close` of an engine that runs, if it returns, leaves no process behind, where the system
    -- reports truly of the process: `poll` gives an exit code and `wait` returns only if it has exited.
    pub local_close-IsExited :
        (w : World (Supervised M.engine.State))
        → w.engine.stopped ≡ false
        → w.closed ≡ false
        → (local_close M w).0 ≡ ok tt
        → alive (local_close M w).1.engine.system ≡ false
    unfolding local_close close
    local_close-IsExited w running opened =
        rw (opened, close) (terminate-IsExited (behind_channel w) running)

    module _ (delivered : IsDelivered) where
      tear_down_returns : (s : Supervised M.engine.State) → (tear_down M s).0 ≡ ok tt
      unfolding tear_down
      tear_down_returns s =
          let t1 = (M.poll s.system).1 in
          let t2 = (M.terminate t1).1 in
          let t3 = (M.wait graceful_stop_timeout t2).1 in
          elim (Option-cases (M.poll s.system).0) [
            | inr (code, polls) ↦ rw polls (delivered.log_closes _)
            | inl runs ↦
                rw (runs, delivered.terminates t1)
                  (elim (delivered.expires graceful_stop_timeout t2) [
                    | inl ends ↦ rw ends (delivered.log_closes _)
                    | inr ends ↦
                        rw (ends, delivered.kills t3, delivered.exits t3) (delivered.log_closes _)
                  ])
          ]

      terminate_returns :
          (s : Supervised M.engine.State) → s.stopped ≡ false → (terminate M s).0 ≡ ok tt
      unfolding terminate
      terminate_returns s running =
          rw (running, terminate) (tear_down_returns (record s { stopped = true }))

      pub terminate_exits :
          (s : Supervised M.engine.State)
          → s.stopped ≡ false
          → alive (terminate M s).1.system ≡ false
      terminate_exits s running = terminate-IsExited s running (terminate_returns s running)

      pub close_exits :
          (w : World (Supervised M.engine.State))
          → w.engine.stopped ≡ false
          → w.closed ≡ false
          → (alive (local_close M w).1.engine.system ≡ false)
            × ((local_close M w).1.engine.stopped ≡ true)
      close_exits w running opened =
          rw (local_close_open M w opened)
            (terminate_exits (behind_channel w) running, stopped-terminate M (behind_channel w))

      stop_exits :
          (x : Stop) (w : World (Supervised M.engine.State))
          → w.engine.stopped ≡ false
          → w.engine.registered ≡ true
          → w.closed ≡ false
          → (alive (stop M x w).engine.system ≡ false) × ((stop M x w).engine.stopped ≡ true)
      unfolding atexit_kill
      stop_exits at_exit w running hook opened =
          rw (exit_host_registered M w.engine hook)
            (terminate_exits w.engine running, stopped-terminate M w.engine)
      stop_exits by_close w running hook opened = close_exits w running opened

      stop_again :
          (x : Stop) (w : World (Supervised M.engine.State))
          → w.engine.stopped ≡ true
          → alive w.engine.system ≡ false
          → (alive (stop M x w).engine.system ≡ false) × ((stop M x w).engine.stopped ≡ true)
      unfolding atexit_kill
      stop_again at_exit w stopped dead = rw (exit_host_stopped M w.engine stopped) (dead, stopped)
      stop_again by_close w stopped dead = elim (Bool-cases w.closed) [
        | inl shut ↦ rw (local_close_closed M w shut) (dead, stopped)
        | inr opened ↦
            rw (local_close_open M w opened, terminate_stopped M (behind_channel w) stopped)
              (reported.channel _ dead, stopped)
      ]

      stops_again :
          (xs : List Stop) (w : World (Supervised M.engine.State))
          → (alive w.engine.system ≡ false) × (w.engine.stopped ≡ true)
          → alive (stops M xs w).engine.system ≡ false
      unfolding stops
      stops_again [] w (dead, stopped) = dead
      stops_again (x ∷ xs) w (dead, stopped) =
          stops_again xs (stop M x w) (stop_again x w stopped dead)

      local_close_returns :
          (w : World (Supervised M.engine.State))
          → w.engine.stopped ≡ false
          → w.closed ≡ false
          → (local_close M w).0 ≡ ok tt
      unfolding local_close close
      local_close_returns w running opened =
          rw (opened, close) (terminate_returns (behind_channel w) running)

      -- An engine that runs is stopped for certain, even if it does not react to the signal, where the
      -- system reports truly, its signals can be sent, a wait fails by its timeout only, a killed
      -- process exits within the wait, and the log file's close fails by an `OSError` only. Behind a
      -- `with` block whose body has left the client open and the hook registered the process has
      -- exited, and the block returns or raises what its body does; and the process has exited after
      -- any calls of `close` and of the hook at exit, at least one, in any order.
      pub stops_exit :
          {A : Type 0} (body : Exec (World (Supervised M.engine.State)) A)
          (start : World (Supervised M.engine.State))
          → (body start).1.engine.stopped ≡ false
          → (body start).1.engine.registered ≡ true
          → (body start).1.closed ≡ false
          → ((local_with M body start).0 ≡ (body start).0)
            × (alive (local_with M body start).1.engine.system ≡ false)
            × ((x : Stop) (xs : List Stop)
                → alive (stops M (x ∷ xs) (body start).1).engine.system ≡ false)
      unfolding local_with stops
      stops_exit body start running hook opened =
          let w = (body start).1 in
          let returns = local_close_returns w running opened in
          (
            rw returns refl,
            local_close-IsExited w running opened returns,
            λ x xs. stops_again xs (stop M x w) (stop_exits x w running hook opened),
          )
