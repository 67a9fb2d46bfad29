-- ===== src/Process/Teardown.antt =====
-- What `_terminate` does to the process and its log file.
use mathlib.Core.List.{append_assoc}
use conduit_client_python.Prelude.{
  ◌≡◌, ◌≢◌, refl, ap, ◌∙◌, ◌⊎◌, inl, inr, Bool-cases, Option-cases, true, false, none, some, List,
  [], ◌∷◌, ◌++◌,
}
use conduit_client_python.Prelude.Int.{ℤ}
use conduit_client_python.Errors.{Exception, timeout_expired, Outcome, ok, raised, Outcome-cases}
use conduit_client_python.Process.{
  exit_host, atexit_kill, Machine, Act, polled, terminated, killed, closed_log, waited, Supervised,
  graceful_stop_timeout, suppress_os_error, kill_if_expired, tear_down, terminate,
}

module _ (M : Machine) (from : M.engine.State) where
  -- The states of the system behind each call of a tear-down.
  abbrev polled_state : M.engine.State
  polled_state = (M.poll from).1

  abbrev signalled_state : M.engine.State
  signalled_state = (M.terminate polled_state).1

  abbrev waited_state : M.engine.State
  waited_state = (M.wait graceful_stop_timeout signalled_state).1

  abbrev killed_state : M.engine.State
  killed_state = (M.kill waited_state).1

  abbrev gone_state : M.engine.State
  gone_state = (M.wait graceful_stop_timeout killed_state).1

  -- The process runs, and the signal has been sent.
  abbrev pub IsSignalled : Type 0
  IsSignalled = ((M.poll from).0 ≡ none) × ((M.terminate polled_state).0 ≡ ok tt)

  -- It has also not exited in the time that it was given.
  abbrev pub IsExpired : Type 0
  IsExpired =
      IsSignalled × ((M.wait graceful_stop_timeout signalled_state).0 ≡ raised timeout_expired)

  -- The ways in which a process is stopped, each with the answers of the system that lead to it, and
  -- with what it does.
  pub data Teardown : Outcome (Unit {0}) → List Act → Type 0 where
    -- it has exited already: only the log file is closed
    exited :
        (code : ℤ)
        → (M.poll from).0 ≡ some code
        → Teardown
            (suppress_os_error (M.close_log polled_state).0)
            (polled (some code) ∷ closed_log ∷ [])
    -- the signal cannot be sent
    unsignalled :
        (x : Exception)
        → (M.poll from).0 ≡ none
        → (M.terminate polled_state).0 ≡ raised x
        → Teardown (raised x) (polled none ∷ terminated ∷ [])
    -- it exits within the time that it is given
    graceful :
        IsSignalled
        → (M.wait graceful_stop_timeout signalled_state).0 ≡ ok tt
        → Teardown
            (suppress_os_error (M.close_log waited_state).0)
            (polled none ∷ terminated ∷ waited graceful_stop_timeout ∷ closed_log ∷ [])
    -- the wait fails, but not by its timeout
    unwaited :
        (x : Exception)
        → IsSignalled
        → x ≢ timeout_expired
        → (M.wait graceful_stop_timeout signalled_state).0 ≡ raised x
        → Teardown (raised x) (polled none ∷ terminated ∷ waited graceful_stop_timeout ∷ [])
    -- the time runs out, and it is killed
    forced :
        IsExpired
        → (M.kill waited_state).0 ≡ ok tt
        → (M.wait graceful_stop_timeout killed_state).0 ≡ ok tt
        → Teardown (suppress_os_error (M.close_log gone_state).0) (
            polled none
            ∷ terminated
            ∷ waited graceful_stop_timeout
            ∷ killed
            ∷ waited graceful_stop_timeout
            ∷ closed_log
            ∷ [])
    -- it cannot be killed
    unkilled :
        (x : Exception)
        → IsExpired
        → (M.kill waited_state).0 ≡ raised x
        → Teardown
            (raised x)
            (polled none ∷ terminated ∷ waited graceful_stop_timeout ∷ killed ∷ [])
    -- it outlives the kill, or the wait for its end fails
    survived :
        (x : Exception)
        → IsExpired
        → (M.kill waited_state).0 ≡ ok tt
        → (M.wait graceful_stop_timeout killed_state).0 ≡ raised x
        → Teardown (raised x) (
            polled none
            ∷ terminated
            ∷ waited graceful_stop_timeout
            ∷ killed
            ∷ waited graceful_stop_timeout
            ∷ [])

module _ (M : Machine) where
  -- The process of a supervisor has been stopped, by calls that begin at a state of the system.
  abbrev pub IsTornDown :
      M.engine.State
      → Supervised M.engine.State
      → Outcome (Unit {0}) × Supervised M.engine.State
      → Type 0
  IsTornDown from s result =
      (result.1.stopped ≡ true)
      × (result.1.host ≡ s.host)
      × ((events : List Act) × (result.1.acts ≡ s.acts ++ events) × Teardown M from result.0 events)

  -- What ends a wait is its timeout, or is passed on.
  pub expired-cases :
      (x : Exception)
      → (x ≡ timeout_expired)
        ⊎ ((x ≢ timeout_expired)
            × ((s : Supervised M.engine.State) → kill_if_expired M (raised x) s ≡ (raised x, s)))
  expired-cases timeout_expired = inl refl
  expired-cases x = inr ((λ e. cc e), λ s. refl)

  tear_down-IsTornDown :
      (s : Supervised M.engine.State) → s.stopped ≡ true → IsTornDown s.system s (tear_down M s)
  unfolding tear_down
  tear_down-IsTornDown s stopped =
      let t1 = (M.poll s.system).1 in
      let t2 = (M.terminate t1).1 in
      let t3 = (M.wait graceful_stop_timeout t2).1 in
      let t4 = (M.kill t3).1 in
      elim (Option-cases (M.poll s.system).0) [
        | inr (code, polls) ↦ rw polls (stopped, refl, (_, simp append_assoc, exited code polls))
        | inl runs ↦ rw runs (elim (Outcome-cases (M.terminate t1).0) [
          | inr (x, fails) ↦
              rw fails (stopped, refl, (_, simp append_assoc, unsignalled x runs fails))
          | inl (u, signals) ↦
              rw signals (elim (Outcome-cases (M.wait graceful_stop_timeout t2).0) [
                | inl (v, ends) ↦
                    rw ends (stopped, refl, (_, simp append_assoc, graceful (runs, signals) ends))
                | inr (x, ends) ↦ elim (expired-cases x) [
                  | inr (other, passes) ↦
                      rw (ends, passes _)
                        (
                          stopped,
                          refl,
                          (_, simp append_assoc, unwaited x (runs, signals) other ends),
                        )
                  | inl expired ↦
                      let expires : IsExpired M s.system =
                        ((runs, signals), ends ∙ ap raised expired) in
                      rw (ends, expired)
                        (elim (Outcome-cases (M.kill t3).0) [
                          | inr (y, fails) ↦
                              rw fails
                                (stopped, refl, (_, simp append_assoc, unkilled y expires fails))
                          | inl (v, kills) ↦
                              rw kills (elim (Outcome-cases (M.wait graceful_stop_timeout t4).0) [
                                | inl (z, dies) ↦ rw dies (
                                  stopped,
                                  refl,
                                  (_, simp append_assoc, forced expires kills dies),
                                )
                                | inr (y, lives) ↦ rw lives (
                                  stopped,
                                  refl,
                                  (_, simp append_assoc, survived y expires kills lives),
                                )
                              ])
                        ])
                ]
              ])
        ])
      ]

  pub terminate_stopped :
      (s : Supervised M.engine.State) → s.stopped ≡ true → terminate M s ≡ (ok tt, s)
  unfolding terminate
  terminate_stopped s stopped = simp (stopped, terminate)

  pub terminate-IsTornDown :
      (s : Supervised M.engine.State) → s.stopped ≡ false → IsTornDown s.system s (terminate M s)
  unfolding terminate
  terminate-IsTornDown s running =
      rw (running, terminate) (tear_down-IsTornDown (record s { stopped = true }) refl)

  -- The exit of the host with and without the hook.
  pub exit_host_registered :
      (s : Supervised M.engine.State) → s.registered ≡ true → exit_host M s ≡ atexit_kill M s
  unfolding exit_host
  exit_host_registered s hook = simp (hook, exit_host)

  pub exit_host_unregistered :
      (s : Supervised M.engine.State) → s.registered ≡ false → exit_host M s ≡ (ok tt, s)
  unfolding exit_host
  exit_host_unregistered s unhooked = simp (unhooked, exit_host)

  -- The exit of the host, of a process that has been stopped.
  pub exit_host_stopped : (s : Supervised M.engine.State) → s.stopped ≡ true → (exit_host M s).1 ≡ s
  unfolding atexit_kill
  exit_host_stopped s stopped = elim (Bool-cases s.registered) [
    | inl hook ↦ rw (exit_host_registered s hook, terminate_stopped s stopped) refl
    | inr unhooked ↦ rw (exit_host_unregistered s unhooked) refl
  ]

  pub stopped-terminate : (s : Supervised M.engine.State) → (terminate M s).1.stopped ≡ true
  stopped-terminate s = elim (Bool-cases s.stopped) [
    | inl stopped ↦ rw (terminate_stopped s stopped) stopped
    | inr running ↦ (terminate-IsTornDown s running).0
  ]
