-- ===== src/Local/Stops.antt =====
-- Calls of `close` and the hook at exit, in any order.
use conduit_client_python.Prelude.{◌≡◌, Bool-cases, inl, inr, true, false, List, [], ◌∷◌}
use conduit_client_python.Errors.{Outcome}
use conduit_client_python.Client.{World, close}
use conduit_client_python.Process.{Machine, Supervised, terminate, exit_host, atexit_kill}
use conduit_client_python.Process.Teardown.{
  exit_host_registered, exit_host_stopped, IsTornDown, terminate-IsTornDown, terminate_stopped,
}
use conduit_client_python.Local.{supervised}
use conduit_client_python.Local.Launch.{local_close}

-- The two ways in which an engine is stopped.
pub data Stop : Type 0 where
  by_close at_exit : Stop

module _ (M : Machine) where
  abbrev W : Type 0
  W = World (Supervised M.engine.State)

  -- A stop that raises does not keep the host from the next one.
  abbrev pub stop : Stop → W → W
  stop by_close w = (local_close M w).1
  stop at_exit w = record w { engine = (exit_host M w.engine).1 }

  unfoldable pub stops : List Stop → W → W
  stops [] w = w
  stops (x ∷ rest) w = stops rest (stop x w)

  -- The system as `terminate` meets it behind the channel's close.
  abbrev behind_channel : W → Supervised M.engine.State
  behind_channel w = (supervised M).close_channel w.engine

  -- The system as the first stop meets it: `close` has closed the channel before.
  abbrev pub torn_from : Stop → W → M.engine.State
  torn_from by_close w = (behind_channel w).system
  torn_from at_exit w = w.engine.system

  pub local_close_open :
      (w : W) → w.closed ≡ false → (local_close M w).1.engine ≡ (terminate M (behind_channel w)).1
  unfolding local_close close
  local_close_open w opened = simp (opened, close)

  pub local_close_closed : (w : W) → w.closed ≡ true → (local_close M w).1 ≡ w
  unfolding local_close close
  local_close_closed w shut = simp (shut, close)

  IsTornDown-stop :
      (x : Stop) (w : W)
      → w.engine.stopped ≡ false
      → w.engine.registered ≡ true
      → w.closed ≡ false
      → (r : Outcome (Unit {0})) × IsTornDown M (torn_from x w) w.engine (r, (stop x w).engine)
  unfolding atexit_kill
  IsTornDown-stop at_exit w running hook opened = (
    (terminate M w.engine).0,
    rw (exit_host_registered M w.engine hook) (terminate-IsTornDown M w.engine running),
  )
  IsTornDown-stop by_close w running hook opened =
      let (stopped, host, events) = terminate-IsTornDown M (behind_channel w) running in
      ((terminate M (behind_channel w)).0, rw (local_close_open w opened) (stopped, host, events))

  IsTornDown-stop_again :
      (x : Stop) (from : M.engine.State) (s : Supervised M.engine.State) (r : Outcome (Unit {0}))
      (w : W)
      → IsTornDown M from s (r, w.engine)
      → IsTornDown M from s (r, (stop x w).engine)
  unfolding atexit_kill
  IsTornDown-stop_again at_exit from s r w (stopped, host, events) =
      rw (exit_host_stopped M w.engine stopped) (stopped, host, events)
  IsTornDown-stop_again by_close from s r w (stopped, host, events) = elim (Bool-cases w.closed) [
    | inl shut ↦ rw (local_close_closed w shut) (stopped, host, events)
    | inr opened ↦
        rw (local_close_open w opened, terminate_stopped M (behind_channel w) stopped)
          (stopped, host, events)
  ]

  IsTornDown-stops :
      (xs : List Stop) (from : M.engine.State) (s : Supervised M.engine.State)
      (r : Outcome (Unit {0})) (w : W)
      → IsTornDown M from s (r, w.engine)
      → IsTornDown M from s (r, (stops xs w).engine)
  unfolding stops
  IsTornDown-stops [] from s r w down = down
  IsTornDown-stops (x ∷ xs) from s r w down =
      IsTornDown-stops xs from s r (stop x w) (IsTornDown-stop_again x from s r w down)

  -- However a running engine with an open client and a registered hook is stopped, by calls of
  -- `close` and the hook at exit in any order and number, at least one, the process is torn down
  -- once, each step as the system has answered the one before it: a poll, and if that finds that the
  -- process runs, a signal, and if that is sent, a wait of 10 seconds, and only if that wait has
  -- failed by its timeout a kill and a second wait of 10 seconds; the log file is closed behind that,
  -- unless one of these calls has raised.
  pub stops-IsTornDown :
      (x : Stop) (xs : List Stop) (w : W)
      → w.engine.stopped ≡ false
      → w.engine.registered ≡ true
      → w.closed ≡ false
      → (r : Outcome (Unit {0})) × IsTornDown M
          (torn_from x w)
          w.engine
          (r, (stops (x ∷ xs) w).engine)
  unfolding stops
  stops-IsTornDown x xs w running hook opened =
      let (r, down) = IsTornDown-stop x w running hook opened in
      (r, IsTornDown-stops xs (torn_from x w) w.engine r (stop x w) down)
