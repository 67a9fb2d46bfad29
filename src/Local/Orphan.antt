-- ===== src/Local/Orphan.antt =====
-- The process while a program uses the client of `local` in a `with` statement.
use conduit_client_python.Prelude.{◌≡◌, ◌∙◌, Bool, true, false, some, List}
use conduit_client_python.Errors.{Outcome}
use conduit_client_python.Exec.{Exec}
use conduit_client_python.Client.{World}
use conduit_client_python.Client.Close.{closed-close}
use conduit_client_python.Session.{
  Step, runs, asks_info, asks_status, stops, waits, closes, Session, begun, then_step,
}
use conduit_client_python.Client.Moved.{IsLasting, lasting}
use conduit_client_python.Session.Quiet.{
  Quietly, run-IsQuietly, get_engine_info-IsQuietly, stop-IsQuietly, status-IsQuietly,
  wait_running-Quietly,
}
use conduit_client_python.Process.{Machine, Supervised, terminate}
use conduit_client_python.Local.{supervised}
use conduit_client_python.Local.Launch.{local_close, local_with}
use conduit_client_python.Local.Stops.{local_close_closed}
use conduit_client_python.Local.Exit.{IsReported, IsDelivered, close_exits}

module _ (M : Machine) (alive : M.engine.State → Bool) where
  abbrev W : Type 0
  W = World (Supervised M.engine.State)

  -- There is no process.
  abbrev pub IsDead : Supervised M.engine.State → Type 0
  IsDead s = alive s.system ≡ false

  module _ (reported : IsReported M alive) (delivered : IsDelivered M alive)
      (dead_lasts : IsLasting M.engine (λ s. alive s ≡ false)) where
    -- The client is open and nothing has stopped the process, or it is closed and the process has
    -- exited.
    pub data Held (w : W) : Type 0 where
      held_open : w.closed ≡ false → w.engine.stopped ≡ false → Held w
      held_shut : w.closed ≡ true → IsDead w.engine → Held w

    stopped_lasts : (b : Bool) → IsLasting (supervised M) (λ s. s.stopped ≡ b)
    stopped_lasts b = record { answered = λ r timeout s h. h; read = λ s h. h; slept = λ d s h. h }

    IsDead-lasts : IsLasting (supervised M) IsDead
    IsDead-lasts = record {
      answered = λ r timeout s h. dead_lasts.answered r timeout s.system h;
      read = λ s h. dead_lasts.read s.system h;
      slept = λ d s h. dead_lasts.slept d s.system h;
    }

    Held-Quietly : (w v : W) → Held w → Quietly (supervised M) w v → Held v
    Held-Quietly w v (held_open opened running) step =
        held_open (step.closed ∙ opened) (
          lasting (supervised M) (λ s. s.stopped ≡ false) (stopped_lasts false) step.engine running)
    Held-Quietly w v (held_shut shut dead) step =
        held_shut (step.closed ∙ shut) (lasting (supervised M) IsDead IsDead-lasts step.engine dead)

    Held-close : (w : W) → Held w → Held (local_close M w).1
    unfolding local_close
    Held-close w (held_shut shut dead) = rw (local_close_closed M w shut) (held_shut shut dead)
    Held-close w (held_open opened running) =
        held_shut (closed-close (supervised M) (some (terminate M)) w)
          (close_exits M alive reported delivered w running opened).0

    Held-Step :
        {w v : W} {r : Outcome (Unit {0})}
        → Step (supervised M) (some (terminate M)) w r v
        → Held w
        → Held v
    unfolding local_close
    Held-Step {w} (runs p go timeout) held =
        Held-Quietly w _ held (run-IsQuietly (supervised M) p go timeout w)
    Held-Step {w} (asks_info timeout) held =
        Held-Quietly w _ held (get_engine_info-IsQuietly (supervised M) timeout w)
    Held-Step {w} (asks_status handle timeout) held =
        Held-Quietly w _ held (status-IsQuietly (supervised M) handle timeout w)
    Held-Step {w} (stops handle force timeout) held =
        Held-Quietly w _ held (stop-IsQuietly (supervised M) handle force timeout w)
    Held-Step {w} (waits format handle timeout poll_interval fuel result e) held =
        Held-Quietly w _ held
          (wait_running-Quietly (supervised M) format handle timeout poll_interval fuel w result e)
    Held-Step {w} closes held = Held-close w held

    Held-Session :
        {start w : W} {results : List (Outcome (Unit {0}))}
        → Held start
        → Session (supervised M) (some (terminate M)) start results w
        → Held w
    Held-Session held begun = held
    Held-Session held (then_step before step) = Held-Step step (Held-Session held before)

    IsDead-close : (w : W) → Held w → IsDead (local_close M w).1.engine
    IsDead-close w (held_shut shut dead) = rw (local_close_closed M w shut) dead
    IsDead-close w (held_open opened running) =
        (close_exits M alive reported delivered w running opened).0

    pub IsDead-local_with :
        {A : Type 0} (body : Exec W A) (start : W) (results : List (Outcome (Unit {0})))
        → Held start
        → Session (supervised M) (some (terminate M)) start results (body start).1
        → IsDead (local_with M body start).1.engine
    unfolding local_with
    IsDead-local_with body start results held session =
        IsDead-close (body start).1 (Held-Session held session)
