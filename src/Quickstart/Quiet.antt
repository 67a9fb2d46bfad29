-- ===== src/Quickstart/Quiet.antt =====
-- The program does nothing on its client but call RPCs and sleep.
use conduit_client_python.Prelude.{ℕ, ◌≡◌, refl, true, false, Option, none, some}
use conduit_client_python.Errors.{Outcome, ok, raised}
use conduit_client_python.Pipeline.{Pipeline}
use conduit_client_python.Client.{Run, World, run}
use conduit_client_python.Run.{Format, RunStatus, status, stop, wait_running}
use conduit_client_python.Session.Quiet.{
  Quietly, IsQuietly, Quietly-refl, bind-IsQuietly, run-IsQuietly, status-IsQuietly, stop-IsQuietly,
  wait_running-Quietly,
}
use conduit_client_python.Process.{Machine, Supervised}
use conduit_client_python.Local.{supervised}
use conduit_client_python.Local.Launch.{local_run}
use conduit_client_python.Quickstart.{wait_result, wait_step, finish, quickstart_body}

module _ (M : Machine) (format : Format) where
  abbrev W : Type 0
  W = World (Supervised M.engine.State)

  wait_step-IsQuietly :
      (fuel : ℕ) (handle : Run) → IsQuietly (supervised M) (wait_step M format fuel handle)
  unfolding wait_step
  wait_step-IsQuietly fuel handle w =
      quietly (wait_running (supervised M) format handle 30000 200 fuel w)
        (wait_running-Quietly (supervised M) format handle 30000 200 fuel w)
    where
      quietly :
          (end : Option (Outcome RunStatus × W))
          → ((result : Outcome RunStatus × W)
              → end ≡ some result
              → Quietly (supervised M) w result.1)
          → Quietly (supervised M) w (wait_result M format w end).1
      quietly none h = Quietly-refl (supervised M) w
      quietly (some (ok s, v)) h = h (ok s, v) refl
      quietly (some (raised x, v)) h = h (raised x, v) refl

  finish-IsQuietly :
      (handle : Run) (reached : Option RunStatus)
      → IsQuietly (supervised M) (finish M format handle reached)
  finish-IsQuietly handle none = Quietly-refl (supervised M)
  finish-IsQuietly handle (some up) =
      bind-IsQuietly (supervised M) (status (supervised M) handle 5000) _
        (status-IsQuietly (supervised M) handle 5000)
        λ found.
          bind-IsQuietly (supervised M) (stop (supervised M) handle false 10000) _
            (stop-IsQuietly (supervised M) handle false 10000) (λ _. Quietly-refl (supervised M))

  pub body-IsQuietly :
      (fuel : ℕ) (p : Pipeline) → IsQuietly (supervised M) (quickstart_body M format fuel p)
  unfolding quickstart_body local_run
  body-IsQuietly fuel p =
      bind-IsQuietly (supervised M) (run (supervised M) p true 10000) _
        (run-IsQuietly (supervised M) p true 10000)
        λ handle.
          bind-IsQuietly (supervised M) (wait_step M format fuel handle) _
            (wait_step-IsQuietly fuel handle) (finish-IsQuietly handle)
