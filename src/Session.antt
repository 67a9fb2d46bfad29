-- ===== src/Session.antt =====
-- conduit/client.py and conduit/run.py as a program uses them: calls of the public methods on one
-- client and on the handles that it has given out, in any order, and the `with` block around them.
pub mod Quiet
pub mod Closing
pub mod Errors
use conduit_client_python.Prelude.{ℕ, ◌≡◌, Bool, Option, none, some, List, [], ◌∷◌, ◌++◌}
use conduit_client_python.Errors.{Exception, Outcome, ok, raised}
use conduit_client_python.Exec.{Exec}
use conduit_client_python.Pipeline.{Pipeline}
use conduit_client_python.Client.{Engine, Run, World, run, get_engine_info, close}
use conduit_client_python.Run.{Format, RunStatus, status, stop, wait_running}

-- What is left of a result when the value is not looked at.
abbrev pub discard : {A : Type 0} → Outcome A → Outcome (Unit {0})
discard (ok a) = ok tt
discard (raised x) = raised x

-- What a `with` block returns: what its body does, unless `__exit__` raises.
abbrev pub exit_result : {A : Type 0} → Outcome A → Outcome (Unit {0}) → Outcome A
exit_result r (ok _) = r
exit_result r (raised x) = raised x

module _ (E : Engine) (on_close : Option (E.State → Outcome (Unit {0}) × E.State)) where
  -- `with client as c: body`, with `__enter__` and `__exit__`, which returns nothing.
  unfoldable pub with_client : {A : Type 0} → Exec (World E.State) A → Exec (World E.State) A
  with_client body w =
      let (r, w') = body w in let (r', w'') = close E on_close w' in (exit_result r r', w'')

  -- One call of the program, with its result.
  pub data Step (w : World E.State) : Outcome (Unit {0}) → World E.State → Type 0 where
    runs :
        (p : Pipeline) (start : Bool) (timeout : ℕ)
        → Step w (discard (run E p start timeout w).0) (run E p start timeout w).1
    asks_info :
        (timeout : ℕ)
        → Step w (discard (get_engine_info E timeout w).0) (get_engine_info E timeout w).1
    asks_status :
        (handle : Run) (timeout : ℕ)
        → Step w (discard (status E handle timeout w).0) (status E handle timeout w).1
    stops :
        (handle : Run) (force : Bool) (timeout : ℕ)
        → Step w (discard (stop E handle force timeout w).0) (stop E handle force timeout w).1
    waits :
        (format : Format) (handle : Run) (timeout poll_interval fuel : ℕ)
        (result : Outcome RunStatus × World E.State)
        → wait_running E format handle timeout poll_interval fuel w ≡ some result
        → Step w (discard result.0) result.1
    closes : Step w (close E on_close w).0 (close E on_close w).1

  -- Any number of calls, with their results. A call that raises does not keep the program from the
  -- next.
  pub data Session (start : World E.State)
      : List (Outcome (Unit {0})) → World E.State → Type 0 where
    begun : Session start [] start
    then_step :
        {results : List (Outcome (Unit {0}))} {w v : World E.State} {r : Outcome (Unit {0})}
        → Session start results w
        → Step w r v
        → Session start (results ++ r ∷ []) v
