-- ===== src/Tests/Sessions.antt =====
-- A program that uses one client: calls on it, its close, and a `with` block around them.
use conduit_client_python.Prelude.{ℕ, ◌≡◌, ◌⊎◌, refl, true, some, List, [], ◌∷◌, All}
use conduit_client_python.Errors.{Exception, os_error, Outcome, raised}
use conduit_client_python.Exec.{Exec}
use conduit_client_python.Client.{World, run, close}
use conduit_client_python.Client.Failures.{IsTranslated}
use conduit_client_python.Session.{discard, with_client, runs, closes, Session, begun, then_step}
use conduit_client_python.Session.Closing.{ClosedOnce, Session-ClosedOnce, with_client-ClosedOnce}
use conduit_client_python.Session.Errors.{Session-IsTranslated}
use conduit_client_python.Tests.Data.{engine, start, orders_pipeline}

-- A hook that fails.
abbrev hook : ℕ → Outcome (Unit {0}) × ℕ
hook s = (raised (os_error "no such process"), s)

-- The body of the block: a run, which the engine refuses, and a close.
abbrev body : Exec (World ℕ) (Unit {0})
body w = close (engine true) (some hook) (run (engine true) orders_pipeline true 10000 w).1

abbrev results : List (Outcome (Unit {0}))
results = discard (run (engine true) orders_pipeline true 10000 start).0 ∷ (body start).0 ∷ []

session : Session (engine true) (some hook) start results (body start).1
session = then_step (then_step begun (runs orders_pipeline true 10000)) closes

Session-ClosedOnce_example : ClosedOnce (engine true) (some hook) start (body start).1
Session-ClosedOnce_example = Session-ClosedOnce (engine true) (some hook) start refl session

Session-IsTranslated_example : All (λ (r : Outcome (Unit {0})). IsTranslated r) results
Session-IsTranslated_example = Session-IsTranslated (engine true) (some hook) (λ s. tt) session

with_client-ClosedOnce_example :
    ((with_client (engine true) (some hook) body start).1.closed ≡ true)
    × ClosedOnce
        (engine true)
        (some hook)
        start
        (with_client (engine true) (some hook) body start).1
    × (((with_client (engine true) (some hook) body start).0 ≡ (body start).0)
        ⊎ ((x : Exception) × ((close (engine true) (some hook) (body start).1).0 ≡ raised x)
            × ((with_client (engine true) (some hook) body start).0 ≡ raised x)))
with_client-ClosedOnce_example =
    with_client-ClosedOnce (engine true) (some hook) start body results refl session
