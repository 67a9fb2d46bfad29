-- ===== src/Tests/Exits.antt =====
-- A process that does not react to its signal, and has to be killed.
use conduit_client_python.Prelude.{
  ℕ, ◌+◌, ◌≡◌, refl, inl, inr, Bool, false, none, some, List, ◌∷◌, ltb, arith, Bool-cases,
  if◌then◌else◌,
}
use conduit_client_python.Prelude.Int.{pos}
use conduit_client_python.Errors.{ok, raised, timeout_expired}
use conduit_client_python.Client.{World, close}
use conduit_client_python.Exec.{Exec}
use conduit_client_python.Process.{Machine, Supervised, terminate, tear_down, poll_process}
use conduit_client_python.Local.Launch.{local_close, local_with}
use conduit_client_python.Local.Stops.{Stop, stops}
use conduit_client_python.Local.Exit.{IsReported, IsDelivered, local_close-IsExited, stops_exit}
use conduit_client_python.Tests.Supervision.{machine, waiting}

abbrev alive : ℕ → Bool
alive s = ltb s 1000

abbrev deaf : Machine
deaf = record (machine none) {
  poll = λ s. (if alive s then none else some (pos 137), s);
  kill = λ s. (ok tt, s + 1000);
  wait = λ d s. (if alive s then raised timeout_expired else ok tt, s);
}

reported : IsReported deaf alive
reported = record {
  polls = λ s code h. ground arith;
  waits = λ d s h. ground arith;
  channel = λ s dead. dead;
  closes = λ s dead. dead;
}

delivered : IsDelivered deaf alive
delivered = record {
  terminates = λ s. refl;
  kills = λ s. refl;
  expires = λ d s. elim (Bool-cases (alive s)) [
    | inl lives ↦ inr (rw lives refl)
    | inr dead ↦ inl (rw dead refl)
  ];
  exits = λ s. ground arith;
  log_closes = λ s. refl;
}

closes : (local_close deaf waiting).0 ≡ ok tt
unfolding local_close close terminate tear_down poll_process
closes = refl

local_close-IsExited_example : alive (local_close deaf waiting).1.engine.system ≡ false
local_close-IsExited_example = local_close-IsExited deaf alive reported waiting refl refl closes

-- The body of a `with` block that fails.
abbrev body : Exec (World (Supervised ℕ)) (Unit {0})
body w = (raised timeout_expired, w)

stops_exit_example :
    ((local_with deaf body waiting).0 ≡ raised timeout_expired)
    × (alive (local_with deaf body waiting).1.engine.system ≡ false)
    × ((x : Stop) (xs : List Stop) → alive (stops deaf (x ∷ xs) waiting).engine.system ≡ false)
stops_exit_example = stops_exit deaf alive reported delivered body waiting refl refl refl
