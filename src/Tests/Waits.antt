-- ===== src/Tests/Waits.antt =====
-- The handle of a run against the small engine.
use conduit_client_python.Prelude.{ℕ, ◌+◌, ◌≡◌, refl, Bool, false, none, some, [], ◌∷◌, arith}
use conduit_client_python.Prelude.Int.{pos}
use conduit_client_python.Errors.{Outcome, ok}
use conduit_client_python.Wire.{get_pipeline}
use conduit_client_python.Client.{called, World, call}
use conduit_client_python.Prelude.{after_prefix, lower}
use conduit_client_python.Run.{
  status_name, stopped_reason_name, strip_enum_prefix, RunStatus, Format, is_running, run_status,
  status, read_clock, pause, settle, poll_loop, wait_running,
}
use conduit_client_python.Run.Status.{Agrees, run_status-Agrees}
use conduit_client_python.Run.Wait.{IsClock, wait_running_total}
use conduit_client_python.Run.Ending.{Result, wait_running-Result}
use conduit_client_python.Tests.Data.{engine, start, handle}

abbrev pub format : Format
format = record { repr = λ s. s; seconds = λ n. "30.0" }

pub clock : (refuses : Bool) → IsClock (engine refuses) (λ s. s)
clock refuses = record {
  reads = λ s. refl;
  monotonic_le = λ s. omega arith;
  answer_le = λ r t s. omega arith;
  sleep_le = λ d s whole. omega arith;
}

abbrev pub running : RunStatus
running = record { status = "running"; error = ""; stopped_reason = "unspecified" }

wait_running_total_example :
    (result : Outcome RunStatus × World ℕ) × (wait_running
        (engine false)
        format
        handle
        1000
        200
        1001
        start
      ≡ some result)
wait_running_total_example =
    wait_running_total (engine false) (λ s. s) (clock false) format handle 1000 200 (omega arith)
      1001 start (omega arith)

pub waited : World ℕ
waited = record start { engine = 1; trace = called (get_pipeline "pipeline-1") 5000 ∷ [] }

pub waits : wait_running (engine false) format handle 1000 200 2 start ≡ some (ok running, waited)
unfolding wait_running poll_loop settle status read_clock pause call run_status is_running waited
    status_name stopped_reason_name strip_enum_prefix after_prefix lower
waits = refl

wait_running-Result_example :
    Result (engine false) format handle 1000 200 (0 + 1000) start (ok running, waited)
unfolding read_clock
wait_running-Result_example =
    wait_running-Result (engine false) format handle 1000 200 2 start (ok running, waited) waits

run_status-Agrees_example :
    Agrees (run_status (record { status = pos 7; error = ""; stopped_reason = pos 0 })) none
run_status-Agrees_example =
    run_status-Agrees (record { status = pos 7; error = ""; stopped_reason = pos 0 })
