-- ===== src/Tests/Starts.antt =====
-- `local` over an engine that takes half a second to listen, under a user who interrupts it, and with
-- a binary that cannot be executed.
use mathlib.Core.Option
use conduit_client_python.Prelude.{
  ℕ, ◌+◌, ◌≡◌, refl, inl, inr, Bool-cases, true, false, none, some, List, [], ◌∷◌, arith, ltb,
  ltb→lt, if◌then◌else◌,
}
use conduit_client_python.Errors.{
  os_error, Outcome, ok, raised, rpc, interrupt, RpcError, details_of, from_rpc_error, find_info,
  unavailable, no_status,
}
use conduit_client_python.Wire.{Info, Request, Response, get_info}
use conduit_client_python.Client.{Engine, World, call, get_engine_info}
use conduit_client_python.Process.{
  Machine, Supervised, Act, opened_log, spawned, polled, terminated, waited, closed_log, terminate,
  tear_down, poll_process,
}
use conduit_client_python.Run.{read_clock, pause, after_pause}
use conduit_client_python.Local.{poll_beside, address, after_info, ready_loop, wait_ready}
use conduit_client_python.Local.Launch.{
  announce, spawn_engine, find_binary, free_port, start_engine, undo, local,
}
use conduit_client_python.Local.Ready.{IsMachineClock}
use conduit_client_python.Local.Serving.{IsServing}
use conduit_client_python.Local.Reaches.{local_reaches}
use conduit_client_python.Client.{close}
use conduit_client_python.Process.{atexit_kill, exit_host}
use conduit_client_python.Local.Launch.{local_close}
use conduit_client_python.Local.Stops.{by_close, at_exit, stops}
use conduit_client_python.Tests.Supervision.{waiting}
use conduit_client_python.Tests.Data.{engine, reply}
use conduit_client_python.Tests.Supervision.{machine, args, idle, command}

-- Nobody listens on the port yet.
abbrev pub refused : RpcError
refused = record {
  text = "rpc failed";
  call = some (record {
    code = unavailable;
    details = some "failed to connect to all addresses";
    status = no_status;
  });
}

abbrev pub version : Info
version = record { version = "0.18.0"; os = "linux"; arch = "arm64" }

abbrev late_reply : (r : Request) → ℕ → Outcome (Response r)
late_reply get_info s = if ltb s 500 then raised (rpc refused) else ok version
late_reply r s = reply false r

abbrev late : Engine
late = record (engine false) { answer = λ r t s. (late_reply r s, s + 1) }

abbrev late_machine : Machine
late_machine = record (machine none) { engine = late }

clock : IsMachineClock late_machine (λ s. s)
clock = record {
  engine_clock = record {
    reads = λ s. refl;
    monotonic_le = λ s. omega arith;
    answer_le = λ r t s. omega arith;
    sleep_le = λ d s whole. omega arith;
  };
  poll_le = λ s. omega arith;
}

serving : IsServing late_machine (λ s. s) 500 1 (λ s. Unit {0})
unfolding details_of
serving = record {
  read = λ s u. u;
  slept = λ d s u. u;
  probed = λ s u. u;
  poll_stays = λ s u. u;
  lives = λ s u. refl;
  answers = λ s u. elim (Bool-cases (ltb s 500)) [
    | inl early ↦ inr (ltb→lt _ _ early, (refused, rw early refl, ([], refl, tt)))
    | inr up ↦ inl (version, rw up refl)
  ];
  uninterrupted = λ d s. refl;
  monotonic_lag = λ s. omega arith;
  poll_lag = λ s. omega arith;
  answer_lag = λ s. omega arith;
  sleep_lag = λ d s. omega arith;
}

local_reaches_example :
    (w : World (Supervised ℕ)) × (local late_machine 30001 args idle ≡ some (ok tt, w))
unfolding announce spawn_engine
local_reaches_example =
    local_reaches late_machine (λ s. s) 500 1 (λ s. Unit {0}) clock serving 30001 args idle 8000
      refl refl tt (omega arith) (omega arith) (omega arith)

-- The first pause is interrupted, and the process exits on its signal.
abbrev impatient : Machine
impatient = record (machine none) {
  engine = record late { sleep = λ d s. (true, s + 1) };
  wait = λ d s. (ok tt, s + 1);
}

-- How a start ends, and what has been done to the process.
abbrev end_of : Outcome (Unit {0}) × World (Supervised ℕ) → Outcome (Unit {0}) × List Act
end_of (r, w) = (r, w.engine.acts)

interrupts :
    Option.map end_of (start_engine impatient 3 "/state" args idle)
    ≡ some (
      raised interrupt,
      opened_log "/state/conduit.log"
          ∷ spawned command
          ∷ polled none
          ∷ polled none
          ∷ terminated
          ∷ waited 10000
          ∷ closed_log
          ∷ [],
    )
unfolding start_engine spawn_engine find_binary free_port wait_ready ready_loop read_clock
    poll_beside poll_process get_engine_info call after_info after_pause pause address undo
    terminate tear_down from_rpc_error details_of find_info
interrupts = refl

-- A second interrupt, in the wait for the process: nothing kills it any more.
abbrev hasty : Machine
hasty = record (machine none) { wait = λ d s. (raised interrupt, s + 1) }

leaves_process :
    (stops hasty (by_close ∷ at_exit ∷ []) waiting).engine.acts
    ≡ polled none ∷ terminated ∷ waited 10000 ∷ []
unfolding stops local_close close terminate tear_down poll_process atexit_kill exit_host
leaves_process = refl

-- A binary that cannot be executed: the log file stays open.
abbrev unspawnable : Machine
unspawnable = record (machine none) { spawn = λ argv s. (raised (os_error "Permission denied"), s) }

leaves_log_open :
    Option.map end_of (start_engine unspawnable 3 "/state" args idle)
    ≡ some (
      raised (os_error "Permission denied"),
      opened_log "/state/conduit.log" ∷ spawned command ∷ [],
    )
unfolding start_engine spawn_engine find_binary free_port
leaves_log_open = refl
