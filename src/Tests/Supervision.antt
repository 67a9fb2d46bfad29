-- ===== src/Tests/Supervision.antt =====
-- A supervisor over a small machine.
use conduit_client_python.Prelude.{
  ℕ, ◌+◌, ◌≡◌, refl, String, true, false, Option, none, some, List, [], ◌∷◌, arith,
}
use conduit_client_python.Prelude.Int.{ℤ, pos}
use conduit_client_python.Errors.{
  Outcome, ok, raised, timeout_expired, Exception, conduit, client_error,
}
use conduit_client_python.Client.{
  World, opened_channel, closed_channel, called, call, get_engine_info,
}
use conduit_client_python.Wire.{get_info}
use conduit_client_python.Run.{read_clock}
use conduit_client_python.Process.{
  Machine, opened_log, spawned, polled, closed_log, Supervised, terminate, tear_down, poll_process,
  drop, log_tail,
}
use conduit_client_python.Process.Teardown.{IsTornDown}
use conduit_client_python.Local.{poll_beside, address, shut, after_info, ready_loop, wait_ready}
use conduit_client_python.Local.Launch.{
  LocalArgs, find_binary, free_port, spawn_engine, undo, start_engine, local,
}
use conduit_client_python.Local.Ready.{IsMachineClock, wait_ready_total}
use conduit_client_python.Local.Start.{
  Unstarted, Started, start_engine_raised, start_engine_returned, local_total,
}
use conduit_client_python.Local.Stops.{by_close, at_exit, stops, torn_from, stops-IsTornDown}
use conduit_client_python.Tests.Data.{engine}
use conduit_client_python.Tests.Network.{host_of, empty_host, no_faults}

-- A process with an exit code, or one that runs and does not listen to signals.
abbrev pub machine : Option ℤ → Machine
machine code = record {
  engine = engine false;
  surroundings = host_of "Linux";
  faults = no_faults;
  cwd = "/work";
  make_dir = λ path s. (ok tt, s);
  assign_port = λ s. (ok (8000 + s), s + 1);
  open_log = λ path s. (ok tt, s);
  close_log = λ s. (ok tt, s);
  read_log = λ s. some (0, []);
  spawn = λ argv s. (ok tt, s);
  poll = λ s. (code, s);
  terminate = λ s. (ok tt, s);
  kill = λ s. (ok tt, s);
  wait = λ d s. (raised timeout_expired, s + d);
  decode_replace = λ bytes. "";
  show_port = λ n. "8000";
  show_code = λ n. "1";
  seconds = λ n. "30.0";
}

clock : (code : Option ℤ) → IsMachineClock (machine code) (λ s. s)
clock code = record {
  engine_clock = record {
    reads = λ s. refl;
    monotonic_le = λ s. omega arith;
    answer_le = λ r t s. omega arith;
    sleep_le = λ d s whole. omega arith;
  };
  poll_le = λ s. omega arith;
}

abbrev pub args : LocalArgs
args = record {
  state_dir = none;
  version = none;
  binary = some "/bin/conduit";
  startup_timeout = 30000;
}

abbrev pub idle : Supervised ℕ
idle = record { system = 0; host = empty_host; stopped = false; registered = false; acts = [] }

abbrev pub waiting : World (Supervised ℕ)
waiting = record { engine = record idle { registered = true }; closed = false; trace = [] }

wait_ready_ends :
    (result : Outcome (Unit {0}) × World (Supervised ℕ)) × (wait_ready
        (machine none)
        1001
        "127.0.0.1:8000"
        1000
        waiting
      ≡ some result)
wait_ready_ends =
    wait_ready_total (machine none) (λ s. s) (clock none) 1001 "127.0.0.1:8000" 1000 waiting
      (omega arith)

abbrev answered : Outcome (Unit {0}) × World (Supervised ℕ)
answered = (
  ok tt,
  record {
    engine = record idle { system = 1; registered = true; acts = polled none ∷ [] };
    closed = false;
    trace = opened_channel false "127.0.0.1:8000" ∷ called get_info 1000 ∷ [];
  },
)

local_total_example :
    (result : Outcome (Unit {0}) × World (Supervised ℕ)) × (local (machine none) 30001 args idle
      ≡ some result)
local_total_example = local_total (machine none) (λ s. s) (clock none) 30001 args idle (omega arith)

stops-IsTornDown_example :
    (r : Outcome (Unit {0})) × IsTornDown
      (machine none)
      (torn_from (machine none) by_close waiting)
      waiting.engine
      (r, (stops (machine none) (by_close ∷ at_exit ∷ by_close ∷ []) waiting).engine)
stops-IsTornDown_example =
    stops-IsTornDown (machine none) by_close (at_exit ∷ by_close ∷ []) waiting refl refl refl

abbrev pub command : List String
command =
    "/bin/conduit" ∷ "run" ∷ "--api.enabled" ∷ "--api.grpc.address=127.0.0.1:8000"
    ∷ "--api.http.address=127.0.0.1:8000" ∷ "--db.type=badger"
    ∷ "--db.badger.path=/state/conduit.db" ∷ []

abbrev started : World (Supervised ℕ)
started = record {
  engine = record idle {
    system = 3;
    registered = true;
    acts = opened_log "/state/conduit.log" ∷ spawned command ∷ polled none ∷ [];
  };
  closed = false;
  trace = opened_channel false "127.0.0.1:8000" ∷ called get_info 1000 ∷ [];
}

starts : start_engine (machine none) 2 "/state" args idle ≡ some (ok tt, started)
unfolding start_engine spawn_engine find_binary free_port wait_ready ready_loop read_clock
    poll_beside poll_process get_engine_info call after_info address undo
starts = refl

start_engine_returned_example : Started (machine none) "/state" args idle started
start_engine_returned_example = start_engine_returned (machine none) "/state" args idle 2 starts

abbrev crash : Exception
crash = conduit (
    client_error "conduit subprocess exited (code 1) before its API became ready. Log tail:\n"
      "client.engine_crashed")

abbrev crashed_world : World (Supervised ℕ)
crashed_world = record {
  engine = record {
    system = 2;
    host = empty_host;
    stopped = true;
    registered = true;
    acts =
        opened_log "/state/conduit.log"
        ∷ spawned command
        ∷ polled (some (pos 1))
        ∷ polled (some (pos 1))
        ∷ closed_log
        ∷ [];
  };
  closed = false;
  trace = opened_channel false "127.0.0.1:8000" ∷ closed_channel ∷ [];
}

crashes :
    start_engine (machine (some (pos 1))) 2 "/state" args idle ≡ some (raised crash, crashed_world)
unfolding start_engine spawn_engine find_binary free_port wait_ready ready_loop read_clock
    poll_beside poll_process get_engine_info call after_info address undo shut log_tail drop
    terminate tear_down
crashes = refl

start_engine_raised_example :
    Unstarted (machine (some (pos 1))) "/state" args idle 2 crash crashed_world
start_engine_raised_example =
    start_engine_raised (machine (some (pos 1))) "/state" args idle 2 crashes
