-- ===== src/Tests/Whole.antt =====
-- A program that starts an engine, runs a pipeline and leaves, on a host whose process does not
-- react to its signal.
use conduit_client_python.Prelude.{
  ℕ, ◌+◌, ◌≡◌, refl, inl, inr, Bool, true, false, Option, none, some, [], arith, if◌then◌else◌,
  Bool-cases,
}
use conduit_client_python.Prelude.Int.{pos}
use conduit_client_python.Errors.{Outcome, ok, raised, timeout_expired}
use conduit_client_python.Exec.{Exec}
use conduit_client_python.Client.{Engine, Run, World, run}
use conduit_client_python.Session.{runs, begun, then_step}
use conduit_client_python.Client.Moved.{IsLasting}
use conduit_client_python.Process.{Machine, Supervised}
use conduit_client_python.Local.{supervised}
use conduit_client_python.Local.Ready.{IsMachineClock}
use conduit_client_python.Local.Exit.{IsReported, IsDelivered}
use conduit_client_python.Local.Orphan.{IsDead}
use conduit_client_python.Local.Whole.{with_local, IsProgram, IsSole, with_local_ends}
use conduit_client_python.Run.{RunStatus}
use conduit_client_python.Quickstart.{quickstart}
use conduit_client_python.Quickstart.Ends.{IsOver, quickstart_ends}
use conduit_client_python.Tests.Waits.{format}
use conduit_client_python.Tests.Data.{reply, orders_pipeline}
use conduit_client_python.Tests.Network.{host_of, empty_host, no_faults}
use conduit_client_python.Tests.Supervision.{args}

-- The time, and whether there is a process.
abbrev pub S : Type 0
S = ℕ × Bool

abbrev pub served : Engine
served = record {
  State = S;
  answer = λ r t s. (reply false r, (s.0 + 1, s.1));
  close_channel = λ s. s;
  monotonic = λ s. (s.0, s);
  sleep = λ d s. (false, (s.0 + d, s.1));
}

abbrev pub host : Machine
host = record {
  engine = served;
  surroundings = host_of "Linux";
  faults = no_faults;
  cwd = "/work";
  make_dir = λ path s. (ok tt, s);
  assign_port = λ s. (ok 8000, s);
  open_log = λ path s. (ok tt, s);
  close_log = λ s. (ok tt, s);
  read_log = λ s. some (0, []);
  spawn = λ argv s. (ok tt, (s.0, true));
  poll = λ s. (if s.1 then none else some (pos 137), s);
  terminate = λ s. (ok tt, s);
  kill = λ s. (ok tt, (s.0, false));
  wait = λ d s. (if s.1 then raised timeout_expired else ok tt, (s.0 + d, s.1));
  decode_replace = λ bytes. "";
  show_port = λ n. "8000";
  show_code = λ n. "137";
  seconds = λ n. "30.0";
}

abbrev pub alive : S → Bool
alive s = s.1

sole : IsSole host alive
sole = record {
  makes = λ path s dead. dead;
  assigns = λ s dead. dead;
  opens = λ path s dead. dead;
  spawns = λ argv s dead fails. cc fails;
}

pub reported : IsReported host alive
reported = record {
  polls = λ s code h. ground arith;
  waits = λ d s h. ground arith;
  channel = λ s dead. dead;
  closes = λ s dead. dead;
}

pub delivered : IsDelivered host alive
delivered = record {
  terminates = λ s. refl;
  kills = λ s. refl;
  expires = λ d s. elim (Bool-cases (alive s)) [
    | inl lives ↦ inr (rw lives refl)
    | inr dead ↦ inl (rw dead refl)
  ];
  exits = λ s. refl;
  log_closes = λ s. refl;
}

dead_lasts : IsLasting served (λ s. alive s ≡ false)
dead_lasts = record { answered = λ r timeout s h. h; read = λ s h. h; slept = λ d s h. h }

clock : IsMachineClock host (λ s. s.0)
clock = record {
  engine_clock = record {
    reads = λ s. refl;
    monotonic_le = λ s. omega arith;
    answer_le = λ r t s. omega arith;
    sleep_le = λ d s whole. omega arith;
  };
  poll_le = λ s. omega arith;
}

abbrev pub idle : Supervised S
idle = record {
  system = (0, false);
  host = empty_host;
  stopped = false;
  registered = false;
  acts = [];
}

abbrev body : Exec (World (Supervised S)) Run
body = run (supervised host) orders_pipeline true 10000

program : IsProgram host body
program w = (_, then_step begun (runs orders_pipeline true 10000))

with_local_ends_example :
    (end : Outcome Run × World (Supervised S)) × (with_local host 30001 args body idle ≡ some end)
    × IsDead host alive end.1.engine
with_local_ends_example =
    with_local_ends host alive sole reported delivered dead_lasts (λ s. s.0) clock 30001 args body
      idle (omega arith) refl program

quickstart_ends_example :
    (end : Outcome (Option RunStatus) × World (Supervised S)) × (quickstart host format 30001 idle
      ≡ some end)
    × IsOver end.0
    × IsDead host alive end.1.engine
quickstart_ends_example =
    quickstart_ends host format alive (λ s. s.0) clock sole reported delivered dead_lasts 30001 idle
      (omega arith) refl
