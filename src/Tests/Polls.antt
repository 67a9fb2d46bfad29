-- ===== src/Tests/Polls.antt =====
-- An engine whose pipeline is running from a time on.
use conduit_client_python.Prelude.{
  ◌≤◌, Bool, ◌==◌, [], ℕ, String, ◌+◌, ◌≡◌, refl, inl, inr, Bool-cases, true, false, ltb, some,
  arith, if◌then◌else◌, after_prefix, lower,
}
use conduit_client_python.Prelude.Int.{pos}
use conduit_client_python.Errors.{Outcome, ok, raised, rpc}
use conduit_client_python.Wire.{Request, get_pipeline, stop_pipeline, PipelineMessage, Response}
use conduit_client_python.Client.{Engine, World}
use conduit_client_python.Run.{
  status_name, stopped_reason_name, strip_enum_prefix, RunStatus, is_running, is_degraded,
  run_status, wait_running,
}
use conduit_client_python.Run.Wait.{IsClock}
use conduit_client_python.Run.Reaches.{IsPrompt, IsKept, IsHealthy, wait_running_reaches}
use conduit_client_python.Run.Polling.{Within, wait_running-Within}
use conduit_client_python.Tests.Data.{missing, engine, reply, start, handle}
use conduit_client_python.Tests.Waits.{format, clock, running, waited, waits}

-- The time, and whether the pipeline has been started and not stopped.
abbrev Clocked : Type 0
Clocked = ℕ × Bool

abbrev state_at : Clocked → PipelineMessage
state_at (now, goes) = record {
  id = "pipeline-1";
  state = record {
    status = if goes then (if ltb now 500 then pos 2 else pos 1) else pos 2;
    error = "";
    stopped_reason = pos 0;
  };
}

-- It knows one pipeline, and stops it if it is told to.
abbrev slow_reply : (r : Request) → Clocked → Outcome (Response r) × Clocked
slow_reply (get_pipeline id) s =
    (if id == "pipeline-1" then ok (state_at s) else raised (rpc missing), (s.0 + 1, s.1))
slow_reply (stop_pipeline id force) s =
    if id == "pipeline-1" then (ok tt, (s.0 + 1, false)) else (raised (rpc missing), (s.0 + 1, s.1))
slow_reply r s = (reply false r, (s.0 + 1, s.1))

abbrev slow : Engine
slow = record {
  State = Clocked;
  answer = λ r t s. slow_reply r s;
  close_channel = λ s. s;
  monotonic = λ s. (s.0, s);
  sleep = λ d s. (false, (s.0 + d, s.1));
}

slow_reply_later : (r : Request) (s : Clocked) → s.0 ≤ (slow_reply r s).1.0
slow_reply_later (stop_pipeline id force) s = elim (Bool-cases (id == "pipeline-1")) [
  | inl ours ↦ rw ours (omega arith)
  | inr other ↦ rw other (omega arith)
]
slow_reply_later r s = omega arith

slow_clock : IsClock slow (λ s. s.0)
slow_clock = record {
  reads = λ s. refl;
  monotonic_le = λ s. omega arith;
  answer_le = λ r t s. slow_reply_later r s;
  sleep_le = λ d s whole. omega arith;
}

kept : IsKept slow handle (λ s. s.1 ≡ true)
kept = record { answered = λ s h. h; read = λ s h. h; slept = λ d s h. h }

prompt : IsPrompt slow (λ s. s.0) handle 1
prompt = record {
  monotonic_lag = λ s. omega arith;
  answer_lag = λ s. omega arith;
  sleep_lag = λ d s. omega arith;
  uninterrupted = λ d s. refl;
}

abbrev named : String → RunStatus
named name = record { status = name; error = ""; stopped_reason = "unspecified" }

healthy : IsHealthy slow (λ s. s.0) handle 500 1 (λ s. s.1 ≡ true)
unfolding run_status status_name stopped_reason_name strip_enum_prefix after_prefix lower is_running
    is_degraded
healthy s goes = elim (Bool-cases (ltb s.0 500)) [
  | inl early ↦ (
    state_at s,
    refl,
    (named "stopped", rw (goes, early) refl, refl, λ late. absurd (ground arith)),
  )
  | inr late ↦ (state_at s, refl, (named "running", rw (goes, late) refl, refl, λ up. refl))
]

abbrev going : World Clocked
going = record { engine = (0, true); closed = false; trace = [] }

wait_running_reaches_example :
    (s : RunStatus) × (v : World Clocked) × (wait_running slow format handle 1000 200 1001 going
      ≡ some (ok s, v))
    × (is_running s ≡ true)
    × (v.engine.1 ≡ true)
wait_running_reaches_example =
    wait_running_reaches slow (λ s. s.0) handle 500 1 (λ s. s.1 ≡ true) kept slow_clock prompt
      healthy format 1000 200 (omega arith) 1001 going refl (omega arith) (omega arith)
      (omega arith)

wait_running-Within_example :
    Within (engine false) (λ s. s) (clock false) format handle 1000 200 (omega arith) start waited
wait_running-Within_example =
    wait_running-Within (engine false) (λ s. s) (clock false) format handle 1000 200 (omega arith) 2
      start (ok running, waited) waits
