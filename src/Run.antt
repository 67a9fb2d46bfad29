-- ===== src/Run.antt =====
-- conduit/run.py: the handle's `status`, `wait_running` and `stop`, over the client.
pub mod Status
pub mod Pause
pub mod Settle
pub mod Wait
pub mod Ending
pub mod Polling
pub mod Reaches
use conduit_client_python.Prelude.{
  ℕ, zero, suc, ◌+◌, String, Bool, true, false, Option, none, some, List, [], ◌∷◌, ◌++◌, ◌<>◌, ◌==◌,
  ltb, eqb, if◌then◌else◌, after_prefix, lower,
}
use conduit_client_python.Prelude.Int.{ℤ, pos, negsuc}
use conduit_client_python.Errors.{
  Exception, conduit, value_error, interrupt, client_error, Outcome, ok, raised, ◌>>=◌,
}
use conduit_client_python.Exec.{Exec, lift, ◌>>=◌ as exec_bind}
use conduit_client_python.Wire.{PipelineState, Request, get_pipeline, stop_pipeline}
use conduit_client_python.Client.{Engine, Event, slept, Run, World, call}

abbrev pub status_prefix : String
status_prefix = "STATUS_"

abbrev pub stopped_reason_prefix : String
stopped_reason_prefix = "STOPPED_REASON_"

-- `_strip_enum_prefix`
unfoldable pub strip_enum_prefix : String → String → String
strip_enum_prefix name prefix = elim (after_prefix prefix name) [
  | none ↦ lower name
  | some rest ↦ lower rest
]

-- `Pipeline.Status.Name`: a number that has no name is a `ValueError`.
unfoldable pub status_name : ℤ → Outcome String
status_name (negsuc n) = raised (value_error "Enum Status has no name defined for value")
status_name (pos n) =
    if eqb n 0
    then ok "STATUS_UNSPECIFIED"
    else if eqb n 1
    then ok "STATUS_RUNNING"
    else if eqb n 2
    then ok "STATUS_STOPPED"
    else if eqb n 3
    then ok "STATUS_DEGRADED"
    else if eqb n 4
    then ok "STATUS_RECOVERING"
    else raised (value_error "Enum Status has no name defined for value")

-- `Pipeline.State.StoppedReason.Name`
unfoldable pub stopped_reason_name : ℤ → Outcome String
stopped_reason_name (negsuc n) =
    raised (value_error "Enum StoppedReason has no name defined for value")
stopped_reason_name (pos n) =
    if eqb n 0
    then ok "STOPPED_REASON_UNSPECIFIED"
    else if eqb n 1
    then ok "STOPPED_REASON_USER"
    else if eqb n 2
    then ok "STOPPED_REASON_SYSTEM"
    else raised (value_error "Enum StoppedReason has no name defined for value")

pub record RunStatus : Type 0 where
  pub status : String
  pub error : String
  pub stopped_reason : String

unfoldable pub is_running : RunStatus → Bool
is_running s = s.status == "running"

unfoldable pub is_degraded : RunStatus → Bool
is_degraded s = s.status == "degraded"

-- What `status` makes of the state in the response.
unfoldable pub run_status : PipelineState → Outcome RunStatus
run_status state = do
  name ← status_name state.status
  reason ← stopped_reason_name state.stopped_reason
  ok (record {
    status = strip_enum_prefix name status_prefix;
    error = state.error;
    stopped_reason = strip_enum_prefix reason stopped_reason_prefix;
  })

-- How Python writes a text with `!r`, and a number of milliseconds as seconds.
pub record Format : Type 0 where
  pub repr : String → String
  pub seconds : ℕ → String

-- `last.status if last else 'unknown'`
abbrev pub last_status : Option RunStatus → String
last_status none = "unknown"
last_status (some s) = s.status

-- An interrupt comes out of the sleep.
abbrev pub pause_result : Bool → Outcome (Unit {0})
pause_result true = raised interrupt
pause_result false = ok tt

-- What follows a sleep in a loop, if the sleep has returned.
unfoldable pub after_pause :
    {A S : Type 0}
    → Outcome (Unit {0})
    → World S
    → (World S → Option (Outcome A × World S))
    → Option (Outcome A × World S)
after_pause (ok u) w next = next w
after_pause (raised x) w next = some (raised x, w)

module _ (E : Engine) where
  -- `Run.status`
  unfoldable pub status : Run → ℕ → Exec (World E.State) RunStatus
  status run timeout =
      exec_bind (call E (get_pipeline run.pipeline_id) timeout)
        λ response. lift (run_status response.state)

  -- `Run.stop`
  unfoldable pub stop : Run → Bool → ℕ → Exec (World E.State) (Unit {0})
  stop run force timeout = call E (stop_pipeline run.pipeline_id force) timeout

  -- `time.monotonic()`
  unfoldable pub read_clock : World E.State → ℕ × World E.State
  read_clock w = let (now, engine) = E.monotonic w.engine in (now, record w { engine = engine })

  -- `time.sleep(poll_interval)`
  unfoldable pub pause : ℕ → Exec (World E.State) (Unit {0})
  pause d w =
      let (cut, engine) = E.sleep d w.engine in
      (pause_result cut, record w { engine = engine; trace = w.trace ++ slept d ∷ [] })

  module _ (format : Format) (run : Run) (timeout poll_interval : ℕ) where
    abbrev pub degraded_error : RunStatus → Exception
    degraded_error s = conduit (
        client_error
          ("pipeline "
            <> format.repr run.pipeline_id
            <> " became degraded while waiting to run: "
            <> s.error)
          "client.pipeline_degraded")

    abbrev pub timeout_error : Option RunStatus → Exception
    timeout_error last = conduit (
        client_error
          ("pipeline "
            <> format.repr run.pipeline_id
            <> " did not reach running within "
            <> format.seconds timeout
            <> "s (last observed status: "
            <> last_status last
            <> ")")
          "client.wait_timeout")

    -- The tests on the status that `status()` returned, if it returned; `next` goes on.
    unfoldable pub settle :
        Outcome RunStatus
        → World E.State
        → (RunStatus → Option (Outcome RunStatus × World E.State))
        → Option (Outcome RunStatus × World E.State)
    settle (raised x) w next = some (raised x, w)
    settle (ok s) w next = elim (is_running s) [
      | true ↦ some (ok s, w)
      | false ↦ elim (is_degraded s) [ true ↦ some (raised (degraded_error s), w) | false ↦ next s ]
    ]

    -- The `while` loop of `wait_running`. `none` means that the fuel ran out.
    unfoldable pub poll_loop :
        ℕ → ℕ → Option RunStatus → World E.State → Option (Outcome RunStatus × World E.State)
    poll_loop zero deadline last w = none
    poll_loop (suc fuel) deadline last w =
        let (now, w') = read_clock w in
        elim (ltb now deadline) [
          | false ↦ some (raised (timeout_error last), w')
          | true ↦
              let (answer, w'') = status run 5000 w' in
              settle answer w'' λ s.
                let (r, v) = pause poll_interval w'' in
                after_pause r v (poll_loop fuel deadline (some s))
        ]

    -- `Run.wait_running`
    unfoldable pub wait_running : ℕ → World E.State → Option (Outcome RunStatus × World E.State)
    wait_running fuel w = let (start, w') = read_clock w in poll_loop fuel (start + timeout) none w'
