-- ===== src/Local.antt =====
-- conduit/_local.py: `LocalConduit`, which waits for the engine that it has started. The state
-- is that of its client, over an engine whose state is that of the supervisor.
pub mod Launch
pub mod Since
pub mod Ready
pub mod Outcomes
pub mod Start
pub mod Stops
pub mod Exit
pub mod Serving
pub mod Reaches
pub mod Orphan
pub mod Whole
pub mod Binary
use mathlib.Core.Option
use conduit_client_python.Prelude.{
  ℕ, zero, suc, ◌+◌, String, Bool, true, false, Option, none, some, List, [], ◌∷◌, ◌++◌, ◌<>◌, ltb,
}
use conduit_client_python.Prelude.Int.{ℤ}
use conduit_client_python.Errors.{
  ConduitError, Exception, conduit, client_error, Outcome, ok, raised, to_string,
}
use conduit_client_python.Exec.{Exec, pure, raise, ◌>>=◌, ◌>>◌}
use conduit_client_python.Wire.{Info}
use conduit_client_python.Pipeline.{Pipeline}
use conduit_client_python.Client.{
  Engine, opened_channel, closed_channel, Run, World, get_engine_info, run, close,
}
use conduit_client_python.Run.{read_clock, pause, after_pause}
use conduit_client_python.Provision.{resolve_version, ensure_binary}
use conduit_client_python.Install.{Host}
use conduit_client_python.Process.{
  Machine, Act, warned, printed, made_dir, opened_log, spawned, Supervised, act, poll_process,
  terminate, log_tail,
}

-- `f"{last_error}"`
abbrev pub show_last : Option ConduitError → String
show_last none = "None"
show_last (some e) = to_string e

module _ (M : Machine) where
  -- The engine as the client of a `LocalConduit` has it.
  abbrev pub supervised : Engine
  supervised = record {
    State = Supervised M.engine.State;
    answer = λ r timeout s.
        let (reply, system) = M.engine.answer r timeout s.system in
        (reply, record s { system = system });
    close_channel = λ s. record s { system = M.engine.close_channel s.system };
    monotonic =
        λ s. let (now, system) = M.engine.monotonic s.system in (now, record s { system = system });
    sleep =
        λ d s. let (cut, system) = M.engine.sleep d s.system in (cut, record s { system = system });
  }

  -- What the supervisor does beside its client.
  abbrev pub beside :
      {A : Type 0} → Exec (Supervised M.engine.State) A → Exec (World (Supervised M.engine.State)) A
  beside m w = let (r, engine) = m w.engine in (r, record w { engine = engine })

  unfoldable pub poll_beside :
      World (Supervised M.engine.State) → Option ℤ × World (Supervised M.engine.State)
  poll_beside w =
      let (code, engine) = poll_process M w.engine in (code, record w { engine = engine })

  -- `addr`
  unfoldable pub address : ℕ → String
  address port = "127.0.0.1:" <> M.show_port port

  -- `channel.close()`
  unfoldable pub shut : World (Supervised M.engine.State) → World (Supervised M.engine.State)
  shut w = record w {
    engine = supervised.close_channel w.engine;
    trace = w.trace ++ closed_channel ∷ [];
  }

  abbrev pub crashed_error : ℤ → Supervised M.engine.State → Exception
  crashed_error code s = conduit (
      client_error
        ("conduit subprocess exited (code "
          <> M.show_code code
          <> ") before its API became ready. Log tail:\n"
          <> log_tail M s)
        "client.engine_crashed")

  abbrev pub unreachable_error :
      String → ℕ → Option ConduitError → Supervised M.engine.State → Exception
  unreachable_error addr timeout last s = conduit (
      client_error
        ("conduit subprocess did not become reachable at "
          <> addr
          <> " within "
          <> M.seconds timeout
          <> "s (last error: "
          <> show_last last
          <> "). Log tail:\n"
          <> log_tail M s)
        "client.engine_unreachable")

  -- The `try` around `get_info`; `next` goes on.
  unfoldable pub after_info :
      Outcome Info
      → World (Supervised M.engine.State)
      → (ConduitError → Option (Outcome (Unit {0}) × World (Supervised M.engine.State)))
      → Option (Outcome (Unit {0}) × World (Supervised M.engine.State))
  after_info (ok info) w next = some (ok tt, w)
  after_info (raised (conduit e)) w next = next e
  after_info (raised x) w next = some (raised x, w)

  -- The `while` loop of `_wait_ready`. `none` means that the fuel ran out.
  unfoldable pub ready_loop :
      String
      → ℕ
      → ℕ
      → ℕ
      → Option ConduitError
      → World (Supervised M.engine.State)
      → Option (Outcome (Unit {0}) × World (Supervised M.engine.State))
  ready_loop addr timeout zero deadline last w = none
  ready_loop addr timeout (suc fuel) deadline last w =
      let (now, w1) = read_clock supervised w in
      elim (ltb now deadline) [
        | false ↦ some (raised (unreachable_error addr timeout last (shut w1).engine), shut w1)
        | true ↦
            let (exit_code, w2) = poll_beside w1 in
            elim exit_code [
              | some n ↦ some (raised (crashed_error n (shut w2).engine), shut w2)
              | none ↦
                  let (reply, w3) = get_engine_info supervised 1000 w2 in
                  after_info reply w3 λ e.
                    let (r, v) = pause supervised 100 w3 in
                    after_pause r v (ready_loop addr timeout fuel deadline (some e))
            ]
      ]

  -- `_wait_ready`; what it returns is the client of the state.
  unfoldable pub wait_ready :
      ℕ
      → String
      → ℕ
      → World (Supervised M.engine.State)
      → Option (Outcome (Unit {0}) × World (Supervised M.engine.State))
  wait_ready fuel addr timeout w =
      let (start, w1) = read_clock supervised w in
      ready_loop addr timeout fuel (start + timeout) none
        (record w1 { trace = w1.trace ++ opened_channel false addr ∷ [] })
