-- ===== src/Local/Outcomes.antt =====
-- How the wait for an engine ends, and what it does until then.
use mathlib.Core.Path.{subst}
use mathlib.Core.Option.{some-injective, none-ne-some}
use mathlib.Core.List.{append-nil}
use conduit_client_python.Prelude.{
  ℕ, zero, suc, ◌+◌, ◌≤◌, ◌≡◌, refl, sym, inl, inr, Bool-cases, Option-cases, true, false, String,
  Option, none, some, [], ◌∷◌, ◌++◌, ltb, ltb→le,
}
use conduit_client_python.Prelude.Int.{ℤ}
use conduit_client_python.Errors.{ConduitError, Exception, conduit, interrupt, Outcome, ok, raised}
use conduit_client_python.Wire.{Info}
use conduit_client_python.Client.{opened_channel, World, get_engine_info}
use conduit_client_python.Run.{read_clock, pause, after_pause}
use conduit_client_python.Run.Pause.{pause-cases}
use conduit_client_python.Process.{Machine, Supervised}
use conduit_client_python.Local.{
  supervised, poll_beside, shut, crashed_error, unreachable_error, after_info, ready_loop,
  wait_ready,
}
use conduit_client_python.Local.Since.{
  Since, Since-read_clock, Since-poll_beside, Since-get_engine_info, Since-pause,
}

-- What is not a `ConduitError`.
abbrev pub IsForeignError : Exception → Type 0
IsForeignError (conduit e) = ⊥
IsForeignError x = Unit

module _ (M : Machine) where
  abbrev W : Type 0
  W = World (Supervised M.engine.State)

  -- The ways in which the wait can end, each with what has been done until then. In the second and
  -- the third the channel is closed.
  pub data Readied (addr : String) (timeout deadline : ℕ) (start : W)
      : Outcome (Unit {0}) × W → Type 0 where
    ready :
        (info : Info) (w : W)
        → (get_engine_info (supervised M) 1000 w).0 ≡ ok info
        → Since M start (get_engine_info (supervised M) 1000 w).1
        → Readied addr timeout deadline start (ok tt, (get_engine_info (supervised M) 1000 w).1)
    crashed :
        (code : ℤ) (w v : W)
        → (poll_beside M w).0 ≡ some code
        → Since M start (poll_beside M w).1
        → v ≡ shut M (poll_beside M w).1
        → Readied addr timeout deadline start (raised (crashed_error M code v.engine), v)
    unreachable :
        (last : Option ConduitError) (w v : W)
        → deadline ≤ (read_clock (supervised M) w).0
        → Since M start (read_clock (supervised M) w).1
        → v ≡ shut M (read_clock (supervised M) w).1
        → Readied addr timeout deadline start
            (raised (unreachable_error M addr timeout last v.engine), v)
    failed :
        (x : Exception) (w : W)
        → IsForeignError x
        → (get_engine_info (supervised M) 1000 w).0 ≡ raised x
        → Since M start (get_engine_info (supervised M) 1000 w).1
        → Readied addr timeout deadline start (raised x, (get_engine_info (supervised M) 1000 w).1)
    interrupted :
        (w : W)
        → ((supervised M).sleep 100 w.engine).0 ≡ true
        → Since M start (pause (supervised M) 100 w).1
        → Readied addr timeout deadline start (raised interrupt, (pause (supervised M) 100 w).1)

  pub stopped-Readied :
      {addr : String} {timeout deadline : ℕ} {start : W} {result : Outcome (Unit {0}) × W}
      → Readied addr timeout deadline start result
      → result.1.engine.stopped ≡ start.engine.stopped
  unfolding shut
  stopped-Readied (ready info w answered since) = since.stopped
  stopped-Readied (crashed code w v exits since e) = rw e since.stopped
  stopped-Readied (unreachable last w v late since e) = rw e since.stopped
  stopped-Readied (failed x w foreign fails since) = since.stopped
  stopped-Readied (interrupted w cut since) = since.stopped

  module _ (start : W) where
    module _ (addr : String) (timeout deadline : ℕ) where
      after_info-Readied :
          (w : W) (next : ConduitError → Option (Outcome (Unit {0}) × W))
          (result : Outcome (Unit {0}) × W)
          → Since M start (get_engine_info (supervised M) 1000 w).1
          → (reply : Outcome Info) → (get_engine_info (supervised M) 1000 w).0 ≡ reply
          → ((e : ConduitError) → next e ≡ some result → Readied addr timeout deadline start result)
          → after_info M reply (get_engine_info (supervised M) 1000 w).1 next ≡ some result
          → Readied addr timeout deadline start result
      unfolding after_info
      after_info-Readied w next result since (ok info) answer more h =
          subst (Readied addr timeout deadline start) (some-injective _ _ h)
            (ready info w answer since)
      after_info-Readied w next result since (raised (conduit e)) answer more h = more e h
      after_info-Readied w next result since (raised x) answer more h =
          subst (Readied addr timeout deadline start) (some-injective _ _ h)
            (failed x w tt answer since)

      ready_loop-Readied :
          (fuel : ℕ) (last : Option ConduitError) (w : W) (result : Outcome (Unit {0}) × W)
          → Since M start w
          → ready_loop M addr timeout fuel deadline last w ≡ some result
          → Readied addr timeout deadline start result
      unfolding ready_loop after_pause
      ready_loop-Readied zero last w result since h = absurd (none-ne-some _ h)
      ready_loop-Readied (suc fuel) last w result since h =
          let E = supervised M in
          let w1 = (read_clock E w).1 in
          let w2 = (poll_beside M w1).1 in
          let w3 = (get_engine_info E 1000 w2).1 in
          let asked = Since-read_clock M start w since in
          let polled = Since-poll_beside M start w1 asked in
          elim (Bool-cases (ltb (read_clock E w).0 deadline)) [
            | inr late ↦
                subst (Readied addr timeout deadline start)
                  (some-injective _ _ (rw (late, ready_loop) at h))
                  (unreachable last w _ (ltb→le _ _ late) asked refl)
            | inl early ↦ elim (Option-cases (poll_beside M w1).0) [
              | inr (code, exits) ↦
                  subst (Readied addr timeout deadline start)
                    (some-injective _ _ (rw (early, ready_loop, exits) at h))
                    (crashed code w1 _ exits polled refl)
              | inl runs ↦
                  let answered = Since-get_engine_info M start w2 polled in
                  after_info-Readied w2 _ result answered (get_engine_info E 1000 w2).0 refl
                    (λ e h'.
                      let paused = Since-pause M start w3 answered in
                      elim (pause-cases E 100 w3) [
                        | inl (whole, returns) ↦
                            ready_loop-Readied fuel (some e) (pause E 100 w3).1 result paused
                              (rw (returns, after_pause) at h')
                        | inr (cut, raises) ↦
                            subst (Readied addr timeout deadline start)
                              (some-injective _ _ (rw (raises, after_pause) at h'))
                              (interrupted w3 cut paused)
                      ])
                    (rw (early, ready_loop, runs) at h)
            ]
          ]

  pub wait_ready-Readied :
      (fuel : ℕ) (addr : String) (timeout : ℕ) (w : W) (result : Outcome (Unit {0}) × W)
      → wait_ready M fuel addr timeout w ≡ some result
      → Readied addr timeout
          ((read_clock (supervised M) w).0 + timeout)
          (record w { trace = w.trace ++ opened_channel false addr ∷ [] })
          result
  unfolding wait_ready read_clock
  wait_ready-Readied fuel addr timeout w result h =
      ready_loop-Readied (record w { trace = w.trace ++ opened_channel false addr ∷ [] }) addr
        timeout ((read_clock (supervised M) w).0 + timeout) fuel none _ result
        (record {
          polls = [];
          events = [];
          closed = refl;
          stopped = refl;
          registered = refl;
          host = refl;
          acts = sym (append-nil w.engine.acts);
          trace = sym (append-nil _);
          only_polls = tt;
          only_probes = tt;
        })
        h
