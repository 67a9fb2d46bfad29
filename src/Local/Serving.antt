-- ===== src/Local/Serving.antt =====
-- A process that lives and comes to serve its API.
use conduit_client_python.Prelude.{
  ℕ, ◌+◌, ◌≤◌, ◌<◌, ◌≡◌, refl, ◌⊎◌, inl, inr, false, none, List, All,
}
use conduit_client_python.Errors.{
  ConduitError, conduit, rpc, RpcError, Detail, details_of, ok, raised,
}
use conduit_client_python.Errors.Translate.{IsReadable, from_rpc_error_returns}
use conduit_client_python.Wire.{Info, get_info}
use conduit_client_python.Client.{World, call, get_engine_info}
use conduit_client_python.Run.{read_clock, pause}
use conduit_client_python.Process.{Machine, Supervised, poll_process}
use conduit_client_python.Local.{supervised, poll_beside}

module _ (M : Machine) (time : M.engine.State → ℕ) (ready lag : ℕ)
    (Live : M.engine.State → Type 0) where
  abbrev W : Type 0
  W = World (Supervised M.engine.State)

  -- A failure that the client can translate.
  abbrev pub IsTranslatable : RpcError → Type 0
  IsTranslatable exc =
      (details : List Detail) × (details_of exc.call ≡ ok details) × All IsReadable details

  -- A process that lives goes on to live while its client only probes it, reads the clock and sleeps,
  -- and the supervisor polls it, and its API answers from a time on; until then, a call fails, in a
  -- way that the client can translate. Each call takes no longer than the lag: reading the clock,
  -- polling the process, `GetInfo`, and a sleep beyond its length. No sleep is interrupted.
  pub record IsServing : Type 0 where
    pub read : (s : M.engine.State) → Live s → Live (M.engine.monotonic s).1
    pub slept : (d : ℕ) (s : M.engine.State) → Live s → Live (M.engine.sleep d s).1
    pub probed : (s : M.engine.State) → Live s → Live (M.engine.answer get_info 1000 s).1
    pub poll_stays : (s : M.engine.State) → Live s → Live (M.poll s).1
    pub lives : (s : M.engine.State) → Live s → (M.poll s).0 ≡ none
    pub answers :
        (s : M.engine.State)
        → Live s
        → ((info : Info) × ((M.engine.answer get_info 1000 s).0 ≡ ok info))
          ⊎ ((time s < ready)
              × ((exc : RpcError) × ((M.engine.answer get_info 1000 s).0 ≡ raised (rpc exc))
                  × IsTranslatable exc))
    pub uninterrupted : (d : ℕ) (s : M.engine.State) → (M.engine.sleep d s).0 ≡ false
    pub monotonic_lag : (s : M.engine.State) → time (M.engine.monotonic s).1 ≤ time s + lag
    pub poll_lag : (s : M.engine.State) → time (M.poll s).1 ≤ time s + lag
    pub answer_lag : (s : M.engine.State) → time (M.engine.answer get_info 1000 s).1 ≤ time s + lag
    pub sleep_lag : (d : ℕ) (s : M.engine.State) → time (M.engine.sleep d s).1 ≤ time s + d + lag

  module _ (serving : IsServing) where
    pub Live-read_clock :
        (w : W) → Live w.engine.system → Live (read_clock (supervised M) w).1.engine.system
    unfolding read_clock
    Live-read_clock w = serving.read w.engine.system

    pub Live-poll_beside : (w : W) → Live w.engine.system → Live (poll_beside M w).1.engine.system
    unfolding poll_beside poll_process
    Live-poll_beside w = serving.poll_stays w.engine.system

    pub Live-info :
        (w : W)
        → Live w.engine.system
        → Live (get_engine_info (supervised M) 1000 w).1.engine.system
    unfolding get_engine_info call
    Live-info w = serving.probed w.engine.system

    pub Live-pause :
        (w : W) → Live w.engine.system → Live (pause (supervised M) 100 w).1.engine.system
    unfolding pause
    Live-pause w = serving.slept 100 w.engine.system

    pub read_lag :
        (w : W) → time (read_clock (supervised M) w).1.engine.system ≤ time w.engine.system + lag
    unfolding read_clock
    read_lag w = serving.monotonic_lag w.engine.system

    pub poll_lag : (w : W) → time (poll_beside M w).1.engine.system ≤ time w.engine.system + lag
    unfolding poll_beside poll_process
    poll_lag w = serving.poll_lag w.engine.system

    pub poll_lives : (w : W) → Live w.engine.system → (poll_beside M w).0 ≡ none
    unfolding poll_beside poll_process
    poll_lives w = serving.lives w.engine.system

    pub info_lag :
        (w : W)
        → time (get_engine_info (supervised M) 1000 w).1.engine.system ≤ time w.engine.system + lag
    unfolding get_engine_info call
    info_lag w = serving.answer_lag w.engine.system

    pub pause_lag :
        (w : W)
        → time (pause (supervised M) 100 w).1.engine.system ≤ time w.engine.system + 100 + lag
    unfolding pause
    pause_lag w = serving.sleep_lag 100 w.engine.system

    -- What the client makes of an answer.
    pub info-cases :
        (w : W)
        → Live w.engine.system
        → ((info : Info) × ((get_engine_info (supervised M) 1000 w).0 ≡ ok info))
          ⊎ ((time w.engine.system < ready)
              × ((e : ConduitError) × ((get_engine_info (supervised M) 1000 w).0
                    ≡ raised (conduit e))))
    unfolding get_engine_info call
    info-cases w live = elim (serving.answers w.engine.system live) [
      | inl (info, answers) ↦ inl (info, rw answers refl)
      | inr (early, (exc, fails, (details, found, readable))) ↦
          let (e, translates, _, _, _) = from_rpc_error_returns exc details found readable in
          inr (early, (e, rw (fails, translates) refl))
    ]
