-- ===== src/Session/Quiet.antt =====
-- The calls other than `close`: what they add to the trace of a client.
use mathlib.Core.Path.{subst}
use mathlib.Core.Option.{some-injective, none-ne-some}
use mathlib.Core.List.{append-nil, append_assoc}
use conduit_client_python.Prelude.{
  ℕ, zero, suc, ◌≡◌, refl, ◌∙◌, sym, inl, inr, Bool-cases, Bool, String, Option, none, some, List,
  [], ◌∷◌, ◌++◌, All, All-append, ltb,
}
use conduit_client_python.Errors.{conduit, Outcome, ok, raised}
use conduit_client_python.Exec.{Exec, raise, catch, catch-amend, continue, ◌>>=◌}
use conduit_client_python.Wire.{Request, create_pipeline, get_info, stop_pipeline, get_pipeline}
use conduit_client_python.Pipeline.{BuildPlan, Pipeline}
use conduit_client_python.Client.{
  Engine, Event, opened_channel, called, closed_channel, hooked, slept, Run, World, with_id, call,
  get_engine_info, populate, submit, run,
}
use conduit_client_python.Client.Trace.{script, play, populate-play}
use conduit_client_python.Run.{
  RunStatus, Format, status, stop, read_clock, pause, poll_loop, wait_running, after_pause,
}
use conduit_client_python.Run.Settle.{settle_keeps, after_pause_keeps}
use conduit_client_python.Client.Moved.{Moved, stays, answers, reads, sleeps, Moved-trans}

-- An RPC, or a sleep.
abbrev pub IsQuiet : Event → Type 0
IsQuiet (called r timeout) = Unit
IsQuiet (slept d) = Unit
IsQuiet (opened_channel secure addr) = ⊥
IsQuiet closed_channel = ⊥
IsQuiet hooked = ⊥

module _ (E : Engine) where
  -- From one state of a client to another there were RPCs and sleeps, and the client was not closed;
  -- the engine was asked, and the clock read.
  pub record Quietly (start w : World E.State) : Type 0 where
    pub events : List Event
    pub trace : w.trace ≡ start.trace ++ events
    pub closed : w.closed ≡ start.closed
    pub quiet : All IsQuiet events
    pub engine : Moved E start.engine w.engine

  pub Quietly-refl : (w : World E.State) → Quietly w w
  Quietly-refl w = record {
    events = [];
    trace = sym (append-nil w.trace);
    closed = refl;
    quiet = tt;
    engine = stays;
  }

  pub Quietly-trans : {u v w : World E.State} → Quietly u v → Quietly v w → Quietly u w
  Quietly-trans {u} {v} {w} a b = record {
    events = a.events ++ b.events;
    trace = rw (b.trace, a.trace, append_assoc) refl;
    closed = b.closed ∙ a.closed;
    quiet = All-append IsQuiet a.events b.events a.quiet b.quiet;
    engine = Moved-trans E a.engine b.engine;
  }

  -- An action that is quiet from every state.
  abbrev pub IsQuietly : {A : Type 0} → Exec (World E.State) A → Type 0
  IsQuietly m = (w : World E.State) → Quietly w (m w).1

  continue-Quietly :
      {A B : Type 0} (u : World E.State) (r : Outcome A) (f : A → Exec (World E.State) B)
      (w : World E.State)
      → Quietly u w
      → ((a : A) → IsQuietly (f a))
      → Quietly u (continue r f w).1
  continue-Quietly u (ok a) f w h hf = Quietly-trans h (hf a w)
  continue-Quietly u (raised x) f w h hf = h

  pub bind-IsQuietly :
      {A B : Type 0} (m : Exec (World E.State) A) (f : A → Exec (World E.State) B)
      → IsQuietly m
      → ((a : A) → IsQuietly (f a))
      → IsQuietly (m >>= f)
  bind-IsQuietly m f hm hf w = continue-Quietly w (m w).0 f (m w).1 (hm w) hf

  call-IsQuietly : (r : Request) (timeout : ℕ) → IsQuietly (call E r timeout)
  unfolding call
  call-IsQuietly r timeout w = record {
    events = called r timeout ∷ [];
    trace = refl;
    closed = refl;
    quiet = (tt, tt);
    engine = answers r timeout stays;
  }

  play-IsQuietly : (timeout : ℕ) (rs : List Request) → IsQuietly (play E timeout rs)
  unfolding play
  play-IsQuietly timeout [] = Quietly-refl
  play-IsQuietly timeout (r ∷ rs) =
      bind-IsQuietly _ _ (call-IsQuietly r timeout) (λ _. play-IsQuietly timeout rs)

  submit-IsQuietly :
      (plan : BuildPlan) (start : Bool) (timeout : ℕ) → IsQuietly (submit E plan start timeout)
  unfolding submit
  submit-IsQuietly plan start timeout =
      bind-IsQuietly (call E (create_pipeline plan.create_pipeline) timeout) _
        (call-IsQuietly (create_pipeline plan.create_pipeline) timeout)
        λ created.
          bind-IsQuietly
            (catch (populate E plan created.id start timeout)
              (λ e. raise (conduit (with_id created.id e))))
            _ (guarded created.id) (λ _. Quietly-refl)
    where
      guarded :
          (id : String)
          → IsQuietly
              (catch (populate E plan id start timeout) (λ e. raise (conduit (with_id id e))))
      guarded id w =
          rw
            (
              catch-amend (with_id id) (populate E plan id start timeout) w,
              populate-play E timeout plan id start,
            )
            (play-IsQuietly timeout (script plan id start) w)

  pub run-IsQuietly :
      (p : Pipeline) (start : Bool) (timeout : ℕ) → IsQuietly (run E p start timeout)
  unfolding run
  run-IsQuietly p start timeout =
      bind-IsQuietly _ _ Quietly-refl (λ plan. submit-IsQuietly plan start timeout)

  pub get_engine_info-IsQuietly : (timeout : ℕ) → IsQuietly (get_engine_info E timeout)
  unfolding get_engine_info
  get_engine_info-IsQuietly timeout = call-IsQuietly get_info timeout

  pub stop-IsQuietly :
      (handle : Run) (force : Bool) (timeout : ℕ) → IsQuietly (stop E handle force timeout)
  unfolding stop
  stop-IsQuietly handle force timeout =
      call-IsQuietly (stop_pipeline handle.pipeline_id force) timeout

  pub status-IsQuietly : (handle : Run) (timeout : ℕ) → IsQuietly (status E handle timeout)
  unfolding status
  status-IsQuietly handle timeout =
      bind-IsQuietly _ _ (call-IsQuietly (get_pipeline handle.pipeline_id) timeout)
        (λ response. Quietly-refl)

  read_clock-Quietly : (w : World E.State) → Quietly w (read_clock E w).1
  unfolding read_clock
  read_clock-Quietly w = record {
    events = [];
    trace = sym (append-nil w.trace);
    closed = refl;
    quiet = tt;
    engine = reads stays;
  }

  pause-Quietly : (d : ℕ) (w : World E.State) → Quietly w (pause E d w).1
  unfolding pause
  pause-Quietly d w = record {
    events = slept d ∷ [];
    trace = refl;
    closed = refl;
    quiet = (tt, tt);
    engine = sleeps d stays;
  }

  module _ (format : Format) (handle : Run) (timeout poll_interval : ℕ) where
    poll_loop-Quietly :
        (fuel deadline : ℕ) (last : Option RunStatus) (start w : World E.State)
        (result : Outcome RunStatus × World E.State)
        → Quietly start w
        → poll_loop E format handle timeout poll_interval fuel deadline last w ≡ some result
        → Quietly start result.1
    unfolding poll_loop after_pause
    poll_loop-Quietly zero deadline last start w result h e = absurd (none-ne-some _ e)
    poll_loop-Quietly (suc fuel) deadline last start w result h e =
        let w' = (read_clock E w).1 in
        let w'' = (status E handle 5000 w').1 in
        let read = Quietly-trans h (read_clock-Quietly w) in
        let asked = Quietly-trans read (status-IsQuietly handle 5000 w') in
        elim (Bool-cases (ltb (read_clock E w).0 deadline)) [
          | inl early ↦
              settle_keeps E format handle timeout poll_interval w'' _ (Quietly start)
                (status E handle 5000 w').0 result asked
                (λ s.
                  after_pause_keeps E (Quietly start) poll_interval w''
                    (poll_loop E format handle timeout poll_interval fuel deadline (some s)) result
                    (Quietly-trans asked (pause-Quietly poll_interval w''))
                    (λ whole.
                      poll_loop-Quietly fuel deadline (some s) start (pause E poll_interval w'').1
                        result (Quietly-trans asked (pause-Quietly poll_interval w''))))
                (rw (early, poll_loop) at e)
          | inr late ↦
              subst (λ (p : Outcome RunStatus × World E.State). Quietly start p.1)
                (some-injective _ _ (rw (late, poll_loop) at e)) read
        ]

    pub wait_running-Quietly :
        (fuel : ℕ) (w : World E.State) (result : Outcome RunStatus × World E.State)
        → wait_running E format handle timeout poll_interval fuel w ≡ some result
        → Quietly w result.1
    unfolding wait_running
    wait_running-Quietly fuel w result e =
        poll_loop-Quietly fuel _ none w (read_clock E w).1 result (read_clock-Quietly w) e
