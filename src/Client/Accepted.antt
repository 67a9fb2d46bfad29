-- ===== src/Client/Accepted.antt =====
-- `Client.run` on an engine that accepts what it is sent for a pipeline.
use mathlib.Core.List.{append_assoc}
use conduit_client_python.Prelude.{ℕ, ◌≡◌, refl, String, true, false, List, [], ◌∷◌, ◌++◌, All}
use conduit_client_python.Errors.{ok}
use conduit_client_python.Wire.{Request, Response, create_pipeline, start_pipeline}
use conduit_client_python.Pipeline.{BuildPlan, Pipeline, build_requests}
use conduit_client_python.Client.{Engine, Run, World, call, submit, run}
use conduit_client_python.Client.Trace.{script, play, play-append}
use conduit_client_python.Client.Sequence.{guarded-play, run-submit}

module _ (E : Engine) (timeout : ℕ) where
  -- In the states of one kind a request is answered, and the answer leads to a state of another.
  abbrev pub Accepts : (r : Request) → (E.State → Type 0) → (Response r → E.State → Type 0) → Type 0
  Accepts r P Q =
      (s : E.State)
      → P s
      → (a : Response r) × ((E.answer r timeout s).0 ≡ ok a) × Q a (E.answer r timeout s).1

  pub call_accepted :
      (r : Request) (P : E.State → Type 0) (Q : Response r → E.State → Type 0) (w : World E.State)
      → Accepts r P Q
      → P w.engine
      → (a : Response r) × ((call E r timeout w).0 ≡ ok a) × Q a (call E r timeout w).1.engine
  unfolding call
  call_accepted r P Q w accepts h =
      let (a, answers, next) = accepts w.engine h in (a, rw answers refl, next)

  module _ (plan : BuildPlan) (Up : E.State → Type 0)
      (Created Started : String → E.State → Type 0) where
    -- An engine that is up creates the pipeline of a plan; once it has been created, and under its id,
    -- the other requests of the plan are accepted, and then it can be started.
    pub record IsAccepting : Type 0 where
      pub creates : Accepts (create_pipeline plan.create_pipeline) Up (λ m. Created m.id)
      pub configures :
          (id : String) → All (λ r. Accepts r (Created id) (λ _. Created id)) (script plan id false)
      pub starts : (id : String) → Accepts (start_pipeline id) (Created id) (λ _. Started id)

    play_accepted :
        (id : String) (rs : List Request) (w : World E.State)
        → All (λ r. Accepts r (Created id) (λ _. Created id)) rs
        → Created id w.engine
        → ((play E timeout rs w).0 ≡ ok tt) × Created id (play E timeout rs w).1.engine
    unfolding play
    play_accepted id [] w accepts h = (refl, h)
    play_accepted id (r ∷ rest) w (accepts, later) h =
        let (a, answers, next) = call_accepted r (Created id) (λ _. Created id) w accepts h in
        rw answers (play_accepted id rest (call E r timeout w).1 later next)

    script_started :
        (id : String) → script plan id true ≡ script plan id false ++ start_pipeline id ∷ []
    script_started id = simp append_assoc

    module _ (accepting : IsAccepting) where
      script_accepted :
          (id : String) (w : World E.State)
          → Created id w.engine
          → ((play E timeout (script plan id true) w).0 ≡ ok tt)
            × Started id (play E timeout (script plan id true) w).1.engine
      unfolding play
      script_accepted id w h =
          let rs = script plan id false in
          let (plays, made) = play_accepted id rs w (accepting.configures id) h in
          let (a, answers, started) =
            call_accepted (start_pipeline id) (Created id) (λ _. Started id) (play E timeout rs w).1
              (accepting.starts id) made in
          rw (script_started id, play-append E timeout rs (start_pipeline id ∷ []), plays, answers)
            (refl, started)

      -- On such an engine `run` returns a handle, and its pipeline has been started.
      pub run_accepted :
          (p : Pipeline) (w : World E.State)
          → build_requests p ≡ ok plan
          → Up w.engine
          → (handle : Run) × ((run E p true timeout w).0 ≡ ok handle)
            × Started handle.pipeline_id (run E p true timeout w).1.engine
      unfolding submit
      run_accepted p w built up =
          let r = create_pipeline plan.create_pipeline in
          let (created, answers, made) =
            call_accepted r Up (λ m. Created m.id) w accepting.creates up in
          let w' = (call E r timeout w).1 in
          let (plays, started) = script_accepted created.id w' made in
          (
            record { pipeline_id = created.id },
            rw
                (
                  run-submit E timeout p plan true w built,
                  answers,
                  guarded-play E timeout plan created.id true w',
                  plays,
                )
                refl,
            rw
                (
                  run-submit E timeout p plan true w built,
                  answers,
                  guarded-play E timeout plan created.id true w',
                  plays,
                )
                started,
          )
