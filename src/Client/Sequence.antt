-- ===== src/Client/Sequence.antt =====
-- The whole of `Client.run`: what it has sent when it returns and when it raises.
use mathlib.Core.List.{append_assoc}
use conduit_client_python.Prelude.{
  ℕ, ◌≡◌, refl, ◌∙◌, sym, ap, inl, inr, String, Bool, List, [], ◌∷◌, ◌++◌,
}
use conduit_client_python.Errors.{ConduitError, Exception, conduit, Outcome, ok, raised, ok≢raised}
use conduit_client_python.Exec.{
  Exec, pure, raise, catch, ◌>>◌, bind_returned, bind_stopped, amend, catch-amend,
}
use conduit_client_python.Wire.{PipelineMessage, Request, create_pipeline}
use conduit_client_python.Pipeline.{BuildPlan, Pipeline, build_requests}
use conduit_client_python.Client.{Engine, Event, Run, World, with_id, call, populate, submit, run}
use conduit_client_python.Client.Trace.{
  script, calls, trace-call, play, populate-play, play_ok, play_raised, translate_ok,
}

-- The exception that `run` raises for one of its script: an error with the pipeline's id put on it.
abbrev pub telling : String → Exception → Exception
telling id (conduit e) = conduit (record e { pipeline_id = id })
telling id x = x

raised_inj : {A : Type 0} {x y : Exception} → ◌≡◌ {A = Outcome A} (raised x) (raised y) → x ≡ y
raised_inj h = cc

amend_ok :
    {A : Type 0} (f : ConduitError → ConduitError) (r : Outcome A) {a : A}
    → amend f r ≡ ok a
    → r ≡ ok a
amend_ok f (ok b) h = h
amend_ok f (raised (conduit e)) h = absurd (ok≢raised (sym h))
amend_ok f (raised x) h = absurd (ok≢raised (sym h))

amend_raised :
    {A : Type 0} (id : String) (r : Outcome A) {x : Exception}
    → amend (with_id id) r ≡ raised x
    → (y : Exception) × (r ≡ raised y) × (x ≡ telling id y)
amend_raised id (ok b) h = absurd (ok≢raised h)
amend_raised id (raised (conduit e)) h = (conduit e, refl, sym (raised_inj h))
amend_raised id (raised y) h = (y, refl, sym (raised_inj h))

module _ (E : Engine) (timeout : ℕ) where
  -- The guarded part of `run`, with its handler.
  abbrev pub guarded : BuildPlan → String → Bool → Exec (World E.State) (Unit {0})
  guarded plan id start =
      catch (populate E plan id start timeout) (λ e. raise (conduit (with_id id e)))

  pub guarded-play :
      (plan : BuildPlan) (id : String) (start : Bool) (w : World E.State)
      → guarded plan id start w ≡ (
        amend (with_id id) (play E timeout (script plan id start) w).0,
        (play E timeout (script plan id start) w).1,
      )
  guarded-play plan id start w =
      catch-amend (with_id id) (populate E plan id start timeout) w
      ∙ rw (populate-play E timeout plan id start) refl

  abbrev finish : BuildPlan → Bool → PipelineMessage → Exec (World E.State) Run
  finish plan start created =
      guarded plan created.id start >> pure (record { pipeline_id = created.id })

  pub run-submit :
      (p : Pipeline) (plan : BuildPlan) (start : Bool) (w : World E.State)
      → build_requests p ≡ ok plan
      → run E p start timeout w ≡ submit E plan start timeout w
  unfolding run
  run-submit p plan start w built = rw built

  guarded_returned :
      (plan : BuildPlan) (id : String) (start : Bool) (w : World E.State) {u : Unit {0}}
      → (guarded plan id start w).0 ≡ ok u
      → (guarded plan id start w).1.trace ≡ w.trace ++ calls timeout (script plan id start)
  guarded_returned plan id start w h =
      let same = guarded-play plan id start w in
      let played = play E timeout (script plan id start) w in
      ap (λ (q : Outcome (Unit {0}) × World E.State). q.1.trace) same
      ∙ play_ok E timeout (script plan id start) w (
          amend_ok (with_id id) played.0
            (sym (ap (λ (q : Outcome (Unit {0}) × World E.State). q.0) same) ∙ h))

  submit_returned :
      (plan : BuildPlan) (start : Bool) (w : World E.State) {result : Run}
      → (submit E plan start timeout w).0 ≡ ok result
      → (created : PipelineMessage) × ((E.answer
            (create_pipeline plan.create_pipeline)
            timeout
            w.engine).0
          ≡ ok created)
        × (result.pipeline_id ≡ created.id)
        × ((submit E plan start timeout w).1.trace
            ≡ w.trace
              ++ calls timeout
                  (create_pipeline plan.create_pipeline ∷ script plan created.id start))
  unfolding submit call
  submit_returned plan start w {result} h =
      let create = call E (create_pipeline plan.create_pipeline) timeout in
      let (created, e, step, h') = bind_returned create (finish plan start) w h in
      let w' = (create w).1 in
      let (u, e', step', h'') =
        bind_returned (guarded plan created.id start)
          (λ _. pure (record { pipeline_id = created.id })) w' h' in
      let same : result.pipeline_id ≡ created.id = cc h'' in
      (
        created,
        translate_ok _ e,
        same,
        ap (λ (q : Outcome Run × World E.State). q.1.trace) (step ∙ step')
            ∙ guarded_returned plan created.id start w' e'
            ∙ rw (trace-call E timeout (create_pipeline plan.create_pipeline) w, append_assoc) refl,
      )

  -- When `run` returns with a plan that was built, it has called `CreatePipeline`, which the engine
  -- has answered with a pipeline, and then every request of its plan once, in the order of the plan,
  -- with the id of that answer: the connectors, the processors, the dead letter queue if there is
  -- one, and `StartPipeline` if it was asked to start. The handle has the id of that answer too.
  pub run_returned :
      (p : Pipeline) (plan : BuildPlan) (start : Bool) (w : World E.State) {result : Run}
      → build_requests p ≡ ok plan
      → (run E p start timeout w).0 ≡ ok result
      → (created : PipelineMessage) × ((E.answer
            (create_pipeline plan.create_pipeline)
            timeout
            w.engine).0
          ≡ ok created)
        × (result.pipeline_id ≡ created.id)
        × ((run E p start timeout w).1.trace
            ≡ w.trace
              ++ calls timeout
                  (create_pipeline plan.create_pipeline ∷ script plan created.id start))
  run_returned p plan start w built h =
      rw (run-submit p plan start w built)
        (submit_returned plan start w (rw (run-submit p plan start w built) at h))

  guarded_raised :
      (plan : BuildPlan) (id : String) (start : Bool) (w : World E.State) {x : Exception}
      → (guarded plan id start w).0 ≡ raised x
      → (done : List Request) × (failed : Request) × (rest : List Request) × (script plan id start
          ≡ done ++ failed ∷ rest)
        × ((guarded plan id start w).1.trace ≡ w.trace ++ calls timeout (done ++ failed ∷ []))
        × ((play E timeout done w).0 ≡ ok tt)
        × ((y : Exception) × ((call E failed timeout (play E timeout done w).1).0 ≡ raised y)
            × (x ≡ telling id y))
  guarded_raised plan id start w h =
      let same = guarded-play plan id start w in
      let played = play E timeout (script plan id start) w in
      let h' = sym (ap (λ (q : Outcome (Unit {0}) × World E.State). q.0) same) ∙ h in
      let (y, e, told) = amend_raised id played.0 h' in
      let (done, failed, rest, split, after, went, fails) =
        play_raised E timeout (script plan id start) w e in
      (
        done,
        failed,
        rest,
        split,
        ap (λ (q : Outcome (Unit {0}) × World E.State). q.1.trace) same ∙ after,
        went,
        (y, fails, told),
      )

  -- The state of the client behind `CreatePipeline`.
  abbrev pub behind : BuildPlan → World E.State → World E.State
  behind plan w = (call E (create_pipeline plan.create_pipeline) timeout w).1

  -- What a run that raised `x` has sent: `CreatePipeline` alone, or also a part of its script, of which
  -- the last request failed in the state that the ones before it had led to.
  pub data Stopped (plan : BuildPlan) (start : Bool) (w : World E.State) (x : Exception)
      (trace : List Event) : Type 0 where
    not_created :
        (call E (create_pipeline plan.create_pipeline) timeout w).0 ≡ raised x
        → trace ≡ w.trace ++ calls timeout (create_pipeline plan.create_pipeline ∷ [])
        → Stopped plan start w x trace
    created :
        (pipeline : PipelineMessage) (done : List Request) (failed : Request) (rest : List Request)
        (y : Exception)
        → (call E (create_pipeline plan.create_pipeline) timeout w).0 ≡ ok pipeline
        → script plan pipeline.id start ≡ done ++ failed ∷ rest
        → trace
          ≡ w.trace ++ calls timeout (create_pipeline plan.create_pipeline ∷ (done ++ failed ∷ []))
        → (play E timeout done (behind plan w)).0 ≡ ok tt
        → (call E failed timeout (play E timeout done (behind plan w)).1).0 ≡ raised y
        → x ≡ telling pipeline.id y
        → Stopped plan start w x trace

  submit_raised :
      (plan : BuildPlan) (start : Bool) (w : World E.State) {x : Exception}
      → (submit E plan start timeout w).0 ≡ raised x
      → Stopped plan start w x (submit E plan start timeout w).1.trace
  unfolding submit
  submit_raised plan start w h =
      let create = call E (create_pipeline plan.create_pipeline) timeout in
      let w' = (create w).1 in
      elim (bind_stopped create (finish plan start) w h) [
        | inl (e, stop) ↦ not_created e (
            ap (λ (v : World E.State). v.trace) stop
            ∙ trace-call E timeout (create_pipeline plan.create_pipeline) w)
        | inr (pipeline, e, step, h') ↦
            elim (bind_stopped (guarded plan pipeline.id start)
              (λ _. pure (record { pipeline_id = pipeline.id })) w' h') [
                | inl (e', stop) ↦
                    let (done, failed, rest, split, after, went, (y, fails, told)) =
                      guarded_raised plan pipeline.id start w' e' in
                    created pipeline done failed rest y e split
                      (ap (λ (q : Outcome Run × World E.State). q.1.trace) step
                        ∙ ap (λ (v : World E.State). v.trace) stop
                        ∙ after
                        ∙ rw
                            (
                              trace-call E timeout (create_pipeline plan.create_pipeline) w,
                              append_assoc,
                            )
                            refl)
                      went fails told
                | inr (u, e', step', h'') ↦ absurd (ok≢raised h'')
              ]
      ]

  -- When `run` raises with a plan that was built, either `CreatePipeline` failed, and it was the
  -- only request, or the engine has created a pipeline and a request of the script failed: those
  -- before it have been called and went through, it was the last call, so that nothing was rolled
  -- back, and what `run` raises is what this call raised, a `ConduitError` with the pipeline's id put
  -- on it and otherwise as it was.
  pub run_raised :
      (p : Pipeline) (plan : BuildPlan) (start : Bool) (w : World E.State) {x : Exception}
      → build_requests p ≡ ok plan
      → (run E p start timeout w).0 ≡ raised x
      → Stopped plan start w x (run E p start timeout w).1.trace
  run_raised p plan start w built h =
      rw (run-submit p plan start w built)
        (submit_raised plan start w (rw (run-submit p plan start w built) at h))
