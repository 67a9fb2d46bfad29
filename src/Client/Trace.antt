-- ===== src/Client/Trace.antt =====
-- The requests that `Client.run` sends, in order, against the script of its plan.
use mathlib.Core.List.{append-nil, append_assoc}
use conduit_client_python.Prelude.{
  ℕ, ◌≡◌, refl, ◌∙◌, sym, ap, inl, inr, String, Bool, true, false, Option, none, some, List, [],
  ◌∷◌, ◌++◌, map,
}
use conduit_client_python.Errors.{
  ConduitError, rpc, from_rpc_error, Exception, Outcome, ok, raised, ok≢raised,
}
use conduit_client_python.Exec.{
  Exec, pure, ◌>>◌, bind_assoc, bind-pure, bind_returned, bind_stopped,
}
use conduit_client_python.Wire.{
  CreateConnectorRequest, CreateProcessorRequest, UpdateDlqRequest, Request, create_connector,
  create_processor, update_dlq, start_pipeline,
}
use conduit_client_python.Pipeline.{BuildPlan}
use conduit_client_python.Client.{
  Engine, Event, called, World, owned_connector, owned_processor, owned_dlq, call, raise_error,
  translate, create_connectors, create_processors, configure_dlq, start_if, populate,
}

raise_error-raises :
    {A : Type 0} (r : Outcome ConduitError) {a : A} → ◌≡◌ {A = Outcome A} (raise_error r) (ok a) → ⊥
raise_error-raises (ok e) h = ok≢raised (sym h)
raise_error-raises (raised x) h = ok≢raised (sym h)

-- What the client has got has been answered.
pub translate_ok : {A : Type 0} (r : Outcome A) {a : A} → translate r ≡ ok a → r ≡ ok a
translate_ok (ok b) h = h
translate_ok (raised (rpc e)) h = absurd (raise_error-raises (from_rpc_error e) h)
translate_ok (raised x) h = absurd (ok≢raised (sym h))

abbrev pub dlq_script : String → Option UpdateDlqRequest → List Request
dlq_script id none = []
dlq_script id (some r) = update_dlq (owned_dlq id r) ∷ []

abbrev pub start_script : String → Bool → List Request
start_script id true = start_pipeline id ∷ []
start_script id false = []

-- The requests behind `CreatePipeline`, once the engine has given the pipeline its id.
abbrev pub script : BuildPlan → String → Bool → List Request
script plan id start =
    map (λ r. create_connector (owned_connector id r)) plan.create_connectors
    ++ (map (λ r. create_processor (owned_processor id r)) plan.create_processors
        ++ (dlq_script id plan.dlq ++ start_script id start))

abbrev pub calls : ℕ → List Request → List Event
calls timeout = map (λ r. called r timeout)

module _ (E : Engine) (timeout : ℕ) where
  pub trace-call :
      (r : Request) (w : World E.State)
      → (call E r timeout w).1.trace ≡ w.trace ++ called r timeout ∷ []
  unfolding call
  trace-call r w = refl

  -- The requests one after the other, until one fails.
  unfoldable pub play : List Request → Exec (World E.State) (Unit {0})
  play [] = pure tt
  play (r ∷ rest) = call E r timeout >> play rest

  pub play-append : (xs ys : List Request) → play (xs ++ ys) ≡ (play xs >> play ys)
  unfolding play
  play-append [] ys = refl
  play-append (x ∷ xs) ys =
      ap (λ (k : Exec (World E.State) (Unit {0})). call E x timeout >> k) (play-append xs ys)
      ∙ sym (bind_assoc (call E x timeout) (λ _. play xs) (λ _. play ys))

  create_connectors-play :
      (id : String) (rs : List CreateConnectorRequest)
      → create_connectors E id timeout rs
        ≡ play (map (λ r. create_connector (owned_connector id r)) rs)
  unfolding play create_connectors
  create_connectors-play id [] = refl
  create_connectors-play id (r ∷ rs) =
      ap
        (λ (k : Exec (World E.State) (Unit {0})).
          call E (create_connector (owned_connector id r)) timeout >> k)
        (create_connectors-play id rs)

  create_processors-play :
      (id : String) (rs : List CreateProcessorRequest)
      → create_processors E id timeout rs
        ≡ play (map (λ r. create_processor (owned_processor id r)) rs)
  unfolding play create_processors
  create_processors-play id [] = refl
  create_processors-play id (r ∷ rs) =
      ap
        (λ (k : Exec (World E.State) (Unit {0})).
          call E (create_processor (owned_processor id r)) timeout >> k)
        (create_processors-play id rs)

  configure_dlq-play :
      (id : String) (r : Option UpdateDlqRequest)
      → configure_dlq E id timeout r ≡ play (dlq_script id r)
  unfolding play configure_dlq
  configure_dlq-play id none = refl
  configure_dlq-play id (some r) = sym (bind-pure (call E (update_dlq (owned_dlq id r)) timeout))

  start_if-play :
      (id : String) (start : Bool) → start_if E start id timeout ≡ play (start_script id start)
  unfolding play start_if
  start_if-play id true = sym (bind-pure (call E (start_pipeline id) timeout))
  start_if-play id false = refl

  -- The four parts of `run` behind `CreatePipeline` play the script.
  pub populate-play :
      (plan : BuildPlan) (id : String) (start : Bool)
      → populate E plan id start timeout ≡ play (script plan id start)
  unfolding populate
  populate-play plan id start = simp (
    create_connectors-play, create_processors-play, configure_dlq-play, start_if-play, play-append,
  )

  -- What has been called after a run of `play` that went through.
  pub play_ok :
      (rs : List Request) (w : World E.State)
      → (play rs w).0 ≡ ok tt
      → (play rs w).1.trace ≡ w.trace ++ calls timeout rs
  unfolding play
  play_ok [] w h = sym (append-nil _)
  play_ok (r ∷ rest) w h =
      let first = call E r timeout in
      let (a, e, step, h') = bind_returned first (λ _. play rest) w h in
      ap (λ (p : Outcome (Unit {0}) × World E.State). p.1.trace) step
      ∙ play_ok rest (first w).1 h'
      ∙ rw (trace-call r w, append_assoc) refl

  -- When `play` raises, a request failed with that exception, in the state that those before it had
  -- led to, which went through: it was called last, and those behind it were not.
  pub play_raised :
      (rs : List Request) (w : World E.State) {x : Exception}
      → (play rs w).0 ≡ raised x
      → (done : List Request) × (failed : Request) × (rest : List Request) × (rs
          ≡ done ++ failed ∷ rest)
        × ((play rs w).1.trace ≡ w.trace ++ calls timeout (done ++ failed ∷ []))
        × ((play done w).0 ≡ ok tt)
        × ((call E failed timeout (play done w).1).0 ≡ raised x)
  unfolding play
  play_raised [] w h = absurd (ok≢raised h)
  play_raised (r ∷ later) w {x} h =
      let first = call E r timeout in
      elim (bind_stopped first (λ _. play later) w h) [
        | inl (e, stop) ↦
            ([], r, later, refl, ap (λ (v : World E.State). v.trace) stop ∙ trace-call r w, refl, e)
        | inr (a, e, step, h') ↦
            let (done, failed, rest, split, after, went, fails) =
              play_raised later (first w).1 h' in
            (
              r ∷ done,
              failed,
              rest,
              ap (λ (l : List Request). r ∷ l) split,
              ap (λ (p : Outcome (Unit {0}) × World E.State). p.1.trace) step
                  ∙ after
                  ∙ rw (trace-call r w, append_assoc) refl,
              rw e went,
              rw e fails,
            )
      ]
