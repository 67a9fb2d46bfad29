-- ===== src/Client.antt =====
-- conduit/client.py: the client over an engine that it does not implement. The engine is a
-- parameter: it answers each RPC as it likes, or fails it with any exception. Times are milliseconds.
pub mod Moved
pub mod Trace
pub mod Sequence
pub mod Failures
pub mod Accepted
pub mod Close
pub mod Connect
use conduit_client_python.Prelude.{
  ℕ, String, Bool, true, false, Option, none, some, List, [], ◌∷◌, ◌++◌, if◌then◌else◌,
}
use conduit_client_python.Errors.{
  ConduitError, Exception, conduit, rpc, Outcome, ok, raised, from_rpc_error,
}
use conduit_client_python.Exec.{Exec, pure, raise, lift, catch, ◌>>=◌, ◌>>◌}
use conduit_client_python.Wire.{
  parent_pipeline, CreateConnectorRequest, CreateProcessorRequest, UpdateDlqRequest,
  PipelineMessage, Info, Request, create_pipeline, create_connector, create_processor, update_dlq,
  start_pipeline, get_info, Response,
}
use conduit_client_python.Pipeline.{BuildPlan, Pipeline, build_requests}

-- The engine behind a channel, and the clock of the host.
pub record Engine : Type 1 where
  pub State : Type 0
  -- A stub's method, called with its request and its timeout.
  pub answer : (r : Request) → ℕ → State → Outcome (Response r) × State
  -- `channel.close()`
  pub close_channel : State → State
  -- `time.monotonic()`
  pub monotonic : State → ℕ × State
  -- `time.sleep(d)`: whether an interrupt from the keyboard has cut it short
  pub sleep : ℕ → State → Bool × State

-- What the client does to the outside, in order; a record of it is kept for the theorems.
pub data Event : Type 0 where
  opened_channel : Bool → String → Event
  called : Request → ℕ → Event
  closed_channel hooked : Event
  slept : ℕ → Event

-- A handle that `Client.run` returns.
pub record Run : Type 0 where
  pub pipeline_id : String

-- The state of a client, of type `S` the engine's.
pub record World (S : Type 0) : Type 0 where
  pub engine : S
  pub closed : Bool
  pub trace : List Event

-- The `try` of `_call`: a failed RPC becomes a `ConduitError`, if its translation returns.
abbrev pub raise_error {ℓ} : {A : Type ℓ} → Outcome ConduitError → Outcome A
raise_error (ok error) = raised (conduit error)
raise_error (raised x) = raised x

abbrev pub translate {ℓ} : {A : Type ℓ} → Outcome A → Outcome A
translate (raised (rpc e)) = raise_error (from_rpc_error e)
translate r = r

-- `connector_req.pipeline_id = pipeline_id`
abbrev pub owned_connector : String → CreateConnectorRequest → CreateConnectorRequest
owned_connector id r = record r { pipeline_id = id }

-- `processor_req.parent.type = …; processor_req.parent.id = pipeline_id`
abbrev pub owned_processor : String → CreateProcessorRequest → CreateProcessorRequest
owned_processor id r = record r { parent = record { type = parent_pipeline; id = id } }

-- `plan.dlq.id = pipeline_id`
abbrev pub owned_dlq : String → UpdateDlqRequest → UpdateDlqRequest
owned_dlq id r = record r { id = id }

-- `e.pipeline_id = pipeline_id`
abbrev pub with_id : String → ConduitError → ConduitError
with_id id e = record e { pipeline_id = id }

module _ (E : Engine) where
  -- `Client._call`
  unfoldable pub call : (r : Request) → ℕ → Exec (World E.State) (Response r)
  call r timeout w =
      let (reply, engine) = E.answer r timeout w.engine in
      (translate reply, record w { engine = engine; trace = w.trace ++ called r timeout ∷ [] })

  -- `Client.get_info`
  unfoldable pub get_engine_info : ℕ → Exec (World E.State) Info
  get_engine_info timeout = call get_info timeout

  -- The first loop of `Client.run`.
  unfoldable pub create_connectors :
      String → ℕ → List CreateConnectorRequest → Exec (World E.State) (Unit {0})
  create_connectors id timeout [] = pure tt
  create_connectors id timeout (r ∷ rest) =
      call (create_connector (owned_connector id r)) timeout >> create_connectors id timeout rest

  -- The second loop.
  unfoldable pub create_processors :
      String → ℕ → List CreateProcessorRequest → Exec (World E.State) (Unit {0})
  create_processors id timeout [] = pure tt
  create_processors id timeout (r ∷ rest) =
      call (create_processor (owned_processor id r)) timeout >> create_processors id timeout rest

  -- `if plan.dlq is not None`
  unfoldable pub configure_dlq :
      String → ℕ → Option UpdateDlqRequest → Exec (World E.State) (Unit {0})
  configure_dlq id timeout none = pure tt
  configure_dlq id timeout (some r) = call (update_dlq (owned_dlq id r)) timeout

  -- `if start`
  unfoldable pub start_if : Bool → String → ℕ → Exec (World E.State) (Unit {0})
  start_if true id timeout = call (start_pipeline id) timeout
  start_if false id timeout = pure tt

  -- The body of the `try` of `Client.run`.
  unfoldable pub populate : BuildPlan → String → Bool → ℕ → Exec (World E.State) (Unit {0})
  populate plan id start timeout =
      create_connectors id timeout plan.create_connectors
      >> (create_processors id timeout plan.create_processors
          >> (configure_dlq id timeout plan.dlq >> start_if start id timeout))

  -- `Client.run` behind `build_requests`.
  unfoldable pub submit : BuildPlan → Bool → ℕ → Exec (World E.State) Run
  submit plan start timeout = do
    created ← call (create_pipeline plan.create_pipeline) timeout
    catch (populate plan created.id start timeout) (λ e. raise (conduit (with_id created.id e)))
    pure (record { pipeline_id = created.id })

  -- `Client.run`
  unfoldable pub run : Pipeline → Bool → ℕ → Exec (World E.State) Run
  run pipeline start timeout = do plan ← lift (build_requests pipeline); submit plan start timeout

  -- `Client.close`, with the `on_close` that the client was made with.
  unfoldable pub close :
      Option (E.State → Outcome (Unit {0}) × E.State) → Exec (World E.State) (Unit {0})
  close on_close w = elim (w.closed) [
    | true ↦ (ok tt, w)
    | false ↦
        let shut : World E.State = record {
          engine = E.close_channel w.engine;
          closed = true;
          trace = w.trace ++ closed_channel ∷ [];
        } in
        elim on_close [
          | none ↦ (ok tt, shut)
          | some hook ↦
              let (r, engine) = hook shut.engine in
              (r, record shut { engine = engine; trace = shut.trace ++ hooked ∷ [] })
        ]
  ]

  -- `connect(addr, credentials=, check_version=, timeout=)`: the state of the new client.
  unfoldable pub connect : String → Bool → Bool → ℕ → E.State → Outcome (Unit {0}) × World E.State
  connect addr credentials check_version timeout engine =
      let client : World E.State = record {
        engine = engine;
        closed = false;
        trace = opened_channel credentials addr ∷ [];
      } in
      elim check_version [
        | true ↦ (get_engine_info timeout >> pure tt) client
        | false ↦ (ok tt, client)
      ]
