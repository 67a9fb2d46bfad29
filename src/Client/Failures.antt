-- ===== src/Client/Failures.antt =====
-- Which exceptions leave the client.
use conduit_client_python.Prelude.{
  ℕ, ◌≡◌, refl, String, Bool, true, false, Option, none, some, List, [], ◌∷◌,
}
use conduit_client_python.Errors.{
  ConduitError, Exception, conduit, rpc, RpcError, Outcome, ok, raised, from_rpc_error,
}
use conduit_client_python.Errors.Translate.{from_rpc_error_raised}
use conduit_client_python.Exec.{Exec, raise, catch, handle, continue, ◌>>=◌}
use conduit_client_python.Wire.{
  CreateConnectorRequest, CreateProcessorRequest, UpdateDlqRequest, Request, create_connector,
  create_processor, update_dlq, start_pipeline, create_pipeline,
}
use conduit_client_python.Pipeline.{BuildPlan, Pipeline, build_requests}
use conduit_client_python.Pipeline.Range.{build_requests_raised}
use conduit_client_python.Client.{
  Engine, raise_error, translate, owned_connector, owned_processor, owned_dlq, with_id, call,
  create_connectors, create_processors, configure_dlq, start_if, populate, submit, run,
}

-- A result that is no raw gRPC failure.
abbrev pub IsTranslated {ℓ} : {A : Type ℓ} → Outcome A → Type 0
IsTranslated (raised (rpc e)) = ⊥
IsTranslated _ = Unit

pub IsTranslated-value_error :
    {A : Type 0} (r : Outcome A)
    → ((x : Exception) → r ≡ raised x → (text : String) × (x ≡ Exception.value_error text))
    → IsTranslated r
IsTranslated-value_error (ok a) h = tt
IsTranslated-value_error (raised (rpc e)) h = let (text, same) = h (rpc e) refl in cc
IsTranslated-value_error (raised x) h = tt

raise_error-IsTranslated :
    (A : Type 0) (r : Outcome ConduitError) → IsTranslated r → IsTranslated (raise_error {A = A} r)
raise_error-IsTranslated A (ok error) h = tt
raise_error-IsTranslated A (raised (rpc e)) h = h
raise_error-IsTranslated A (raised x) h = tt

from_rpc_error-IsTranslated :
    (e : RpcError) (r : Outcome ConduitError) → from_rpc_error e ≡ r → IsTranslated r
from_rpc_error-IsTranslated e (ok error) h = tt
from_rpc_error-IsTranslated e (raised (rpc e')) h =
    let (text, same) = from_rpc_error_raised e h in cc
from_rpc_error-IsTranslated e (raised x) h = tt

IsTranslated-translate : {A : Type 0} (r : Outcome A) → IsTranslated (translate r)
IsTranslated-translate (ok a) = tt
IsTranslated-translate (raised (rpc e)) =
    raise_error-IsTranslated _ (from_rpc_error e)
      (from_rpc_error-IsTranslated e (from_rpc_error e) refl)
IsTranslated-translate (raised x) = tt

continue-IsTranslated :
    {W A B : Type 0} (f : A → Exec W B) (r : Outcome A) (w : W)
    → IsTranslated r
    → ((a : A) (w : W) → IsTranslated (f a w).0)
    → IsTranslated (continue r f w).0
continue-IsTranslated f (ok a) w hr hf = hf a w
continue-IsTranslated f (raised (rpc e)) w hr hf = hr
continue-IsTranslated f (raised x) w hr hf = tt

handle-IsTranslated :
    {W A : Type 0} (h : ConduitError → Exec W A) (r : Outcome A) (w : W)
    → IsTranslated r
    → ((e : ConduitError) (w : W) → IsTranslated (h e w).0)
    → IsTranslated (handle r h w).0
handle-IsTranslated h (ok a) w hr hh = tt
handle-IsTranslated h (raised (conduit e)) w hr hh = hh e w
handle-IsTranslated h (raised (rpc e)) w hr hh = hr
handle-IsTranslated h (raised x) w hr hh = tt

-- An action whose result is translated, from every world.
abbrev pub Translates : {W A : Type 0} → Exec W A → Type 0
Translates {W} m = (w : W) → IsTranslated (m w).0

module _ {W A B : Type 0} where
  pub bind-Translates :
      (m : Exec W A) (f : A → Exec W B)
      → Translates m
      → ((a : A) → Translates (f a))
      → Translates (m >>= f)
  bind-Translates m f hm hf w = continue-IsTranslated f (m w).0 (m w).1 (hm w) hf

module _ (E : Engine) where
  pub call-Translates : (r : Request) (timeout : ℕ) → Translates (call E r timeout)
  unfolding call
  call-Translates r timeout w = IsTranslated-translate (E.answer r timeout w.engine).0

  create_connectors-Translates :
      (id : String) (timeout : ℕ) (rs : List CreateConnectorRequest)
      → Translates (create_connectors E id timeout rs)
  unfolding create_connectors
  create_connectors-Translates id timeout [] = λ w. tt
  create_connectors-Translates id timeout (r ∷ rs) =
      bind-Translates _ _ (call-Translates (create_connector (owned_connector id r)) timeout)
        (λ _. create_connectors-Translates id timeout rs)

  create_processors-Translates :
      (id : String) (timeout : ℕ) (rs : List CreateProcessorRequest)
      → Translates (create_processors E id timeout rs)
  unfolding create_processors
  create_processors-Translates id timeout [] = λ w. tt
  create_processors-Translates id timeout (r ∷ rs) =
      bind-Translates _ _ (call-Translates (create_processor (owned_processor id r)) timeout)
        (λ _. create_processors-Translates id timeout rs)

  configure_dlq-Translates :
      (id : String) (timeout : ℕ) (r : Option UpdateDlqRequest)
      → Translates (configure_dlq E id timeout r)
  unfolding configure_dlq
  configure_dlq-Translates id timeout none = λ w. tt
  configure_dlq-Translates id timeout (some r) =
      call-Translates (update_dlq (owned_dlq id r)) timeout

  start_if-Translates :
      (start : Bool) (id : String) (timeout : ℕ) → Translates (start_if E start id timeout)
  unfolding start_if
  start_if-Translates true id timeout = call-Translates (start_pipeline id) timeout
  start_if-Translates false id timeout = λ w. tt

  populate-Translates :
      (plan : BuildPlan) (id : String) (start : Bool) (timeout : ℕ)
      → Translates (populate E plan id start timeout)
  unfolding populate
  populate-Translates plan id start timeout =
      bind-Translates _ _ (create_connectors-Translates id timeout plan.create_connectors) λ _.
        bind-Translates _ _ (create_processors-Translates id timeout plan.create_processors) λ _.
          bind-Translates _ _ (configure_dlq-Translates id timeout plan.dlq)
            λ _. start_if-Translates start id timeout

  guarded-Translates :
      (plan : BuildPlan) (id : String) (start : Bool) (timeout : ℕ)
      → Translates (catch (populate E plan id start timeout) (λ e. raise (conduit (with_id id e))))
  guarded-Translates plan id start timeout w =
      let m = populate E plan id start timeout in
      handle-IsTranslated _ (m w).0 (m w).1 (populate-Translates plan id start timeout w)
        (λ e v. tt)

  submit-Translates :
      (plan : BuildPlan) (start : Bool) (timeout : ℕ) → Translates (submit E plan start timeout)
  unfolding submit
  submit-Translates plan start timeout =
      bind-Translates _ _ (call-Translates (create_pipeline plan.create_pipeline) timeout)
        λ created. bind-Translates _ _ (guarded-Translates plan created.id start timeout) λ _ w. tt

  -- Whatever the engine answers, and whatever exceptions its calls raise, what `run` raises is no
  -- raw `grpc.RpcError`.
  pub run-Translates :
      (p : Pipeline) (start : Bool) (timeout : ℕ) → Translates (run E p start timeout)
  unfolding run
  run-Translates p start timeout =
      bind-Translates _ _
        (λ w. IsTranslated-value_error (build_requests p) (λ x h. build_requests_raised p h))
        (λ plan. submit-Translates plan start timeout)
