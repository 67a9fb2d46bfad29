-- ===== src/Tests/Data.antt =====
-- A small engine and a small pipeline.
use conduit_client_python.Prelude.{ℕ, ◌+◌, ◌≡◌, refl, Bool, true, false, none, some, List, [], ◌∷◌}
use conduit_client_python.Prelude.Int.{pos}
use conduit_client_python.Errors.{
  not_found, error_info, foreign, has_status, RpcError, rpc, Outcome, ok, raised,
}
use conduit_client_python.Wire.{
  PipelineMessage, Request, create_pipeline, create_connector, create_processor, update_dlq,
  start_pipeline, stop_pipeline, get_pipeline, get_info, Response, int32, uint64,
}
use conduit_client_python.Pipeline.{
  bool, object, BuildPlan, Pipeline, new_pipeline, source, destination, process, dlq, optional,
  connector_request, connector_requests, processor_request, processor_requests, dlq_request,
  build_requests,
}
use conduit_client_python.Pipeline.Builder.{
  BuilderCall, add_source, add_destination, add_processor, set_dlq, chain, expected_connectors,
  expected_processors, expected_dlq,
}
use conduit_client_python.Client.{Engine, Run, World}

-- An engine whose state is its clock, and which may refuse connectors.
abbrev pub missing : RpcError
missing = record {
  text = "rpc failed";
  call = some (record {
    code = not_found;
    details = some "no such plugin";
    status = has_status (
        foreign
        ∷ error_info (record {
          reason = "connector.plugin_not_found";
          domain = "conduit";
          metadata = ("suggestion", "check the name") ∷ [];
        })
        ∷ []);
  });
}

abbrev pub pipeline_message : PipelineMessage
pipeline_message = record {
  id = "pipeline-1";
  state = record { status = pos 1; error = ""; stopped_reason = pos 0 };
}

abbrev pub reply : Bool → (r : Request) → Outcome (Response r)
reply refuses (create_pipeline _) = ok pipeline_message
reply true (create_connector _) = raised (rpc missing)
reply false (create_connector _) = ok tt
reply refuses (create_processor _) = ok tt
reply refuses (update_dlq _) = ok tt
reply refuses (start_pipeline _) = ok tt
reply refuses (stop_pipeline _ _) = ok tt
reply refuses (get_pipeline _) = ok pipeline_message
reply refuses get_info = ok (record { version = "0.18.0"; os = "linux"; arch = "arm64" })

abbrev pub engine : Bool → Engine
engine refuses = record {
  State = ℕ;
  answer = λ r t s. (reply refuses r, s + 1);
  close_channel = λ s. s;
  monotonic = λ s. (s, s);
  sleep = λ d s. (false, s + d);
}

abbrev pub start : World ℕ
start = record { engine = 0; closed = false; trace = [] }

abbrev pub generator : BuilderCall
generator = add_source (record {
  plugin = "generator";
  name = "";
  settings = some (("format.type", object "structured") ∷ ("sdk.batch", bool false) ∷ []);
  kwargs = ("operations", object "create") ∷ ("sdk.batch", bool true) ∷ [];
})

abbrev pub orders : List BuilderCall
orders =
    generator
    ∷ add_processor (record {
      plugin = "field.filter";
      condition = "";
      workers = some (pos 2);
      settings = none;
      kwargs = [];
    })
    ∷ add_destination (record { plugin = "log"; name = "out"; settings = none; kwargs = [] })
    ∷ set_dlq (record {
      plugin = "builtin:log";
      window_size = none;
      window_nack_threshold = some (pos 3);
      settings = none;
      kwargs = [];
    })
    ∷ []

abbrev pub orders_plan : BuildPlan
orders_plan = record {
  create_pipeline = record { config = record { name = "orders"; description = "" } };
  create_connectors = expected_connectors orders;
  create_processors = expected_processors orders;
  dlq = expected_dlq orders none;
}

unfoldable pub orders_pipeline : Pipeline
orders_pipeline = chain orders (new_pipeline "orders" none "")

pub built : build_requests orders_pipeline ≡ ok orders_plan
unfolding orders_pipeline chain new_pipeline source destination process dlq build_requests
    processor_requests processor_request dlq_request connector_requests connector_request optional
    int32 uint64
built = refl

abbrev pub handle : Run
handle = record { pipeline_id = "pipeline-1" }
