-- ===== src/Stubs/Pipelines.antt =====
-- The stub of `PipelineService`, and its handlers on a server.
use conduit_client_python.Prelude.{List, [], ◌∷◌}
use conduit_client_python.Stubs.{unary, Method, method, handler, Service}

-- `PipelineServiceStub.__init__`
abbrev pub pipeline_stub : List Method
pipeline_stub =
    method "ListPipelines" "/api.v1.PipelineService/ListPipelines" unary "ListPipelinesRequest"
      "ListPipelinesResponse"
    ∷ method "CreatePipeline" "/api.v1.PipelineService/CreatePipeline" unary "CreatePipelineRequest"
        "CreatePipelineResponse"
    ∷ method "GetPipeline" "/api.v1.PipelineService/GetPipeline" unary "GetPipelineRequest"
        "GetPipelineResponse"
    ∷ method "UpdatePipeline" "/api.v1.PipelineService/UpdatePipeline" unary "UpdatePipelineRequest"
        "UpdatePipelineResponse"
    ∷ method "DeletePipeline" "/api.v1.PipelineService/DeletePipeline" unary "DeletePipelineRequest"
        "DeletePipelineResponse"
    ∷ method "StartPipeline" "/api.v1.PipelineService/StartPipeline" unary "StartPipelineRequest"
        "StartPipelineResponse"
    ∷ method "StopPipeline" "/api.v1.PipelineService/StopPipeline" unary "StopPipelineRequest"
        "StopPipelineResponse"
    ∷ method "GetDLQ" "/api.v1.PipelineService/GetDLQ" unary "GetDLQRequest" "GetDLQResponse"
    ∷ method "UpdateDLQ" "/api.v1.PipelineService/UpdateDLQ" unary "UpdateDLQRequest"
        "UpdateDLQResponse"
    ∷ method "ExportPipeline" "/api.v1.PipelineService/ExportPipeline" unary "ExportPipelineRequest"
        "ExportPipelineResponse"
    ∷ method "ImportPipeline" "/api.v1.PipelineService/ImportPipeline" unary "ImportPipelineRequest"
        "ImportPipelineResponse"
    ∷ method "PlanPipeline" "/api.v1.PipelineService/PlanPipeline" unary "PlanPipelineRequest"
        "PlanPipelineResponse"
    ∷ method "ApplyPipeline" "/api.v1.PipelineService/ApplyPipeline" unary "ApplyPipelineRequest"
        "ApplyPipelineResponse"
    ∷ []

-- `add_PipelineServiceServicer_to_server`
abbrev pub pipeline_service : Service
pipeline_service = record {
  name = "api.v1.PipelineService";
  handlers =
      handler "ListPipelines" unary "ListPipelines" "ListPipelinesRequest" "ListPipelinesResponse"
      ∷ handler "CreatePipeline" unary "CreatePipeline" "CreatePipelineRequest"
          "CreatePipelineResponse"
      ∷ handler "GetPipeline" unary "GetPipeline" "GetPipelineRequest" "GetPipelineResponse"
      ∷ handler "UpdatePipeline" unary "UpdatePipeline" "UpdatePipelineRequest"
          "UpdatePipelineResponse"
      ∷ handler "DeletePipeline" unary "DeletePipeline" "DeletePipelineRequest"
          "DeletePipelineResponse"
      ∷ handler "StartPipeline" unary "StartPipeline" "StartPipelineRequest" "StartPipelineResponse"
      ∷ handler "StopPipeline" unary "StopPipeline" "StopPipelineRequest" "StopPipelineResponse"
      ∷ handler "GetDLQ" unary "GetDLQ" "GetDLQRequest" "GetDLQResponse"
      ∷ handler "UpdateDLQ" unary "UpdateDLQ" "UpdateDLQRequest" "UpdateDLQResponse"
      ∷ handler "ExportPipeline" unary "ExportPipeline" "ExportPipelineRequest"
          "ExportPipelineResponse"
      ∷ handler "ImportPipeline" unary "ImportPipeline" "ImportPipelineRequest"
          "ImportPipelineResponse"
      ∷ handler "PlanPipeline" unary "PlanPipeline" "PlanPipelineRequest" "PlanPipelineResponse"
      ∷ handler "ApplyPipeline" unary "ApplyPipeline" "ApplyPipelineRequest" "ApplyPipelineResponse"
      ∷ [];
}
