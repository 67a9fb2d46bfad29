-- ===== src/Stubs/Experimental.antt =====
-- conduit/_grpc/api/v1/api_pb2_grpc.py: the static methods of the classes of grpc's experimental API:
-- the path that each of them passes on, and the types of its messages.
use conduit_client_python.Prelude.{List, [], ◌∷◌, ◌++◌}
use conduit_client_python.Stubs.{unary, stream, Method, method}

-- `PipelineService`: what makes, reads, changes and deletes a pipeline.
abbrev pub pipeline_object_calls : List Method
pipeline_object_calls =
    method "ListPipelines" "/api.v1.PipelineService/ListPipelines" unary "ListPipelinesRequest"
      "ListPipelinesResponse"
    ∷ method "CreatePipeline" "/api.v1.PipelineService/CreatePipeline" unary "CreatePipelineRequest"
        "CreatePipelineResponse"
    ∷ method "GetPipeline" "/api.v1.PipelineService/GetPipeline" unary "GetPipelineRequest"
        "GetPipelineResponse"
    ∷ method "UpdatePipeline" "/api.v1.PipelineService/UpdatePipeline" unary "UpdatePipelineRequest"
        "UpdatePipelineResponse"
    ∷ method "DeletePipeline" "/api.v1.PipelineService/DeletePipeline" unary "DeletePipelineRequest"
        "DeletePipelineResponse"
    ∷ []

-- `PipelineService`: what starts and stops it, and its dead-letter queue.
abbrev pub pipeline_control_calls : List Method
pipeline_control_calls =
    method "StartPipeline" "/api.v1.PipelineService/StartPipeline" unary "StartPipelineRequest"
      "StartPipelineResponse"
    ∷ method "StopPipeline" "/api.v1.PipelineService/StopPipeline" unary "StopPipelineRequest"
        "StopPipelineResponse"
    ∷ method "GetDLQ" "/api.v1.PipelineService/GetDLQ" unary "GetDLQRequest" "GetDLQResponse"
    ∷ method "UpdateDLQ" "/api.v1.PipelineService/UpdateDLQ" unary "UpdateDLQRequest"
        "UpdateDLQResponse"
    ∷ []

-- `PipelineService`: what exports, imports, plans and applies it.
abbrev pub pipeline_document_calls : List Method
pipeline_document_calls =
    method "ExportPipeline" "/api.v1.PipelineService/ExportPipeline" unary "ExportPipelineRequest"
      "ExportPipelineResponse"
    ∷ method "ImportPipeline" "/api.v1.PipelineService/ImportPipeline" unary "ImportPipelineRequest"
        "ImportPipelineResponse"
    ∷ method "PlanPipeline" "/api.v1.PipelineService/PlanPipeline" unary "PlanPipelineRequest"
        "PlanPipelineResponse"
    ∷ method "ApplyPipeline" "/api.v1.PipelineService/ApplyPipeline" unary "ApplyPipelineRequest"
        "ApplyPipelineResponse"
    ∷ []

-- `PipelineService`
abbrev pub pipeline_calls : List Method
pipeline_calls = pipeline_object_calls ++ (pipeline_control_calls ++ pipeline_document_calls)

-- `ConnectorService`: what only asks.
abbrev pub connector_query_calls : List Method
connector_query_calls =
    method "ListConnectors" "/api.v1.ConnectorService/ListConnectors" unary "ListConnectorsRequest"
      "ListConnectorsResponse"
    ∷ method "InspectConnector" "/api.v1.ConnectorService/InspectConnector" stream
        "InspectConnectorRequest" "InspectConnectorResponse"
    ∷ method "GetConnector" "/api.v1.ConnectorService/GetConnector" unary "GetConnectorRequest"
        "GetConnectorResponse"
    ∷ []

-- `ConnectorService`: what changes connectors, and the listing of plugins.
abbrev pub connector_change_calls : List Method
connector_change_calls =
    method "CreateConnector" "/api.v1.ConnectorService/CreateConnector" unary
      "CreateConnectorRequest" "CreateConnectorResponse"
    ∷ method "ValidateConnector" "/api.v1.ConnectorService/ValidateConnector" unary
        "ValidateConnectorRequest" "ValidateConnectorResponse"
    ∷ method "UpdateConnector" "/api.v1.ConnectorService/UpdateConnector" unary
        "UpdateConnectorRequest" "UpdateConnectorResponse"
    ∷ method "DeleteConnector" "/api.v1.ConnectorService/DeleteConnector" unary
        "DeleteConnectorRequest" "DeleteConnectorResponse"
    ∷ method "ListConnectorPlugins" "/api.v1.ConnectorService/ListConnectorPlugins" unary
        "ListConnectorPluginsRequest" "ListConnectorPluginsResponse"
    ∷ []

-- `ConnectorService`
abbrev pub connector_calls : List Method
connector_calls = connector_query_calls ++ connector_change_calls

-- `ProcessorService`: what only asks.
abbrev pub processor_query_calls : List Method
processor_query_calls =
    method "ListProcessors" "/api.v1.ProcessorService/ListProcessors" unary "ListProcessorsRequest"
      "ListProcessorsResponse"
    ∷ method "InspectProcessorIn" "/api.v1.ProcessorService/InspectProcessorIn" stream
        "InspectProcessorInRequest" "InspectProcessorInResponse"
    ∷ method "InspectProcessorOut" "/api.v1.ProcessorService/InspectProcessorOut" stream
        "InspectProcessorOutRequest" "InspectProcessorOutResponse"
    ∷ method "GetProcessor" "/api.v1.ProcessorService/GetProcessor" unary "GetProcessorRequest"
        "GetProcessorResponse"
    ∷ []

-- `ProcessorService`: what changes processors, and the listing of plugins.
abbrev pub processor_change_calls : List Method
processor_change_calls =
    method "CreateProcessor" "/api.v1.ProcessorService/CreateProcessor" unary
      "CreateProcessorRequest" "CreateProcessorResponse"
    ∷ method "UpdateProcessor" "/api.v1.ProcessorService/UpdateProcessor" unary
        "UpdateProcessorRequest" "UpdateProcessorResponse"
    ∷ method "DeleteProcessor" "/api.v1.ProcessorService/DeleteProcessor" unary
        "DeleteProcessorRequest" "DeleteProcessorResponse"
    ∷ method "ListProcessorPlugins" "/api.v1.ProcessorService/ListProcessorPlugins" unary
        "ListProcessorPluginsRequest" "ListProcessorPluginsResponse"
    ∷ []

-- `ProcessorService`
abbrev pub processor_calls : List Method
processor_calls = processor_query_calls ++ processor_change_calls

-- `InformationService`
abbrev pub information_calls : List Method
information_calls =
    method "GetInfo" "/api.v1.InformationService/GetInfo" unary "GetInfoRequest" "GetInfoResponse"
    ∷ []

-- `PluginService`
abbrev pub plugin_calls : List Method
plugin_calls =
    method "ListPlugins" "/api.v1.PluginService/ListPlugins" unary "ListPluginsRequest"
      "ListPluginsResponse"
    ∷ []
