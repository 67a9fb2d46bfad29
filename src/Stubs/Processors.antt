-- ===== src/Stubs/Processors.antt =====
-- The stub of `ProcessorService`, and its handlers on a server.
use conduit_client_python.Prelude.{List, [], ◌∷◌}
use conduit_client_python.Stubs.{unary, stream, Method, method, handler, Service}

-- `ProcessorServiceStub.__init__`
abbrev pub processor_stub : List Method
processor_stub =
    method "ListProcessors" "/api.v1.ProcessorService/ListProcessors" unary "ListProcessorsRequest"
      "ListProcessorsResponse"
    ∷ method "InspectProcessorIn" "/api.v1.ProcessorService/InspectProcessorIn" stream
        "InspectProcessorInRequest" "InspectProcessorInResponse"
    ∷ method "InspectProcessorOut" "/api.v1.ProcessorService/InspectProcessorOut" stream
        "InspectProcessorOutRequest" "InspectProcessorOutResponse"
    ∷ method "GetProcessor" "/api.v1.ProcessorService/GetProcessor" unary "GetProcessorRequest"
        "GetProcessorResponse"
    ∷ method "CreateProcessor" "/api.v1.ProcessorService/CreateProcessor" unary
        "CreateProcessorRequest" "CreateProcessorResponse"
    ∷ method "UpdateProcessor" "/api.v1.ProcessorService/UpdateProcessor" unary
        "UpdateProcessorRequest" "UpdateProcessorResponse"
    ∷ method "DeleteProcessor" "/api.v1.ProcessorService/DeleteProcessor" unary
        "DeleteProcessorRequest" "DeleteProcessorResponse"
    ∷ method "ListProcessorPlugins" "/api.v1.ProcessorService/ListProcessorPlugins" unary
        "ListProcessorPluginsRequest" "ListProcessorPluginsResponse"
    ∷ []

-- `add_ProcessorServiceServicer_to_server`
abbrev pub processor_service : Service
processor_service = record {
  name = "api.v1.ProcessorService";
  handlers =
      handler "ListProcessors" unary "ListProcessors" "ListProcessorsRequest"
        "ListProcessorsResponse"
      ∷ handler "InspectProcessorIn" stream "InspectProcessorIn" "InspectProcessorInRequest"
          "InspectProcessorInResponse"
      ∷ handler "InspectProcessorOut" stream "InspectProcessorOut" "InspectProcessorOutRequest"
          "InspectProcessorOutResponse"
      ∷ handler "GetProcessor" unary "GetProcessor" "GetProcessorRequest" "GetProcessorResponse"
      ∷ handler "CreateProcessor" unary "CreateProcessor" "CreateProcessorRequest"
          "CreateProcessorResponse"
      ∷ handler "UpdateProcessor" unary "UpdateProcessor" "UpdateProcessorRequest"
          "UpdateProcessorResponse"
      ∷ handler "DeleteProcessor" unary "DeleteProcessor" "DeleteProcessorRequest"
          "DeleteProcessorResponse"
      ∷ handler "ListProcessorPlugins" unary "ListProcessorPlugins" "ListProcessorPluginsRequest"
          "ListProcessorPluginsResponse"
      ∷ [];
}
