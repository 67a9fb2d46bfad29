-- ===== src/Stubs/Servicers.antt =====
-- conduit/_grpc/api/v1/api_pb2_grpc.py: the servicers as they are generated, each with its methods. The
-- generator has given each of them the same body.
use conduit_client_python.Prelude.{String, Option, some, List, [], ◌∷◌}
use conduit_client_python.Errors.{StatusCode, unimplemented, other_error, Outcome, raised}

-- What a method of a servicer tells its `ServicerContext`.
pub record Context : Type 0 where
  pub code : Option StatusCode
  pub details : Option String

-- The body that each method has: `set_code`, `set_details`, `raise NotImplementedError`.
unfoldable pub not_implemented : Context → Outcome (Unit {0}) × Context
not_implemented context = (
  raised (other_error "Method not implemented!"),
  record context { code = some unimplemented; details = some "Method not implemented!" },
)

-- The methods of a servicer by their names, each with its body.
abbrev pub Servicer : Type 0
Servicer = List (String × (Context → Outcome (Unit {0}) × Context))

-- `PipelineServiceServicer`
abbrev pub pipeline_servicer : Servicer
pipeline_servicer =
    ("ListPipelines", not_implemented)
    ∷ ("CreatePipeline", not_implemented)
    ∷ ("GetPipeline", not_implemented)
    ∷ ("UpdatePipeline", not_implemented)
    ∷ ("DeletePipeline", not_implemented)
    ∷ ("StartPipeline", not_implemented)
    ∷ ("StopPipeline", not_implemented)
    ∷ ("GetDLQ", not_implemented)
    ∷ ("UpdateDLQ", not_implemented)
    ∷ ("ExportPipeline", not_implemented)
    ∷ ("ImportPipeline", not_implemented)
    ∷ ("PlanPipeline", not_implemented)
    ∷ ("ApplyPipeline", not_implemented)
    ∷ []

-- `ConnectorServiceServicer`
abbrev pub connector_servicer : Servicer
connector_servicer =
    ("ListConnectors", not_implemented)
    ∷ ("InspectConnector", not_implemented)
    ∷ ("GetConnector", not_implemented)
    ∷ ("CreateConnector", not_implemented)
    ∷ ("ValidateConnector", not_implemented)
    ∷ ("UpdateConnector", not_implemented)
    ∷ ("DeleteConnector", not_implemented)
    ∷ ("ListConnectorPlugins", not_implemented)
    ∷ []

-- `ProcessorServiceServicer`
abbrev pub processor_servicer : Servicer
processor_servicer =
    ("ListProcessors", not_implemented)
    ∷ ("InspectProcessorIn", not_implemented)
    ∷ ("InspectProcessorOut", not_implemented)
    ∷ ("GetProcessor", not_implemented)
    ∷ ("CreateProcessor", not_implemented)
    ∷ ("UpdateProcessor", not_implemented)
    ∷ ("DeleteProcessor", not_implemented)
    ∷ ("ListProcessorPlugins", not_implemented)
    ∷ []

-- `InformationServiceServicer`
abbrev pub information_servicer : Servicer
information_servicer = ("GetInfo", not_implemented) ∷ []

-- `PluginServiceServicer`
abbrev pub plugin_servicer : Servicer
plugin_servicer = ("ListPlugins", not_implemented) ∷ []
