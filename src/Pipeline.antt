-- ===== src/Pipeline.antt =====
-- conduit/pipeline.py: the builder, whose methods return the changed object, and `build_requests`.
pub mod Settings
pub mod Builder
pub mod Range
use conduit_client_python.Prelude.{
  String, Bool, true, false, Option, none, some, List, [], ◌∷◌, ◌++◌, or_text, or_default,
}
use conduit_client_python.Prelude.Dict.{Dict, insert, update}
use conduit_client_python.Prelude.Int.{ℤ, pos}
use conduit_client_python.Errors.{Outcome, ok, raised, ◌>>=◌}
use conduit_client_python.Wire.{
  ConnectorType, type_source, type_destination, parent_unspecified, CreatePipelineRequest,
  CreateConnectorRequest, CreateProcessorRequest, UpdateDlqRequest, int32, uint64,
}

-- A value of a setting: a Boolean, or any other object, which is given by what `str` makes of it.
pub data Value : Type 0 where
  bool : Bool → Value
  object : String → Value

unfoldable pub render : Value → String
render (bool true) = "true"
render (bool false) = "false"
render (object text) = text

-- The loop of `_settings`, which fills `out`.
unfoldable pub render_loop : Dict String → Dict Value → Dict String
render_loop out [] = out
render_loop out ((k, v) ∷ rest) = render_loop (insert k (render v) out) rest

-- `_settings`
unfoldable pub settings : Option (Dict Value) → Dict Value → Dict String
settings explicit kwargs = render_loop [] (update (or_default explicit []) kwargs)

pub record ConnectorSpec : Type 0 where
  pub type : ConnectorType
  pub plugin : String
  pub name : String
  pub settings : Dict String

pub record ProcessorSpec : Type 0 where
  pub plugin : String
  pub condition : String
  pub workers : Option ℤ
  pub settings : Dict String

pub record DlqSpec : Type 0 where
  pub plugin : String
  pub settings : Dict String
  pub window_size : Option ℤ
  pub window_nack_threshold : Option ℤ

pub record BuildPlan : Type 0 where
  pub create_pipeline : CreatePipelineRequest
  pub create_connectors : List CreateConnectorRequest
  pub create_processors : List CreateProcessorRequest
  pub dlq : Option UpdateDlqRequest

pub record Pipeline : Type 0 where
  pub id : String
  pub name : String
  pub description : String
  pub connectors : List ConnectorSpec
  pub processors : List ProcessorSpec
  pub dlq : Option DlqSpec

-- `Pipeline(id, name=, description=)`
unfoldable pub new_pipeline : String → Option String → String → Pipeline
new_pipeline id name description = record {
  id = id;
  name = or_default name id;
  description = description;
  connectors = [];
  processors = [];
  dlq = none;
}

-- The arguments of `source` and `destination`.
pub record ConnectorArgs : Type 0 where
  pub plugin : String
  pub name : String
  pub settings : Option (Dict Value)
  pub kwargs : Dict Value

-- The arguments of `process`.
pub record ProcessorArgs : Type 0 where
  pub plugin : String
  pub condition : String
  pub workers : Option ℤ
  pub settings : Option (Dict Value)
  pub kwargs : Dict Value

-- The arguments of `dlq`.
pub record DlqArgs : Type 0 where
  pub plugin : String
  pub window_size : Option ℤ
  pub window_nack_threshold : Option ℤ
  pub settings : Option (Dict Value)
  pub kwargs : Dict Value

unfoldable pub source : ConnectorArgs → Pipeline → Pipeline
source a p = record p {
  connectors =
      p.connectors
      ++ record {
        type = type_source;
        plugin = a.plugin;
        name = or_text a.name a.plugin;
        settings = settings a.settings a.kwargs;
      }
        ∷ [];
}

unfoldable pub destination : ConnectorArgs → Pipeline → Pipeline
destination a p = record p {
  connectors =
      p.connectors
      ++ record {
        type = type_destination;
        plugin = a.plugin;
        name = or_text a.name a.plugin;
        settings = settings a.settings a.kwargs;
      }
        ∷ [];
}

unfoldable pub process : ProcessorArgs → Pipeline → Pipeline
process a p = record p {
  processors =
      p.processors
      ++ record {
        plugin = a.plugin;
        condition = a.condition;
        workers = a.workers;
        settings = settings a.settings a.kwargs;
      }
        ∷ [];
}

unfoldable pub dlq : DlqArgs → Pipeline → Pipeline
dlq a p = record p {
  dlq = some (record {
    plugin = a.plugin;
    settings = settings a.settings a.kwargs;
    window_size = some (or_default a.window_size (pos 1));
    window_nack_threshold = some (or_default a.window_nack_threshold (pos 0));
  });
}

unfoldable pub connector_request : ConnectorSpec → CreateConnectorRequest
connector_request c = record {
  type = c.type;
  plugin = c.plugin;
  pipeline_id = "";
  config = record { name = c.name; settings = c.settings };
}

-- A number that is `None` leaves its field unset.
unfoldable pub optional : (ℤ → Outcome ℤ) → Option ℤ → Outcome ℤ
optional field none = ok (pos 0)
optional field (some n) = field n

unfoldable pub processor_request : ProcessorSpec → Outcome CreateProcessorRequest
processor_request p = do
  workers ← optional int32 p.workers
  ok (record {
    plugin = p.plugin;
    parent = record { type = parent_unspecified; id = "" };
    config = record { settings = p.settings; workers = workers };
    condition = p.condition;
  })

-- `tuple(… for p in self._processors)`
unfoldable pub processor_requests : List ProcessorSpec → Outcome (List CreateProcessorRequest)
processor_requests [] = ok []
processor_requests (p ∷ rest) = do
  first ← processor_request p
  later ← processor_requests rest
  ok (first ∷ later)

unfoldable pub dlq_request : Option DlqSpec → Outcome (Option UpdateDlqRequest)
dlq_request none = ok none
dlq_request (some d) = do
  window_size ← optional uint64 d.window_size
  window_nack_threshold ← optional uint64 d.window_nack_threshold
  ok (
      some (record {
        id = "";
        dlq = record {
          plugin = d.plugin;
          settings = d.settings;
          window_size = window_size;
          window_nack_threshold = window_nack_threshold;
        };
      }))

unfoldable pub connector_requests : List ConnectorSpec → List CreateConnectorRequest
connector_requests [] = []
connector_requests (c ∷ rest) = connector_request c ∷ connector_requests rest

unfoldable pub build_requests : Pipeline → Outcome BuildPlan
build_requests p = do
  processors ← processor_requests p.processors
  dlq_update ← dlq_request p.dlq
  ok (record {
    create_pipeline = record { config = record { name = p.name; description = p.description } };
    create_connectors = connector_requests p.connectors;
    create_processors = processors;
    dlq = dlq_update;
  })
