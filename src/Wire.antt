-- ===== src/Wire.antt =====
-- The messages of api/v1/api_pb2 that the client builds and reads, and the RPCs that carry them.
-- A field that is not set holds its proto3 default.
use conduit_client_python.Prelude.{◌^◌, String, Bool, ltb, if◌then◌else◌}
use conduit_client_python.Prelude.Dict.{Dict}
use conduit_client_python.Prelude.Int.{ℤ, pos, negsuc}
use conduit_client_python.Errors.{Exception, Outcome, ok, raised}

-- `Connector.Type`
pub data ConnectorType : Type 0 where
  type_unspecified type_source type_destination : ConnectorType

-- `Processor.Parent.Type`
pub data ParentType : Type 0 where
  parent_unspecified parent_connector parent_pipeline : ParentType

pub record PipelineConfig : Type 0 where
  pub name : String
  pub description : String

pub record CreatePipelineRequest : Type 0 where
  pub config : PipelineConfig

pub record ConnectorConfig : Type 0 where
  pub name : String
  pub settings : Dict String

pub record CreateConnectorRequest : Type 0 where
  pub type : ConnectorType
  pub plugin : String
  pub pipeline_id : String
  pub config : ConnectorConfig

pub record ProcessorParent : Type 0 where
  pub type : ParentType
  pub id : String

pub record ProcessorConfig : Type 0 where
  pub settings : Dict String
  pub workers : ℤ

pub record CreateProcessorRequest : Type 0 where
  pub plugin : String
  pub parent : ProcessorParent
  pub config : ProcessorConfig
  pub condition : String

pub record Dlq : Type 0 where
  pub plugin : String
  pub settings : Dict String
  pub window_size : ℤ
  pub window_nack_threshold : ℤ

pub record UpdateDlqRequest : Type 0 where
  pub id : String
  pub dlq : Dlq

-- `Pipeline.State`. Enum fields are open in proto3: they hold any number.
pub record PipelineState : Type 0 where
  pub status : ℤ
  pub error : String
  pub stopped_reason : ℤ

-- What the client reads of a `Pipeline` message.
pub record PipelineMessage : Type 0 where
  pub id : String
  pub state : PipelineState

pub record Info : Type 0 where
  pub version : String
  pub os : String
  pub arch : String

-- A call of a stub's method with its request.
pub data Request : Type 0 where
  create_pipeline : CreatePipelineRequest → Request
  create_connector : CreateConnectorRequest → Request
  create_processor : CreateProcessorRequest → Request
  update_dlq : UpdateDlqRequest → Request
  start_pipeline : String → Request
  stop_pipeline : String → Bool → Request
  get_pipeline : String → Request
  get_info : Request

-- What the client reads of the response; the empty ones, and those that it drops, are `Unit`.
abbrev pub Response : Request → Type 0
Response (create_pipeline _) = PipelineMessage
Response (get_pipeline _) = PipelineMessage
Response get_info = Info
Response _ = Unit

-- Setting an `int32` field: protobuf raises a `ValueError` for a number out of range.
unfoldable pub int32 : ℤ → Outcome ℤ
int32 (pos n) =
    if ltb n (2 ^ 31) then ok (pos n) else raised (Exception.value_error "Value out of range")
int32 (negsuc n) =
    if ltb n (2 ^ 31) then ok (negsuc n) else raised (Exception.value_error "Value out of range")

-- Setting a `uint64` field.
unfoldable pub uint64 : ℤ → Outcome ℤ
uint64 (pos n) =
    if ltb n (2 ^ 64) then ok (pos n) else raised (Exception.value_error "Value out of range")
uint64 (negsuc n) = raised (Exception.value_error "Value out of range")
