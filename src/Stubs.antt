-- ===== src/Stubs.antt =====
-- conduit/_grpc/api/v1/api_pb2_grpc.py: the methods of the stubs, the handlers that a server
-- registers. Messages are given by their types' names.
pub mod Pipelines
pub mod Connectors
pub mod Processors
pub mod Information
pub mod Plugins
pub mod Experimental
pub mod Servicers
use conduit_client_python.Prelude.{
  String, Option, none, some, List, [], ◌∷◌, ◌<>◌, ◌==◌, if◌then◌else◌,
}

-- Whether a call has one response or a stream of them.
pub data Responses : Type 0 where
  unary stream : Responses

-- An attribute of a stub: the callable that `channel.unary_unary` or `unary_stream` makes.
pub record Method : Type 0 where
  pub attribute : String
  pub path : String
  pub responses : Responses
  pub serializes : String
  pub deserializes : String

abbrev pub method : String → String → Responses → String → String → Method
method attribute path responses serializes deserializes = record {
  attribute = attribute;
  path = path;
  responses = responses;
  serializes = serializes;
  deserializes = deserializes;
}

-- An entry of `rpc_method_handlers`.
pub record Handler : Type 0 where
  pub key : String
  pub responses : Responses
  pub servicer_method : String
  pub deserializes : String
  pub serializes : String

abbrev pub handler : String → Responses → String → String → String → Handler
handler key responses servicer_method deserializes serializes = record {
  key = key;
  responses = responses;
  servicer_method = servicer_method;
  deserializes = deserializes;
  serializes = serializes;
}

-- What a server registers.
pub record Service : Type 0 where
  pub name : String
  pub handlers : List Handler
