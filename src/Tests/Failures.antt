-- ===== src/Tests/Failures.antt =====
-- Failures of gRPC calls, as an engine or a proxy may send them.
use conduit_client_python.Prelude.{◌≡◌, refl, String, none, some, [], ◌∷◌}
use conduit_client_python.Errors.{
  unavailable, ConduitError, ErrorInfo, error_info, foreign, no_status, decode_error, RpcError,
  Exception, ok, raised, grpc_code, message_of, get_text, details_of, from_rpc_error,
}
use conduit_client_python.Errors.Translate.{from_rpc_error_found, from_rpc_error_raised}
use conduit_client_python.Errors.Fallback.{StatusOf, CodeOf, MessageOf, from_rpc_error_fallback}
use conduit_client_python.Tests.Data.{missing}

abbrev info : ErrorInfo
info = record {
  reason = "connector.plugin_not_found";
  domain = "conduit";
  metadata = ("suggestion", "check the name") ∷ [];
}

details_missing : details_of missing.call ≡ ok (foreign ∷ error_info info ∷ [])
unfolding details_of
details_missing = refl

from_rpc_error_found_example :
    (e : ConduitError) × (from_rpc_error missing ≡ ok e)
    × (e.message ≡ message_of missing)
    × (e.code ≡ "connector.plugin_not_found")
    × (e.grpc_status_code ≡ grpc_code missing)
    × (e.config_path ≡ get_text "configPath" info.metadata)
    × (e.suggestion ≡ get_text "suggestion" info.metadata)
    × (e.docs_url ≡ get_text "docsUrl" info.metadata)
    × (e.pipeline_id ≡ "")
from_rpc_error_found_example =
    from_rpc_error_found missing (foreign ∷ []) [] info details_missing (tt, tt) refl

abbrev unreachable : RpcError
unreachable = record {
  text = "connection refused";
  call = some (record { code = unavailable; details = none; status = no_status });
}

details_unreachable : details_of unreachable.call ≡ ok []
unfolding details_of
details_unreachable = refl

from_rpc_error_fallback_example :
    (e : ConduitError) × (from_rpc_error unreachable ≡ ok e)
    × StatusOf unreachable.call e.grpc_status_code
    × CodeOf e.grpc_status_code e.code
    × MessageOf unreachable.text unreachable.call e.message
    × (e.config_path ≡ "")
    × (e.suggestion ≡ "")
    × (e.docs_url ≡ "")
    × (e.pipeline_id ≡ "")
from_rpc_error_fallback_example = from_rpc_error_fallback unreachable [] details_unreachable tt

-- A trailer that is no status, as a proxy may send.
abbrev garbled : RpcError
garbled = record {
  text = "rpc failed";
  call = some (record {
    code = unavailable;
    details = some "reset";
    status = decode_error "Error parsing message";
  });
}

garbled_raises : from_rpc_error garbled ≡ raised (Exception.decode_error "Error parsing message")
unfolding from_rpc_error details_of
garbled_raises = refl

from_rpc_error_raised_example :
    (text : String) × (◌≡◌ {A = Exception}
      (Exception.decode_error "Error parsing message")
      (Exception.decode_error text))
from_rpc_error_raised_example =
    from_rpc_error_raised garbled {x = Exception.decode_error "Error parsing message"}
      garbled_raises
