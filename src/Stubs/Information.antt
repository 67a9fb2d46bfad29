-- ===== src/Stubs/Information.antt =====
-- The stub of `InformationService`, and its handlers on a server.
use conduit_client_python.Prelude.{List, [], ◌∷◌}
use conduit_client_python.Stubs.{unary, Method, method, handler, Service}

-- `InformationServiceStub.__init__`
abbrev pub information_stub : List Method
information_stub =
    method "GetInfo" "/api.v1.InformationService/GetInfo" unary "GetInfoRequest" "GetInfoResponse"
    ∷ []

-- `add_InformationServiceServicer_to_server`
abbrev pub information_service : Service
information_service = record {
  name = "api.v1.InformationService";
  handlers = handler "GetInfo" unary "GetInfo" "GetInfoRequest" "GetInfoResponse" ∷ [];
}
