-- ===== src/Stubs/Connectors.antt =====
-- The stub of `ConnectorService`, and its handlers on a server.
use conduit_client_python.Prelude.{List, [], ◌∷◌}
use conduit_client_python.Stubs.{unary, stream, Method, method, handler, Service}

-- `ConnectorServiceStub.__init__`
abbrev pub connector_stub : List Method
connector_stub =
    method "ListConnectors" "/api.v1.ConnectorService/ListConnectors" unary "ListConnectorsRequest"
      "ListConnectorsResponse"
    ∷ method "InspectConnector" "/api.v1.ConnectorService/InspectConnector" stream
        "InspectConnectorRequest" "InspectConnectorResponse"
    ∷ method "GetConnector" "/api.v1.ConnectorService/GetConnector" unary "GetConnectorRequest"
        "GetConnectorResponse"
    ∷ method "CreateConnector" "/api.v1.ConnectorService/CreateConnector" unary
        "CreateConnectorRequest" "CreateConnectorResponse"
    ∷ method "ValidateConnector" "/api.v1.ConnectorService/ValidateConnector" unary
        "ValidateConnectorRequest" "ValidateConnectorResponse"
    ∷ method "UpdateConnector" "/api.v1.ConnectorService/UpdateConnector" unary
        "UpdateConnectorRequest" "UpdateConnectorResponse"
    ∷ method "DeleteConnector" "/api.v1.ConnectorService/DeleteConnector" unary
        "DeleteConnectorRequest" "DeleteConnectorResponse"
    ∷ method "ListConnectorPlugins" "/api.v1.ConnectorService/ListConnectorPlugins" unary
        "ListConnectorPluginsRequest" "ListConnectorPluginsResponse"
    ∷ []

-- `add_ConnectorServiceServicer_to_server`
abbrev pub connector_service : Service
connector_service = record {
  name = "api.v1.ConnectorService";
  handlers =
      handler "ListConnectors" unary "ListConnectors" "ListConnectorsRequest"
        "ListConnectorsResponse"
      ∷ handler "InspectConnector" stream "InspectConnector" "InspectConnectorRequest"
          "InspectConnectorResponse"
      ∷ handler "GetConnector" unary "GetConnector" "GetConnectorRequest" "GetConnectorResponse"
      ∷ handler "CreateConnector" unary "CreateConnector" "CreateConnectorRequest"
          "CreateConnectorResponse"
      ∷ handler "ValidateConnector" unary "ValidateConnector" "ValidateConnectorRequest"
          "ValidateConnectorResponse"
      ∷ handler "UpdateConnector" unary "UpdateConnector" "UpdateConnectorRequest"
          "UpdateConnectorResponse"
      ∷ handler "DeleteConnector" unary "DeleteConnector" "DeleteConnectorRequest"
          "DeleteConnectorResponse"
      ∷ handler "ListConnectorPlugins" unary "ListConnectorPlugins" "ListConnectorPluginsRequest"
          "ListConnectorPluginsResponse"
      ∷ [];
}
