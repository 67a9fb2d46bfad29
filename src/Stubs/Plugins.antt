-- ===== src/Stubs/Plugins.antt =====
-- The stub of `PluginService`, and its handlers on a server.
use conduit_client_python.Prelude.{List, [], ◌∷◌}
use conduit_client_python.Stubs.{unary, Method, method, handler, Service}

-- `PluginServiceStub.__init__`
abbrev pub plugin_stub : List Method
plugin_stub =
    method "ListPlugins" "/api.v1.PluginService/ListPlugins" unary "ListPluginsRequest"
      "ListPluginsResponse"
    ∷ []

-- `add_PluginServiceServicer_to_server`
abbrev pub plugin_service : Service
plugin_service = record {
  name = "api.v1.PluginService";
  handlers =
      handler "ListPlugins" unary "ListPlugins" "ListPluginsRequest" "ListPluginsResponse" ∷ [];
}
