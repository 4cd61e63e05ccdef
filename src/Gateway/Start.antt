-- ===== src/Gateway/Start.antt =====
-- `ToolGatewayService.__init__` of src/forge_gateway/services/tool_gateway_service.py.
use adapter_forge_gateway.Prelude.{ℕ, ltb, if◌then◌else◌}
use adapter_forge_gateway.Raise.{Exception, Result, ok, err, ◌>>=◌}
use adapter_forge_gateway.Directory.State.{init as init_directory}
use adapter_forge_gateway.Catalog.{init as init_catalog}
use adapter_forge_gateway.Invocations.Store.{init as init_store}
use adapter_forge_gateway.Gateway.State.{Gateway, ToolGatewayConfig, started}

unfoldable pub start : ToolGatewayConfig → ℕ → Result Gateway
start config outbound_capacity = if ltb outbound_capacity 1 then err Exception.value_error else (do
  directory ← init_directory config.lease_ttl_ms
  catalog ← init_catalog config.specs
  store ← init_store config.invocation_capacity config.event_capacity config.retention
  ok (started config outbound_capacity directory catalog store))
