-- ===== src/Gateway/Snapshots.antt =====
-- What `ToolGatewayService` of src/forge_gateway/services/tool_gateway_service.py shows to the HTTP
-- side: the registrations, the discovery and ToolSpec snapshots, and an Action and its result.
use adapter_forge_gateway.Prelude.{
  if◌then◌else◌, ℕ, String, Option, none, some, List, [], ◌∷◌, ◌==◌, string_eq,
}
use adapter_forge_gateway.Raise.{Action, ok, err}
use adapter_forge_gateway.Raise.Method.{pure, gets, ◌>>=◌, ◌>>◌, choose}
use adapter_forge_gateway.Endpoint.Values.{ToolEndpointDescriptor}
use adapter_forge_gateway.Invocations.Store.{resolve_http_key}
use adapter_forge_gateway.Invocations.Observe.{
  Snapshot, ResultSnapshot, snapshot as store_snapshot, result_snapshot,
}
use adapter_forge_gateway.Directory.State.{RegisteredEndpoint, endpoint_id_of, expire}
use adapter_forge_gateway.Directory.Manage.{ToolDirectorySnapshot, snapshot}
use adapter_forge_gateway.Catalog.{ToolSpec, list_specs, validate_binding}
use adapter_forge_gateway.Gateway.State.{Gateway, Ambient, on_directory, on_invocations}
use adapter_forge_gateway.Gateway.Finish.{finish_unclaimed_for_removed}

-- The part that the three snapshots of the directory begin with.
unfoldable pub current_directory : Ambient → ℕ → Action Gateway ToolDirectorySnapshot
current_directory w now = do
  expired ← on_directory (expire now)
  finish_unclaimed_for_removed w expired now
  on_directory (snapshot now)

-- `endpoint_registrations`
unfoldable pub endpoint_registrations : Ambient → ℕ → Action Gateway (List RegisteredEndpoint)
endpoint_registrations w now = do seen ← current_directory w now; pure seen.registrations

pub record DiscoveredTool : Type 0 where
  pub endpoint_id : String
  pub descriptor : ToolEndpointDescriptor

pub record DiscoverySnapshot : Type 0 where
  pub revision : ℕ
  pub tools : List DiscoveredTool

abbrev pub discovered : List RegisteredEndpoint → List DiscoveredTool
discovered [] = []
discovered (r ∷ rs) =
    record { endpoint_id = endpoint_id_of r; descriptor = r.descriptor } ∷ discovered rs

-- `discovery_snapshot`
unfoldable pub discovery_snapshot : Ambient → ℕ → Action Gateway DiscoverySnapshot
discovery_snapshot w now = do
  seen ← current_directory w now
  pure (record { revision = seen.revision; tools = discovered seen.registrations })

-- `available` and `binding_error`, whose text is left out
pub data Availability : Type 0 where
  absent mismatched available : Availability

-- `registrations.get(endpoint_id)`: a later registration replaces an earlier one of its ID.
unfoldable pub registration_of : String → List RegisteredEndpoint → Option RegisteredEndpoint
registration_of endpoint_id [] = none
registration_of endpoint_id (r ∷ rs) = elim (registration_of endpoint_id rs) [
  | some later ↦ some later
  | none ↦ if endpoint_id_of r == endpoint_id then some r else none
]

abbrev pub availability : ToolSpec → Option RegisteredEndpoint → Availability
availability spec none = Availability.absent
availability spec (some registration) = elim (validate_binding spec registration) [
  | ok _ ↦ Availability.available
  | err _ ↦ Availability.mismatched
]

abbrev pub shown_specs : List RegisteredEndpoint → List ToolSpec → List (ToolSpec × Availability)
shown_specs rs [] = []
shown_specs rs (spec ∷ specs) =
    (spec, availability spec (registration_of spec.endpoint_id rs)) ∷ shown_specs rs specs

pub record ToolSpecSnapshot : Type 0 where
  pub revision : ℕ
  pub tools : List (ToolSpec × Availability)

-- `tool_spec_snapshot`
unfoldable pub tool_spec_snapshot : Ambient → ℕ → Action Gateway ToolSpecSnapshot
tool_spec_snapshot w now = do
  seen ← current_directory w now
  specs ← gets (λ g. list_specs g.catalog)
  pure (record { revision = seen.revision; tools = shown_specs seen.registrations specs })

-- `action_invocation_snapshot`
unfoldable pub action_invocation_snapshot : String → ℕ → Action Gateway (Option Snapshot)
action_invocation_snapshot invocation_id now = do
  resolved ← on_invocations (resolve_http_key invocation_id now)
  choose resolved (pure none) (λ k. on_invocations (store_snapshot k now))

-- `action_result_snapshot`
unfoldable pub action_result_snapshot : String → ℕ → Action Gateway (Option ResultSnapshot)
action_result_snapshot invocation_id now = do
  resolved ← on_invocations (resolve_http_key invocation_id now)
  choose resolved (pure none) (λ k. on_invocations (result_snapshot k now))
