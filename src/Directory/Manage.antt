-- ===== src/Directory/Manage.antt =====
-- `unregister_with_change`, `resolve` and `snapshot` of `EndpointDirectory` in
-- src/forge_gateway/domain/tool_directory.py.
use Prim.Native.Char.{code}
use adapter_forge_gateway.Prelude.{
  ℕ, ◌+◌, String, Bool, true, false, not, ◌&&◌, ◌||◌, Option, none, some, List, [], ◌∷◌, ◌++◌, ◌==◌,
  leb, any, length, string_eq, nat_eq, if◌then◌else◌,
}
use adapter_forge_gateway.Raise.{value_error, operation_not_found, Action}
use adapter_forge_gateway.Raise.State.{◌>>=◌, ◌>>◌, pure, raise, gets}
use adapter_forge_gateway.Dict.{lookup}
use adapter_forge_gateway.Sorted.{sorted}
use adapter_forge_gateway.Endpoint.Values.{ToolOperationDescriptor}
use adapter_forge_gateway.Directory.State.{
  ToolProviderRouteIdentity, route_beq, RegisteredEndpoint, endpoint_id_of, EndpointDirectory,
  next_revision, ensure_revision_capacity, expired, delete, apply_expired, expire, values,
}
use adapter_forge_gateway.Endpoint.Responses.{RegistryOperation}
use adapter_forge_gateway.Directory.Register.{
  EndpointDirectoryMutation, UnregisterRequest, accept_with, reject_with, is_instance, unexpired,
}

-- `removes_current`
abbrev pub removes_current :
    UnregisterRequest → ToolProviderRouteIdentity → Option RegisteredEndpoint → Bool
removes_current request route none = false
removes_current request route (some current) =
    request.endpoint_id == route.endpoint_id
    && route_beq current.route route
    && is_instance request.endpoint_instance_id current.endpoint_instance_id

-- The end of `unregister_with_change`, by the current registration of the route's endpoint.
abbrev pub unregister_at :
    String
    → ToolProviderRouteIdentity
    → List RegisteredEndpoint
    → Option RegisteredEndpoint
    → Action EndpointDirectory EndpointDirectoryMutation
unregister_at instance_id route gone none = accept_with RegistryOperation.unregister false gone
unregister_at instance_id route gone (some current) =
    if not (route_beq current.route route)
    then reject_with RegistryOperation.unregister "FORGE_ENDPOINT_ROUTE_CONFLICT"
        "another configured provider route owns the current endpoint lease" false gone
    else if not (current.endpoint_instance_id == instance_id)
    then reject_with RegistryOperation.unregister "FORGE_ENDPOINT_INSTANCE_STALE"
        "the instance does not own the current endpoint lease" false gone
    else (do
      next_revision
      delete (endpoint_id_of current)
      accept_with RegistryOperation.unregister false (gone ++ current ∷ []))

-- `unregister_with_change` after the expiry has been applied and the route checked.
abbrev pub unregister_instance :
    Option String
    → ToolProviderRouteIdentity
    → List RegisteredEndpoint
    → Action EndpointDirectory EndpointDirectoryMutation
unregister_instance none route gone =
    reject_with RegistryOperation.unregister "FORGE_PROTOCOL_INVALID_MESSAGE"
      "endpoint.unregister requires endpoint_instance_id" false gone
unregister_instance (some instance_id) route gone = do
  current ← gets (λ s. lookup route.endpoint_id s.current)
  unregister_at instance_id route gone current

unfoldable pub unregister_checked :
    UnregisterRequest
    → ToolProviderRouteIdentity
    → List RegisteredEndpoint
    → Action EndpointDirectory EndpointDirectoryMutation
unregister_checked request route gone =
    if not (request.endpoint_id == route.endpoint_id)
    then reject_with RegistryOperation.unregister "FORGE_ENDPOINT_ROUTE_UNAUTHORIZED"
        "the configured provider route is not authorized for this endpoint" false gone
    else unregister_instance request.endpoint_instance_id route gone

unfoldable pub unregister_with_change :
    UnregisterRequest
    → ToolProviderRouteIdentity
    → ℕ
    → Action EndpointDirectory EndpointDirectoryMutation
unregister_with_change request route now = do
  gone ← gets (expired now)
  removes ← gets (λ s. removes_current request route (unexpired route.endpoint_id gone s))
  ensure_revision_capacity (length gone + (if removes then 1 else 0))
  apply_expired gone
  unregister_checked request route gone

-- The characters that `str.strip` removes.
unfoldable pub is_space : ℕ → Bool
is_space c =
    leb 0x09 c && leb c 0x0d
    || leb 0x1c c && leb c 0x20
    || c == 0x85
    || c == 0xa0
    || c == 0x1680
    || leb 0x2000 c && leb c 0x200a
    || leb 0x2028 c && leb c 0x2029
    || c == 0x202f
    || c == 0x205f
    || c == 0x3000

-- `not value.strip()`
unfoldable pub is_blank : String → Bool
is_blank String.[] = true
is_blank (String.◌∷◌ c s) = is_space (code c) && is_blank s

-- `_validate_identifier`
unfoldable pub validate_identifier : String → Action EndpointDirectory (Unit {0})
validate_identifier value = if is_blank value then raise value_error else pure tt

abbrev pub is_named : String → ToolOperationDescriptor → Bool
is_named name operation = operation.name == name

-- The end of `resolve`, by the current registration.
abbrev pub resolve_at :
    String → Option RegisteredEndpoint → Action EndpointDirectory (Option RegisteredEndpoint)
resolve_at operation none = pure none
resolve_at operation (some current) =
    if any (is_named operation) current.descriptor.operations
    then pure (some current)
    else raise operation_not_found

unfoldable pub resolve : String → String → ℕ → Action EndpointDirectory (Option RegisteredEndpoint)
resolve endpoint_id operation now = do
  validate_identifier endpoint_id
  validate_identifier operation
  expire now
  current ← gets (λ s. lookup endpoint_id s.current)
  resolve_at operation current

pub record ToolDirectorySnapshot : Type 0 where
  pub revision : ℕ
  pub registrations : List RegisteredEndpoint

unfoldable pub snapshot : ℕ → Action EndpointDirectory ToolDirectorySnapshot
snapshot now = do
  expire now
  gets (λ s. record { revision = s.revision; registrations = values (sorted s.current) })
