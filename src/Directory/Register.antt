-- ===== src/Directory/Register.antt =====
-- `register_with_change` of `EndpointDirectory` in src/forge_gateway/domain/tool_directory.py.
-- A request comes here after its envelope and payload have been validated, which happens before the
-- lock is taken and touches no state.
use adapter_forge_gateway.Prelude.{
  ℕ, ◌+◌, String, Bool, true, false, not, ◌&&◌, Option, none, some, List, [], ◌∷◌, ◌++◌, ◌==◌, all,
  length, map, string_eq, if◌then◌else◌,
}
use adapter_forge_gateway.Raise.{ok, assertion_error, Action}
use adapter_forge_gateway.Raise.State.{◌>>=◌, ◌>>◌, gets, or_raise, modify}
use adapter_forge_gateway.Dict.{lookup, insert, elem}
use adapter_forge_gateway.Endpoint.Json.{end}
use adapter_forge_gateway.Endpoint.Values.{
  ToolSemantics, ToolEndpointDescriptor, ToolOperationDescriptor,
}
use adapter_forge_gateway.Endpoint.Equality.{descriptor_beq}
use adapter_forge_gateway.Endpoint.Responses.{
  RegistryOperation, RegistryStatus, EndpointRegistryResponse,
}
use adapter_forge_gateway.Directory.State.{
  ToolProviderRouteIdentity, route_beq, RegisteredEndpoint, endpoint_id_of, EndpointDirectory,
  next_revision, ensure_revision_capacity, expired, apply_expired,
}

pub record EndpointDirectoryMutation : Type 0 where
  pub response : EndpointRegistryResponse
  pub removed : List RegisteredEndpoint

-- The parts of a validated `endpoint.register` and `endpoint.unregister` envelope that are used.
pub record RegisterRequest : Type 0 where
  pub descriptor : ToolEndpointDescriptor
  pub endpoint_instance_id : Option String

pub record UnregisterRequest : Type 0 where
  pub endpoint_id : String
  pub endpoint_instance_id : Option String

-- `_accepted` and `_rejected`, with what was removed.
unfoldable pub accept_with :
    RegistryOperation
    → Bool
    → List RegisteredEndpoint
    → Action EndpointDirectory EndpointDirectoryMutation
accept_with operation lease removed s = (
  ok (record {
    response = record {
      operation = operation;
      status = RegistryStatus.accepted;
      registry_revision = s.revision;
      lease_ttl_ms = if lease then some s.lease_ttl_ms else none;
      error = none;
    };
    removed = removed;
  }),
  s,
)

unfoldable pub reject_with :
    RegistryOperation
    → String
    → String
    → Bool
    → List RegisteredEndpoint
    → Action EndpointDirectory EndpointDirectoryMutation
reject_with operation code message retryable removed s = (
  ok (record {
    response = record {
      operation = operation;
      status = RegistryStatus.rejected;
      registry_revision = s.revision;
      lease_ttl_ms = none;
      error =
          some (record { code = code; message = message; retryable = retryable; details = end });
    };
    removed = removed;
  }),
  s,
)

-- `operation.semantics in ("query", "action", "session")`
abbrev pub is_supported : ToolOperationDescriptor → Bool
is_supported operation = elim operation.semantics [
  | ToolSemantics.query ↦ true
  | ToolSemantics.action ↦ true
  | ToolSemantics.session ↦ true
]

-- `x == y` for an optional instance ID and a present one.
abbrev pub is_instance : Option String → String → Bool
is_instance none y = false
is_instance (some x) y = x == y

-- The registration under a key that the expiry will leave.
unfoldable pub unexpired :
    String → List RegisteredEndpoint → EndpointDirectory → Option RegisteredEndpoint
unexpired endpoint_id gone s =
    if elem endpoint_id (map endpoint_id_of gone) then none else lookup endpoint_id s.current

-- Whether a registration under `current` will take a revision of its own.
abbrev pub takes_revision :
    Option RegisteredEndpoint → ToolProviderRouteIdentity → Option String → Bool
takes_revision none route instance_id = true
takes_revision (some current) route instance_id =
    route_beq current.route route && not (is_instance instance_id current.endpoint_instance_id)

unfoldable pub additional_revision :
    RegisterRequest → ToolProviderRouteIdentity → List RegisteredEndpoint → EndpointDirectory → ℕ
additional_revision request route gone s =
    if request.descriptor.endpoint_id == route.endpoint_id
      && all is_supported request.descriptor.operations
      && takes_revision (unexpired request.descriptor.endpoint_id gone s) route
          request.endpoint_instance_id
    then 1
    else 0

-- The lease that a registration at `now` starts.
unfoldable pub leased :
    RegisterRequest
    → String
    → ToolProviderRouteIdentity
    → ℕ
    → ℕ
    → EndpointDirectory
    → EndpointDirectory
leased request instance_id route revision now s = record s {
  current =
      insert request.descriptor.endpoint_id
        (record {
          descriptor = request.descriptor;
          endpoint_instance_id = instance_id;
          route = route;
          registry_revision = revision;
          expires_at = now + s.lease_ttl_ms;
        })
        s.current;
}

-- The same registration with a new expiry.
unfoldable pub renewed : RegisteredEndpoint → String → ℕ → EndpointDirectory → EndpointDirectory
renewed current endpoint_id now s = record s {
  current = insert endpoint_id (record current { expires_at = now + s.lease_ttl_ms }) s.current;
}

-- The end of `register_with_change`: a new or replacing registration.
unfoldable pub register_new :
    RegisterRequest
    → String
    → ToolProviderRouteIdentity
    → ℕ
    → List RegisteredEndpoint
    → Action EndpointDirectory EndpointDirectoryMutation
register_new request instance_id route now removed = do
  revision ← next_revision
  modify (leased request instance_id route revision now)
  accept_with RegistryOperation.register true removed

-- The middle of `register_with_change`, where the endpoint has a current registration.
unfoldable pub register_over :
    RegisterRequest
    → String
    → ToolProviderRouteIdentity
    → ℕ
    → List RegisteredEndpoint
    → RegisteredEndpoint
    → Action EndpointDirectory EndpointDirectoryMutation
register_over request instance_id route now gone current =
    if not (route_beq current.route route)
    then reject_with RegistryOperation.register "FORGE_ENDPOINT_ROUTE_CONFLICT"
        "another configured provider route owns the current endpoint lease" true gone
    else if current.endpoint_instance_id == instance_id
    then (if not (descriptor_beq current.descriptor request.descriptor)
        then reject_with RegistryOperation.register "FORGE_ENDPOINT_DESCRIPTOR_CONFLICT"
            "the current endpoint instance cannot change its descriptor" false gone
        else (do
          modify (renewed current request.descriptor.endpoint_id now)
          accept_with RegistryOperation.register true gone))
    else register_new request instance_id route now (gone ++ current ∷ [])

abbrev pub register_at :
    RegisterRequest
    → String
    → ToolProviderRouteIdentity
    → ℕ
    → List RegisteredEndpoint
    → Option RegisteredEndpoint
    → Action EndpointDirectory EndpointDirectoryMutation
register_at request instance_id route now gone none =
    register_new request instance_id route now gone
register_at request instance_id route now gone (some current) =
    register_over request instance_id route now gone current

-- `register_with_change` after the expiry has been applied.
unfoldable pub register_checked :
    RegisterRequest
    → ToolProviderRouteIdentity
    → ℕ
    → List RegisteredEndpoint
    → Action EndpointDirectory EndpointDirectoryMutation
register_checked request route now gone =
    if not (request.descriptor.endpoint_id == route.endpoint_id)
    then reject_with RegistryOperation.register "FORGE_ENDPOINT_ROUTE_UNAUTHORIZED"
        "the configured provider route is not authorized for this endpoint" false gone
    else if not (all is_supported request.descriptor.operations)
    then reject_with RegistryOperation.register "FORGE_TOOL_SEMANTICS_UNSUPPORTED"
        "Gateway Tool providers may register Query, Action, or Session operations only" false gone
    else (do
      instance_id ← or_raise assertion_error request.endpoint_instance_id
      current ← gets (λ s. lookup request.descriptor.endpoint_id s.current)
      register_at request instance_id route now gone current)

unfoldable pub register_with_change :
    RegisterRequest
    → ToolProviderRouteIdentity
    → ℕ
    → Action EndpointDirectory EndpointDirectoryMutation
register_with_change request route now = do
  gone ← gets (expired now)
  additional ← gets (additional_revision request route gone)
  ensure_revision_capacity (length gone + additional)
  apply_expired gone
  register_checked request route now gone
