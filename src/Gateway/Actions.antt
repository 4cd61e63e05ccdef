-- ===== src/Gateway/Actions.antt =====
-- The HTTP side of Actions in `ToolGatewayService` of
-- src/forge_gateway/services/tool_gateway_service.py: `submit_http_action`, and the resolution of a
-- ToolSpec.
use adapter_forge_gateway.Prelude.{
  ℕ, ◌+◌, String, Bool, true, false, not, ◌&&◌, Option, none, some, [], ◌∷◌, leb, ltb, ◌==◌,
  string_eq, if◌then◌else◌,
}
use adapter_forge_gateway.Prelude.Int.{negsuc}
use adapter_forge_gateway.Raise.{
  value_error, key_error, gateway_unavailable, assertion_error, stop_iteration, ok, Action,
}
use adapter_forge_gateway.Raise.Method.{pure, raise, lift, gets, ◌>>=◌, ◌>>◌, choose, when}
use adapter_forge_gateway.Endpoint.Json.{Fields, end}
use adapter_forge_gateway.Endpoint.Values.{ToolSemantics}
use adapter_forge_gateway.Endpoint.Checks.{mapping_copy}
use adapter_forge_gateway.Endpoint.Responses.{ToolContext, check_context}
use adapter_forge_gateway.Invocations.Item.{ActionPhase, ActionKey, ActionInvocation, key}
use adapter_forge_gateway.Invocations.Store.{create, discard}
use adapter_forge_gateway.Invocations.Observe.{Snapshot, snapshot}
use adapter_forge_gateway.Directory.State.{max_safe_integer, RegisteredEndpoint, expire}
use adapter_forge_gateway.Directory.Manage.{resolve}
use adapter_forge_gateway.Catalog.{ToolSpec, find_operation, validate_binding}
use adapter_forge_gateway.Catalog
use adapter_forge_gateway.Gateway.Text.{text}
use adapter_forge_gateway.Gateway.Envelope.{Payload, ToolEnvelope}
use adapter_forge_gateway.Gateway.State.{
  Purpose, Gateway, Ambient, on_directory, on_invocations, reserve_outbound_slots, ensure_accepting,
}
use adapter_forge_gateway.Gateway.Finish.{finish_unclaimed_for_removed}
use adapter_forge_gateway.Gateway.Exchanges.{queue_action_exchange, or_release, provider_request_id}

-- `resolve_registered_endpoint`
unfoldable pub resolve_registered_endpoint :
    Ambient → String → String → ℕ → Action Gateway (Option RegisteredEndpoint)
resolve_registered_endpoint w endpoint_id operation now = do
  expired ← on_directory (expire now)
  finish_unclaimed_for_removed w expired now
  on_directory (resolve endpoint_id operation now)

unfoldable pub resolve_spec :
    Ambient → ℕ → ToolSpec → Action Gateway (ToolSpec × RegisteredEndpoint)
resolve_spec w now spec = do
  found ← resolve_registered_endpoint w spec.endpoint_id spec.operation now
  choose found (raise gateway_unavailable)
      (λ registration. lift (validate_binding spec registration) >> pure (spec, registration))

-- `resolve_tool_spec`
unfoldable pub resolve_tool_spec :
    Ambient → String → ℕ → Action Gateway (ToolSpec × RegisteredEndpoint)
resolve_tool_spec w tool_id now = do
  found ← gets (λ g. Catalog.get tool_id g.catalog)
  choose found (raise key_error) (resolve_spec w now)

abbrev pub or_default : ℕ → Option ℕ → ℕ
or_default default none = default
or_default default (some value) = value

-- The checks of a timeout, which `_validate_timeout_ms` begins.
unfoldable pub check_timeout : Option ℕ → Action Gateway ℕ
check_timeout timeout_ms = do
  configured ← gets (λ g. g.invoke_timeout_ms)
  when
      (not (
        leb 1 (or_default configured timeout_ms)
        && leb (or_default configured timeout_ms) max_safe_integer))
      (raise value_error)
  when (ltb configured (or_default configured timeout_ms)) (raise value_error)
  pure (or_default configured timeout_ms)

abbrev pub is_query : ToolSemantics → Bool
is_query ToolSemantics.query = true
is_query _ = false

-- `min(_MAX_SAFE_JSON_INTEGER, int(time.time() * 1_000) + effective_timeout)`
abbrev pub absolute_deadline : Ambient → ℕ → ℕ
absolute_deadline w timeout =
    if leb max_safe_integer (w.epoch_ms + timeout) then max_safe_integer else w.epoch_ms + timeout

-- A Session has no deadline.
abbrev pub deadline_of : Ambient → ToolSemantics → ℕ → Option ℕ
deadline_of w ToolSemantics.session timeout = none
deadline_of w _ timeout = some (absolute_deadline w timeout)

abbrev pub gateway_identity : Ambient → String
gateway_identity w = text ("gateway-" ∷ w.identity ∷ [])

-- The arguments of `ToolContext(…)` for an Action that an HTTP caller asks for.
unfoldable pub action_context : Ambient → ToolSpec → Option String → ℕ → ToolContext
action_context w spec caller_id timeout = record {
  execution_key = (gateway_identity w, gateway_identity w);
  tool_id = spec.tool_id;
  implementation_id = spec.implementation_id;
  endpoint_id = spec.endpoint_id;
  operation = spec.operation;
  caller_id = caller_id;
  deadline_ms = deadline_of w spec.semantics timeout;
  metadata = end;
}

-- `make_invoke_request_envelope` to a provider instance, of src/forge_tool/wire/factories.py.
unfoldable pub invoke_request_envelope : Ambient → Fields → ToolContext → String → ToolEnvelope
invoke_request_envelope w arguments context instance_id = record {
  request_id = some (provider_request_id w);
  invocation_id = some context.execution_key.0;
  attempt_id = some context.execution_key.1;
  endpoint_id = context.endpoint_id;
  endpoint_instance_id = some instance_id;
  operation = some context.operation;
  sequence = none;
  payload = Payload.invoke_request context arguments;
}

-- `ActionInvocation(…)` with its defaults, for a context and the instance that it is pinned to.
unfoldable pub new_invocation : Ambient → ToolContext → String → ActionInvocation
new_invocation w context instance_id = record {
  invocation_id = context.execution_key.0;
  attempt_id = context.execution_key.1;
  tool_id = context.tool_id;
  implementation_id = context.implementation_id;
  endpoint_id = context.endpoint_id;
  endpoint_instance_id = instance_id;
  operation = context.operation;
  caller_id = context.caller_id;
  deadline_ms = context.deadline_ms;
  created_at = w.epoch_ms;
  phase = ActionPhase.dispatching;
  result = none;
  error = none;
  observation_error = none;
  cancel_status = none;
  stop_status = none;
  terminal_at = none;
  accepted_established = false;
  occupies_concurrency = true;
  terminal_status_hint = none;
  events = [];
  event_limit = none;
  next_event_sequence = 0;
  last_provider_sequence = negsuc 0;
  terminal_event_seen = false;
}

-- The current registration is of another instance, or there is none.
abbrev pub is_replaced : Option RegisteredEndpoint → RegisteredEndpoint → Bool
is_replaced none registration = true
is_replaced (some current) registration =
    not (current.endpoint_instance_id == registration.endpoint_instance_id)

-- `self.action_invocations.discard(key)`
unfoldable pub discard_invocation : ActionKey → Action Gateway (Unit {0})
discard_invocation k = on_invocations (λ s. (ok tt, discard k s))

-- The locked part of `submit_http_action`.
unfoldable pub admit_http_action :
    RegisteredEndpoint → ActionInvocation → ToolEnvelope → ℕ → ℕ → ℕ → Action Gateway (Unit {0})
admit_http_action registration invocation request limit timeout now = do
  ensure_accepting
  current ← on_directory (resolve invocation.endpoint_id invocation.operation now)
  when (is_replaced current registration) (raise gateway_unavailable)
  reserve_outbound_slots 1
  or_release 1
      (on_invocations (create invocation now (some limit))
        >> queue_action_exchange (key invocation) request registration.route Purpose.invoke
            (now + timeout) none false)
      (discard_invocation (key invocation))

-- `submit_http_action` from the resolution on to the end of its locked part.
unfoldable pub create_resolved :
    Ambient
    → Fields
    → Option String
    → ℕ
    → ℕ
    → ToolSpec × RegisteredEndpoint
    → Action Gateway ActionKey
create_resolved w arguments caller_id timeout now (spec, registration) = do
  when (is_query spec.semantics) (raise value_error)
  choose (find_operation spec.operation registration.descriptor.operations) (raise stop_iteration)
      (λ operation. do
        context ← lift (check_context (action_context w spec caller_id timeout))
        copied ← lift (mapping_copy arguments)
        admit_http_action registration (new_invocation w context registration.endpoint_instance_id)
            (invoke_request_envelope w copied context registration.endpoint_instance_id)
            operation.max_concurrency timeout now
        pure (key (new_invocation w context registration.endpoint_instance_id)))

-- The end of `submit_http_action`, without the service's lock.
unfoldable pub read_created : ActionKey → ℕ → Action Gateway Snapshot
read_created k now = do
  seen ← on_invocations (snapshot k now)
  choose seen (raise assertion_error) pure

-- `submit_http_action`, when no other call falls between its three parts.
unfoldable pub submit_http_action :
    Ambient → String → Fields → Option String → Option ℕ → ℕ → Action Gateway Snapshot
submit_http_action w tool_id arguments caller_id timeout_ms now = do
  timeout ← check_timeout timeout_ms
  resolved ← resolve_tool_spec w tool_id now
  k ← create_resolved w arguments caller_id timeout now resolved
  read_created k now
