-- ===== src/Gateway/Events.antt =====
-- A provider's events and readiness in `ToolGatewayService` of
-- src/forge_gateway/services/tool_gateway_service.py: `_handle_action_event_locked` and
-- `_handle_endpoint_status_locked`.
use adapter_forge_gateway.Prelude.{
  ℕ, String, Bool, not, ◌&&◌, Option, none, some, List, [], ◌∷◌, ◌==◌, string_eq, if◌then◌else◌,
}
use adapter_forge_gateway.Prelude.Int.{pos}
use adapter_forge_gateway.Raise.{value_error, assertion_error, Action}
use adapter_forge_gateway.Raise.Method.{pure, raise, ◌>>=◌, ◌>>◌, choose, modify, when}
use adapter_forge_gateway.Dict.{insert, lookup}
use adapter_forge_gateway.Endpoint.Values.{ToolEvent}
use adapter_forge_gateway.Endpoint.Responses.{EndpointStatus}
use adapter_forge_gateway.Invocations.Item.{ActionKey, key_eq, ActionInvocation, is_terminal_event}
use adapter_forge_gateway.Invocations.Store.{get, append_event}
use adapter_forge_gateway.Directory.State.{
  ToolProviderRouteIdentity, RegisteredEndpoint, endpoint_id_of, expire,
}
use adapter_forge_gateway.Directory.Manage.{snapshot}
use adapter_forge_gateway.Gateway.Envelope.{ToolEnvelope, option_beq}
use adapter_forge_gateway.Gateway.State.{Gateway, Ambient, on_directory, on_invocations}
use adapter_forge_gateway.Gateway.Finish.{finish_unclaimed_for_removed}
use adapter_forge_gateway.Gateway.Answers.{queue_dora_events, look_up_result}

-- The event comes from the attempt that its Action is pinned to.
abbrev pub is_pinned_event :
    ToolProviderRouteIdentity → ToolEnvelope → String → ActionInvocation → Bool
is_pinned_event route envelope attempt_id item =
    route.endpoint_id == item.endpoint_id
    && option_beq envelope.endpoint_instance_id (some item.endpoint_instance_id)
    && attempt_id == item.attempt_id
    && option_beq envelope.operation (some item.operation)

unfoldable pub append_action_event : Ambient → ActionKey → ToolEvent → ℕ → Action Gateway (Unit {0})
append_action_event w key event sequence = do
  appended ← on_invocations (append_event key event (pos sequence))
  when appended (
      queue_dora_events key (w.monotonic 1)
      >> when (is_terminal_event event.type) (look_up_result w key (w.monotonic 2)))

unfoldable pub event_of_item :
    Ambient
    → ToolProviderRouteIdentity
    → ToolEnvelope
    → ToolEvent
    → ActionKey
    → ActionInvocation
    → Action Gateway (Unit {0})
event_of_item w route envelope event key item = do
  when (not (is_pinned_event route envelope key.1 item)) (raise value_error)
  choose envelope.sequence (raise assertion_error) (append_action_event w key event)

unfoldable pub event_at :
    Ambient
    → ToolProviderRouteIdentity
    → ToolEnvelope
    → ToolEvent
    → ActionKey
    → Action Gateway (Unit {0})
event_at w route envelope event key = do
  item ← on_invocations (get key (w.monotonic 0))
  choose item (pure tt) (event_of_item w route envelope event key)

-- `_handle_action_event_locked`, of an envelope with this event.
unfoldable pub handle_action_event :
    Ambient → ToolProviderRouteIdentity → ToolEnvelope → ToolEvent → Action Gateway (Unit {0})
handle_action_event w route envelope event =
    choose envelope.invocation_id (raise assertion_error) (λ invocation_id.
      choose envelope.attempt_id (raise assertion_error)
        (λ attempt_id. event_at w route envelope event (invocation_id, attempt_id)))

-- `next((r for r in registrations if r.endpoint_id == endpoint_id), None)`
unfoldable pub find_registration : String → List RegisteredEndpoint → Option RegisteredEndpoint
find_registration endpoint_id [] = none
find_registration endpoint_id (r ∷ rs) =
    if endpoint_id_of r == endpoint_id then some r else find_registration endpoint_id rs

unfoldable pub put_status : ActionKey → EndpointStatus → Gateway → Gateway
put_status key status g = record g { endpoint_statuses = insert key status g.endpoint_statuses }

abbrev pub is_current_instance :
    ToolProviderRouteIdentity → ToolEnvelope → RegisteredEndpoint → Bool
is_current_instance route envelope current =
    envelope.endpoint_id == route.endpoint_id
    && option_beq envelope.endpoint_instance_id (some current.endpoint_instance_id)

unfoldable pub status_of_current :
    ToolProviderRouteIdentity
    → ToolEnvelope
    → EndpointStatus
    → RegisteredEndpoint
    → Action Gateway (Unit {0})
status_of_current route envelope status current = do
  when (not (is_current_instance route envelope current)) (raise value_error)
  modify (put_status (route.endpoint_id, current.endpoint_instance_id) status)

-- `_handle_endpoint_status_locked`, of an envelope with this status.
unfoldable pub handle_endpoint_status :
    Ambient
    → ToolProviderRouteIdentity
    → ToolEnvelope
    → EndpointStatus
    → ℕ
    → Action Gateway (Unit {0})
handle_endpoint_status w route envelope status at = do
  expired ← on_directory (expire at)
  finish_unclaimed_for_removed w expired at
  seen ← on_directory (snapshot at)
  choose (find_registration route.endpoint_id seen.registrations) (pure tt)
      (status_of_current route envelope status)

unfoldable pub endpoint_readiness : String → String → Gateway → Option EndpointStatus
endpoint_readiness endpoint_id instance_id g = lookup (endpoint_id, instance_id) g.endpoint_statuses
