-- ===== src/Gateway/Exchanges.antt =====
-- How `ToolGatewayService` of src/forge_gateway/services/tool_gateway_service.py opens an exchange with
-- the provider of an Action: `_queue_action_exchange_locked` and `_refresh_action_key_locked`.
use adapter_forge_gateway.Prelude.{
  ℕ, ◌+◌, String, Bool, true, false, ◌&&◌, Option, none, some, [], ◌∷◌, leb, ◌==◌, length,
  string_eq, is_some, if◌then◌else◌,
}
use adapter_forge_gateway.Raise.{value_error, key_error, mailbox_full, Action}
use adapter_forge_gateway.Raise.Method.{
  pure, raise, lift, gets, ◌>>=◌, ◌>>◌, choose, branch, modify, when, try_except,
}
use adapter_forge_gateway.Dict.{lookup, insert, count_values}
use adapter_forge_gateway.Invocations.Item.{ActionKey, key_eq, ActionInvocation}
use adapter_forge_gateway.Invocations.Store.{get, resolve_http_key}
use adapter_forge_gateway.Invocations.Observe.{mark_instance_ambiguous}
use adapter_forge_gateway.Directory.State.{ToolProviderRouteIdentity, RegisteredEndpoint, expire}
use adapter_forge_gateway.Directory.Manage.{resolve}
use adapter_forge_gateway.Gateway.Text.{text}
use adapter_forge_gateway.Gateway.Envelope.{
  Payload, ToolEnvelope, CorrelationKey, correlation_eq, correlation_key, command_beq,
}
use adapter_forge_gateway.Gateway.State.{
  OutboundKind, Purpose, ActionExchange, Gateway, Ambient, on_directory, on_invocations,
  reserve_outbound_slots, release_outbound_slots, append_reserved_outbound,
}
use adapter_forge_gateway.Gateway.Finish.{finish_unclaimed_for_removed}

unfoldable pub put_exchange : CorrelationKey → ActionExchange → Gateway → Gateway
put_exchange key exchange g = record g { action_exchanges = insert key exchange g.action_exchanges }

abbrev pub is_full : Gateway → Bool
is_full g = leb g.outbound_capacity (length g.action_exchanges)

abbrev pub is_held : CorrelationKey → Gateway → Bool
is_held key g = is_some (lookup key g.action_exchanges)

-- The end of `_queue_action_exchange_locked`, by the key of the request.
unfoldable pub queue_at : CorrelationKey → ActionExchange → Action Gateway (Unit {0})
queue_at key exchange = do
  full ← gets is_full
  when full (raise mailbox_full)
  held ← gets (is_held key)
  when held (raise value_error)
  modify (put_exchange key exchange)
  append_reserved_outbound (record {
    output_id = exchange.route.output_id;
    envelope = exchange.provider_request;
    kind = OutboundKind.provider_action_request;
    pending_key = some key;
    pending_token = none;
  })

-- `_queue_action_exchange_locked`
unfoldable pub queue_action_exchange :
    ActionKey
    → ToolEnvelope
    → ToolProviderRouteIdentity
    → Purpose
    → ℕ
    → Option ToolEnvelope
    → Bool
    → Action Gateway (Unit {0})
queue_action_exchange execution_key request route purpose deadline logical caller_reserved =
    lift (correlation_key request) >>= λ key. queue_at key (record {
      execution_key = execution_key;
      provider_request = request;
      route = route;
      provider_key = key;
      purpose = purpose;
      deadline = deadline;
      logical_request = logical;
      caller_response_reserved = caller_reserved;
      dispatch_claimed = false;
    })

-- `except BaseException: self._release_outbound_slots_locked(count); …; raise`
unfoldable pub or_release :
    {A : Type 0} → ℕ → Action Gateway A → Action Gateway (Unit {0}) → Action Gateway A
or_release count m undo = try_except m (λ x. release_outbound_slots count >> (undo >> raise x))

abbrev pub purpose_beq : Purpose → Purpose → Bool
purpose_beq Purpose.invoke Purpose.invoke = true
purpose_beq Purpose.status Purpose.status = true
purpose_beq Purpose.result Purpose.result = true
purpose_beq Purpose.cancel Purpose.cancel = true
purpose_beq Purpose.stop Purpose.stop = true
purpose_beq (Purpose.control a) (Purpose.control b) = command_beq a b
purpose_beq _ _ = false

-- `exchange.execution_key == key and exchange.purpose == purpose`
abbrev pub is_exchange : ActionKey → Purpose → ActionExchange → Bool
is_exchange key purpose exchange =
    exchange.execution_key == key && purpose_beq exchange.purpose purpose

-- `any(… for exchange in self._action_exchanges.values())`
unfoldable pub is_pending : ActionKey → Purpose → Gateway → Bool
is_pending key purpose g = leb 1 (count_values (is_exchange key purpose) g.action_exchanges)

-- The current registration, if it is the instance that the Action is pinned to.
abbrev pub pinned : ActionInvocation → Option RegisteredEndpoint → Option RegisteredEndpoint
pinned item none = none
pinned item (some registration) =
    if registration.endpoint_instance_id == item.endpoint_instance_id
    then some registration
    else none

-- The expiry and the resolution of an Action's provider.
unfoldable pub resolve_pinned :
    Ambient → ActionInvocation → ℕ → Action Gateway (Option RegisteredEndpoint)
resolve_pinned w item now = do
  expired ← on_directory (expire now)
  finish_unclaimed_for_removed w expired now
  registration ← on_directory (resolve item.endpoint_id item.operation now)
  pure (pinned item registration)

unfoldable pub mark_unpinned : ActionInvocation → ℕ → Action Gateway (Unit {0})
mark_unpinned item now =
    on_invocations (
      mark_instance_ambiguous item.endpoint_id item.endpoint_instance_id now
        "pinned provider instance is no longer current")
    >> pure tt

-- `f"gateway-provider-{uuid.uuid4().hex}"`
abbrev pub provider_request_id : Ambient → String
provider_request_id w = text ("gateway-provider-" ∷ w.provider_identity ∷ [])

-- A request to the provider of an Action.
unfoldable pub provider_request : Ambient → ActionInvocation → Payload → ToolEnvelope
provider_request w item payload = record {
  request_id = some (provider_request_id w);
  invocation_id = some item.invocation_id;
  attempt_id = some item.attempt_id;
  endpoint_id = item.endpoint_id;
  endpoint_instance_id = some item.endpoint_instance_id;
  operation = some item.operation;
  sequence = none;
  payload = payload;
}

-- The two purposes of a refresh, and the payload of `tool.{purpose}.request`.
pub data Lookup : Type 0 where
  status result : Lookup

abbrev pub purpose_of : Lookup → Purpose
purpose_of Lookup.status = Purpose.status
purpose_of Lookup.result = Purpose.result

abbrev pub payload_of : Lookup → Payload
payload_of Lookup.status = Payload.status_request
payload_of Lookup.result = Payload.result_request

-- The reservation and the exchange of a refresh. The slot of a caller's response, when there is a
-- caller, is reserved with that of the request.
unfoldable pub refresh_at :
    Ambient
    → ActionKey
    → ActionInvocation
    → Lookup
    → ℕ
    → Option ToolEnvelope
    → Bool
    → RegisteredEndpoint
    → Action Gateway Bool
refresh_at w key item purpose now logical caller_reserved registration = do
  timeout ← gets (λ g. g.invoke_timeout_ms)
  reserve_outbound_slots (if caller_reserved then 2 else 1)
  or_release (if caller_reserved then 2 else 1)
      (queue_action_exchange key (provider_request w item (payload_of purpose)) registration.route
        (purpose_of purpose) (now + timeout) logical caller_reserved)
      (pure tt)
  pure true

unfoldable pub refresh_item :
    Ambient
    → ActionKey
    → Lookup
    → ℕ
    → Option ToolEnvelope
    → Bool
    → ActionInvocation
    → Action Gateway Bool
refresh_item w key purpose now logical caller_reserved item = do
  busy ← gets (is_pending key (purpose_of purpose))
  branch busy (pure false) (do
    registration ← resolve_pinned w item now
    choose registration (mark_unpinned item now >> pure false)
        (refresh_at w key item purpose now logical caller_reserved))

-- `_refresh_action_key_locked`
unfoldable pub refresh_action_key :
    Ambient → ActionKey → Lookup → ℕ → Option ToolEnvelope → Bool → Action Gateway Bool
refresh_action_key w key purpose now logical caller_reserved = do
  held ← on_invocations (get key now)
  choose held (raise key_error) (refresh_item w key purpose now logical caller_reserved)

unfoldable pub refresh_action : Ambient → String → Lookup → ℕ → Action Gateway Bool
refresh_action w invocation_id purpose now = do
  key ← on_invocations (resolve_http_key invocation_id now)
  choose key (raise key_error) (λ k. refresh_action_key w k purpose now none false)
