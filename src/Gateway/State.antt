-- ===== src/Gateway/State.antt =====
-- The state of `ToolGatewayService` in src/forge_gateway/services/tool_gateway_service.py and its
-- outbound mailbox. Times are exact natural numbers of milliseconds. A method runs under the
-- service's lock, so it is one step. A future is a number, and `settled` holds the futures' results.
use adapter_forge_gateway.Prelude.{
  ℕ, ◌+◌, ◌-◌, String, Bool, not, ◌||◌, Option, none, List, [], ◌∷◌, ◌++◌, length, ltb, nat_eq,
  string_eq, if◌then◌else◌,
}
use adapter_forge_gateway.Prelude.Int.{ℤ}
use adapter_forge_gateway.Raise.{
  Exception, ok, err, gateway_unavailable, mailbox_full, runtime_error, Action,
}
use adapter_forge_gateway.Raise.Method.{on_part, lift, gets, when, raise, ◌>>◌, ◌>>=◌}
use adapter_forge_gateway.Dict.{Dict, insert}
use adapter_forge_gateway.Endpoint.Json.{end}
use adapter_forge_gateway.Endpoint.Values.{ToolError}
use adapter_forge_gateway.Endpoint.Responses.{ToolControlCommand, EndpointStatus}
use adapter_forge_gateway.Invocations.Item.{ActionKey}
use adapter_forge_gateway.Invocations.Store.{ActionInvocationStore}
use adapter_forge_gateway.Directory.State.{ToolProviderRouteIdentity, EndpointDirectory}
use adapter_forge_gateway.Catalog.{ToolSpec, ToolSpecCatalog}
use adapter_forge_gateway.Gateway.Envelope.{ToolEnvelope, CorrelationKey, logical_error_response}

pub data OutboundKind : Type 0 where
  registry_response provider_invoke_request caller_invoke_response : OutboundKind
  provider_action_request caller_action_response : OutboundKind

pub record OutboundMessage : Type 0 where
  pub output_id : String
  pub envelope : ToolEnvelope
  pub kind : OutboundKind
  pub pending_key : Option CorrelationKey
  pub pending_token : Option String

pub record PendingInvocation : Type 0 where
  pub logical_request : ToolEnvelope
  pub provider_request : ToolEnvelope
  pub route : ToolProviderRouteIdentity
  pub logical_key : CorrelationKey
  pub provider_key : CorrelationKey
  pub pending_token : String
  pub deadline : ℕ
  pub future : Option ℕ
  pub terminal_slot_reserved : Bool
  pub dispatch_claimed : Bool

-- The values of `purpose`.
pub data Purpose : Type 0 where
  invoke status result cancel stop : Purpose
  control : ToolControlCommand → Purpose

pub record ActionExchange : Type 0 where
  pub execution_key : ActionKey
  pub provider_request : ToolEnvelope
  pub route : ToolProviderRouteIdentity
  pub provider_key : CorrelationKey
  pub purpose : Purpose
  pub deadline : ℕ
  pub logical_request : Option ToolEnvelope
  pub caller_response_reserved : Bool
  pub dispatch_claimed : Bool

pub record Gateway : Type 0 where
  pub enabled : Bool
  pub invoke_timeout_ms : ℕ
  pub request_input_id : String
  pub response_output_id : String
  pub outbound_capacity : ℕ
  pub routes_by_endpoint_id : Dict String ToolProviderRouteIdentity
  pub routes_by_input_id : Dict String ToolProviderRouteIdentity
  pub catalog : ToolSpecCatalog
  pub accepting : Bool
  pub directory : EndpointDirectory
  pub outbound : List OutboundMessage
  pub reserved_outbound_slots : ℕ
  pub pending_by_provider_key : Dict CorrelationKey PendingInvocation
  pub pending_logical_keys : List CorrelationKey
  pub action_invocations : ActionInvocationStore
  pub action_exchanges : Dict CorrelationKey ActionExchange
  pub endpoint_statuses : Dict ActionKey EndpointStatus
  pub dora_action_event_cursors : Dict ActionKey ℤ
  pub settled : Dict ℕ ToolEnvelope

-- What a method reads from outside: the clocks, the monotonic one by the number of the reading, fresh
-- identifiers, and the text of an exception and of a quoted string.
pub record Ambient : Type 0 where
  pub monotonic : ℕ → ℕ
  pub epoch_ms : ℕ
  pub identity : String
  pub provider_identity : String
  pub pending_token : String
  pub text_of : Exception → String
  pub quote : String → String

-- The configuration, its providers by their routes. The retention is in the unit of the clock.
pub record ToolGatewayConfig : Type 0 where
  pub enabled : Bool
  pub invoke_timeout_ms : ℕ
  pub request_input_id : String
  pub response_output_id : String
  pub providers : List ToolProviderRouteIdentity
  pub specs : List ToolSpec
  pub lease_ttl_ms : ℕ
  pub invocation_capacity : ℕ
  pub event_capacity : ℕ
  pub retention : ℕ

abbrev pub by_endpoint_id :
    List ToolProviderRouteIdentity
    → Dict String ToolProviderRouteIdentity
    → Dict String ToolProviderRouteIdentity
by_endpoint_id [] d = d
by_endpoint_id (route ∷ routes) d = by_endpoint_id routes (insert route.endpoint_id route d)

abbrev pub by_input_id :
    List ToolProviderRouteIdentity
    → Dict String ToolProviderRouteIdentity
    → Dict String ToolProviderRouteIdentity
by_input_id [] d = d
by_input_id (route ∷ routes) d = by_input_id routes (insert route.input_id route d)

-- The fields that `__init__` sets, on the three components it has made.
unfoldable pub started :
    ToolGatewayConfig → ℕ → EndpointDirectory → ToolSpecCatalog → ActionInvocationStore → Gateway
started config outbound_capacity directory catalog store =
    let routes = if config.enabled then config.providers else [] in
    record {
      enabled = config.enabled;
      invoke_timeout_ms = config.invoke_timeout_ms;
      request_input_id = config.request_input_id;
      response_output_id = config.response_output_id;
      outbound_capacity = outbound_capacity;
      routes_by_endpoint_id = by_endpoint_id routes [];
      routes_by_input_id = by_input_id routes [];
      catalog = catalog;
      accepting = config.enabled;
      directory = directory;
      outbound = [];
      reserved_outbound_slots = 0;
      pending_by_provider_key = [];
      pending_logical_keys = [];
      action_invocations = store;
      action_exchanges = [];
      endpoint_statuses = [];
      dora_action_event_cursors = [];
      settled = [];
    }

-- A method of the directory, and one of the store, as a method of the service.
unfoldable pub on_directory : {A : Type 0} → Action EndpointDirectory A → Action Gateway A
on_directory m = on_part (λ g. g.directory) (λ g d. record g { directory = d }) m

unfoldable pub on_invocations : {A : Type 0} → Action ActionInvocationStore A → Action Gateway A
on_invocations m =
    on_part (λ g. g.action_invocations) (λ g s. record g { action_invocations = s }) m

-- `_reserve_outbound_slots_locked`
unfoldable pub reserve_outbound_slots : ℕ → Action Gateway (Unit {0})
reserve_outbound_slots count g =
    let occupied = length g.outbound + g.reserved_outbound_slots in
    if ltb g.outbound_capacity (occupied + count)
    then (err mailbox_full, g)
    else (ok tt, record g { reserved_outbound_slots = g.reserved_outbound_slots + count })

-- `_release_outbound_slots_locked`
unfoldable pub release_outbound_slots : ℕ → Action Gateway (Unit {0})
release_outbound_slots count g =
    if ltb count 1 || ltb g.reserved_outbound_slots count
    then (err runtime_error, g)
    else (ok tt, record g { reserved_outbound_slots = g.reserved_outbound_slots - count })

-- `_append_reserved_outbound_locked`
unfoldable pub append_reserved_outbound : OutboundMessage → Action Gateway (Unit {0})
append_reserved_outbound message g =
    if ltb g.reserved_outbound_slots 1 then (err runtime_error, g) else (
      ok tt,
      record g {
        reserved_outbound_slots = g.reserved_outbound_slots - 1;
        outbound = g.outbound ++ message ∷ [];
      },
    )

-- `_ensure_accepting_locked`
unfoldable pub ensure_accepting : Action Gateway (Unit {0})
ensure_accepting = do
  enabled ← gets (λ g. g.enabled)
  when (not enabled) (raise gateway_unavailable)
  accepting ← gets (λ g. g.accepting)
  when (not accepting) (raise gateway_unavailable)

-- `_tool_error`
abbrev pub make_error : String → String → Bool → ToolError
make_error code message retryable = record {
  code = code;
  message = message;
  retryable = retryable;
  details = end;
}

-- A response to the Dora caller, on the public output.
unfoldable pub caller_message : OutboundKind → ToolEnvelope → Gateway → OutboundMessage
caller_message kind envelope g = record {
  output_id = g.response_output_id;
  envelope = envelope;
  kind = kind;
  pending_key = none;
  pending_token = none;
}

unfoldable pub append_to_caller : OutboundKind → ToolEnvelope → Action Gateway (Unit {0})
append_to_caller kind envelope =
    gets (caller_message kind envelope) >>= λ message. append_reserved_outbound message

-- `_logical_error_response` on its way to the caller.
unfoldable pub respond : OutboundKind → ToolError → ToolEnvelope → Action Gateway (Unit {0})
respond kind error request =
    lift (logical_error_response error request) >>= λ response. append_to_caller kind response
