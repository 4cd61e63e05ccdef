-- ===== src/Gateway/Answers.antt =====
-- What a provider reports to `ToolGatewayService` of src/forge_gateway/services/tool_gateway_service.py
-- of an Action: `_handle_action_response_locked`, `_queue_dora_events_locked` and the lookup at the
-- end of `_handle_action_event_locked`.
use adapter_forge_gateway.Prelude.{
  ℕ, String, Bool, true, false, not, Option, none, some, leb, string_eq, is_some,
}
use adapter_forge_gateway.Prelude.Int.{ℤ, pos}
use adapter_forge_gateway.Raise.{
  Exception, runtime_error, not_implemented, capacity_error, mailbox_unavailable,
  gateway_unavailable, mailbox_full, value_error, assertion_error, Action,
}
use adapter_forge_gateway.Raise.Method.{
  pure, raise, lift, gets, ◌>>=◌, ◌>>◌, choose, branch, modify, when, for_each, try_except,
}
use adapter_forge_gateway.Dict.{lookup, insert, erase}
use adapter_forge_gateway.Endpoint.Values.{
  ToolError, ToolResult, ToolResultStatus, ExecutionPhase, ToolExecutionStatus,
}
use adapter_forge_gateway.Endpoint.Responses.{
  ToolControlCommand, ToolControlStatus, ResultResponseStatus,
}
use adapter_forge_gateway.Handler.State.{InvokeOutcome}
use adapter_forge_gateway.Invocations.Item.{
  ActionPhase, ActionKey, key_eq, ActionInvocation, ActionInvocationEvent, is_terminal,
}
use adapter_forge_gateway.Invocations.Store.{
  get, establish_accepted, set_phase, set_terminal_status_hint, set_observation_error,
  set_cancel_status, set_stop_status,
}
use adapter_forge_gateway.Invocations.Observe.{events_after}
use adapter_forge_gateway.Directory.State.{ToolProviderRouteIdentity, route_beq}
use adapter_forge_gateway.Gateway.Envelope.{
  Payload, ToolEnvelope, CorrelationKey, correlation_eq, correlation_key, logical_provider_response,
  validate_correlation,
}
use adapter_forge_gateway.Gateway.State.{
  OutboundKind, Purpose, ActionExchange, Gateway, Ambient, on_invocations, reserve_outbound_slots,
  append_to_caller, make_error,
}
use adapter_forge_gateway.Gateway.Finish.{
  delete_exchange, result_of, finish_action_exchange_error, is_claimed_invoke,
}
use adapter_forge_gateway.Gateway.Exchanges.{Lookup, refresh_action_key}
use adapter_forge_gateway.Gateway.Endings.{exchange_timeout}

-- `isinstance(error, RuntimeError)`
abbrev pub is_runtime_error : Exception → Bool
is_runtime_error runtime_error = true
is_runtime_error not_implemented = true
is_runtime_error capacity_error = true
is_runtime_error mailbox_unavailable = true
is_runtime_error gateway_unavailable = true
is_runtime_error mailbox_full = true
is_runtime_error _ = false

-- `_phase_for_result`
abbrev pub phase_for_result : ToolResultStatus → ActionPhase
phase_for_result ToolResultStatus.succeeded = ActionPhase.completed
phase_for_result ToolResultStatus.failed = ActionPhase.failed
phase_for_result ToolResultStatus.cancelled = ActionPhase.cancelled
phase_for_result ToolResultStatus.stopped = ActionPhase.stopped
phase_for_result ToolResultStatus.unknown = ActionPhase.unknown

-- The phases of a provider are phases of the gateway, by the same texts.
abbrev pub phase_of : ExecutionPhase → ActionPhase
phase_of ExecutionPhase.accepted = ActionPhase.accepted
phase_of ExecutionPhase.running = ActionPhase.running
phase_of ExecutionPhase.stopping = ActionPhase.stopping
phase_of ExecutionPhase.completed = ActionPhase.completed
phase_of ExecutionPhase.failed = ActionPhase.failed
phase_of ExecutionPhase.cancelled = ActionPhase.cancelled
phase_of ExecutionPhase.stopped = ActionPhase.stopped
phase_of ExecutionPhase.unknown = ActionPhase.unknown

abbrev pub control_status_text : ToolControlStatus → String
control_status_text ToolControlStatus.accepted = "accepted"
control_status_text ToolControlStatus.rejected = "rejected"
control_status_text ToolControlStatus.terminal = "terminal"
control_status_text ToolControlStatus.unsupported = "unsupported"

-- `except RuntimeError as error` around a result lookup.
unfoldable pub lookup_failed : Ambient → ActionKey → Exception → Action Gateway (Unit {0})
lookup_failed w key x = branch (not (is_runtime_error x)) (raise x) (
    on_invocations (
      set_observation_error key
        (make_error "FORGE_TOOL_RESULT_LOOKUP_UNAVAILABLE" (w.text_of x) true))
    >> pure tt)

unfoldable pub look_up_result : Ambient → ActionKey → ℕ → Action Gateway (Unit {0})
look_up_result w key at =
    try_except (refresh_action_key w key Lookup.result at none false >> pure tt)
      (lookup_failed w key)

unfoldable pub close_action : ActionKey → ToolResult → ℕ → Action Gateway (Unit {0})
close_action key result at =
    on_invocations
      (set_phase key (phase_for_result result.status) at (some result) result.error true)
    >> pure tt

-- A `tool.error`, by the purpose of its exchange.
unfoldable pub record_error : ActionKey → Purpose → ToolError → ℕ → Action Gateway (Unit {0})
record_error key Purpose.invoke error at =
    on_invocations (
      set_phase key ActionPhase.unknown at (some (result_of ToolResultStatus.unknown error))
        (some error) false)
    >> pure tt
record_error key (Purpose.control ToolControlCommand.cancel) error at =
    on_invocations (set_cancel_status key "transport_error")
    >> on_invocations (set_observation_error key error)
    >> pure tt
record_error key _ error at = on_invocations (set_observation_error key error) >> pure tt

unfoldable pub record_outcome : ActionKey → InvokeOutcome → ℕ → Action Gateway (Unit {0})
record_outcome key (InvokeOutcome.accepted _) at =
    on_invocations (establish_accepted key) >> pure tt
record_outcome key (InvokeOutcome.failed error) at =
    on_invocations (
      set_phase key ActionPhase.failed at (some (result_of ToolResultStatus.failed error))
        (some error) true)
    >> pure tt
record_outcome key (InvokeOutcome.finished result) at = close_action key result at

-- `item is not None and item.result is None`
abbrev pub lacks_result : Option ActionInvocation → Bool
lacks_result none = false
lacks_result (some item) = not (is_some item.result)

unfoldable pub record_status :
    Ambient → ActionKey → ToolExecutionStatus → ℕ → Action Gateway (Unit {0})
record_status w key status at =
    branch (is_terminal (phase_of status.phase))
      (do
        on_invocations (set_terminal_status_hint key (phase_of status.phase) status.error)
        item ← on_invocations (get key at)
        when (lacks_result item) (look_up_result w key at))
      (on_invocations (set_phase key (phase_of status.phase) at none status.error true) >> pure tt)

-- `item is not None and item.terminal_status_hint in TERMINAL_PHASES`
abbrev pub has_terminal_hint : Option ActionInvocation → Bool
has_terminal_hint none = false
has_terminal_hint (some item) = elim item.terminal_status_hint [
  | none ↦ false
  | some phase ↦ is_terminal phase
]

abbrev pub result_lost : ToolError
result_lost =
    make_error "FORGE_TOOL_EXECUTION_OUTCOME_UNKNOWN" "provider no longer retains the Action result"
      false

unfoldable pub record_result :
    ActionKey → ResultResponseStatus → Option ToolResult → ℕ → Action Gateway (Unit {0})
record_result key ResultResponseStatus.available none at = raise assertion_error
record_result key ResultResponseStatus.available (some result) at = close_action key result at
record_result key ResultResponseStatus.not_found _ at = do
  item ← on_invocations (get key at)
  on_invocations (
      set_phase key ActionPhase.unknown at (some (result_of ToolResultStatus.unknown result_lost))
        (some result_lost) (has_terminal_hint item))
  pure tt
record_result key ResultResponseStatus.pending _ at = pure tt

unfoldable pub record_control :
    ActionKey → ToolControlCommand → ToolControlStatus → Action Gateway (Unit {0})
record_control key ToolControlCommand.cancel status =
    on_invocations (set_cancel_status key (control_status_text status)) >> pure tt
record_control key ToolControlCommand.stop status =
    on_invocations (set_stop_status key (control_status_text status)) >> pure tt

-- What a provider's response does to its Action, by the message type.
unfoldable pub record_response :
    Ambient → ActionKey → Purpose → Payload → ℕ → Action Gateway (Unit {0})
record_response w key purpose (Payload.tool_error error) at = record_error key purpose error at
record_response w key purpose (Payload.invoke_response outcome) at = record_outcome key outcome at
record_response w key purpose (Payload.status_response status) at = record_status w key status at
record_response w key purpose (Payload.result_response response) at =
    record_result key response.status response.result at
record_response w key purpose (Payload.control_response control) at =
    record_control key control.command control.status
record_response w key purpose _ at = pure tt

-- The answer to the Dora caller of an exchange, if it has one.
unfoldable pub answer_caller : ActionExchange → ToolEnvelope → Action Gateway (Unit {0})
answer_caller exchange response = choose exchange.logical_request (pure tt) (λ request. do
  when (not exchange.caller_response_reserved) (raise runtime_error)
  answer ← lift (logical_provider_response response request)
  append_to_caller OutboundKind.caller_action_response answer)

-- A retained event, to the Dora caller.
unfoldable pub event_envelope : ActionInvocation → ActionInvocationEvent → ToolEnvelope
event_envelope item event = record {
  request_id = none;
  invocation_id = some item.invocation_id;
  attempt_id = some item.attempt_id;
  endpoint_id = item.endpoint_id;
  endpoint_instance_id = none;
  operation = some item.operation;
  sequence = some event.sequence;
  payload = Payload.tool_event (record { type = event.type; payload = event.payload });
}

unfoldable pub advance_cursor : ActionKey → ℤ → Gateway → Gateway
advance_cursor key cursor g = record g {
  dora_action_event_cursors = insert key cursor g.dora_action_event_cursors;
}

unfoldable pub drop_cursor : ActionKey → Gateway → Gateway
drop_cursor key g = record g { dora_action_event_cursors = erase key g.dora_action_event_cursors }

unfoldable pub queue_event :
    ActionKey → ActionInvocation → ActionInvocationEvent → Action Gateway (Unit {0})
queue_event key item event = do
  reserve_outbound_slots 1
  append_to_caller OutboundKind.caller_action_response (event_envelope item event)
  modify (advance_cursor key (pos event.sequence))

unfoldable pub queue_past : ActionKey → ℕ → ℤ → Action Gateway (Unit {0})
queue_past key now cursor = do
  events ← on_invocations (events_after key cursor now)
  choose events (modify (drop_cursor key)) (λ found. do
    item ← on_invocations (get key now)
    choose item (pure tt) (λ held. for_each found (queue_event key held)))

-- `_queue_dora_events_locked`
unfoldable pub queue_dora_events : ActionKey → ℕ → Action Gateway (Unit {0})
queue_dora_events key now = do
  cursor ← gets (λ g. lookup key g.dora_action_event_cursors)
  choose cursor (pure tt) (queue_past key now)

unfoldable pub settle_exchange :
    Ambient → CorrelationKey → ActionExchange → ToolEnvelope → ℕ → Action Gateway Bool
settle_exchange w key exchange response at = do
  modify (delete_exchange key)
  record_response w exchange.execution_key exchange.purpose response.payload at
  answer_caller exchange response
  queue_dora_events exchange.execution_key at
  pure true

unfoldable pub answer_exchange :
    Ambient
    → ToolProviderRouteIdentity
    → ToolEnvelope
    → ℕ
    → CorrelationKey
    → ActionExchange
    → Action Gateway Bool
answer_exchange w route response at key exchange = do
  when (not (route_beq exchange.route route)) (raise value_error)
  lift (validate_correlation exchange.provider_request response)
  branch (leb exchange.deadline at)
      (finish_action_exchange_error key exchange_timeout at is_claimed_invoke)
      (settle_exchange w key exchange response at)

-- `_handle_action_response_locked`
unfoldable pub handle_action_response :
    Ambient → ToolProviderRouteIdentity → ToolEnvelope → ℕ → Action Gateway Bool
handle_action_response w route response at = do
  key ← lift (correlation_key response)
  held ← gets (λ g. lookup key g.action_exchanges)
  choose held (pure false) (answer_exchange w route response at key)
