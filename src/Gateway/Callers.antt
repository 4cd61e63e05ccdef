-- ===== src/Gateway/Callers.antt =====
-- The Dora caller's status, result and control requests in `ToolGatewayService` of
-- src/forge_gateway/services/tool_gateway_service.py: `_handle_caller_action_request_locked`.
use adapter_forge_gateway.Prelude.{
  ◌+◌, String, Bool, true, false, not, ◌&&◌, Option, some, [], ◌∷◌, ◌==◌, string_eq, is_some,
}
use adapter_forge_gateway.Raise.{
  Exception, value_error, protocol_error, assertion_error, stop_iteration, Action,
}
use adapter_forge_gateway.Raise.Method.{
  pure, raise, gets, ◌>>=◌, ◌>>◌, choose, branch, modify, when, try_else,
}
use adapter_forge_gateway.Endpoint.Values.{ToolError}
use adapter_forge_gateway.Endpoint.Responses.{ToolControlCommand}
use adapter_forge_gateway.Invocations.Item.{ActionKey, ActionInvocation}
use adapter_forge_gateway.Invocations.Store.{get}
use adapter_forge_gateway.Directory.State.{RegisteredEndpoint}
use adapter_forge_gateway.Catalog.{find_operation}
use adapter_forge_gateway.Gateway.Text.{text}
use adapter_forge_gateway.Gateway.Envelope.{Payload, ToolEnvelope, option_beq}
use adapter_forge_gateway.Gateway.State.{
  OutboundKind, Purpose, Gateway, Ambient, on_invocations, reserve_outbound_slots, respond,
  make_error,
}
use adapter_forge_gateway.Gateway.Exchanges.{
  queue_action_exchange, is_pending, resolve_pinned, mark_unpinned, provider_request, Lookup,
  purpose_of, refresh_action_key,
}
use adapter_forge_gateway.Gateway.Controls.{supports, set_status}
use adapter_forge_gateway.Gateway.Locals.{
  Locals, inside, with_locals, set_provider, reserve_provider,
}
use adapter_forge_gateway.Gateway.Answers.{is_runtime_error}
use adapter_forge_gateway.Gateway.Dora.{or_answer}

-- `_respond_logical_action_error_locked`
unfoldable pub respond_error : ToolEnvelope → ToolError → Action Gateway (Unit {0})
respond_error request error =
    reserve_outbound_slots 1 >> respond OutboundKind.caller_action_response error request

-- `isinstance(error, (RuntimeError, ValueError))`
abbrev pub is_expected : Exception → Bool
is_expected value_error = true
is_expected (protocol_error _) = true
is_expected x = is_runtime_error x

abbrev pub lookup_text : Lookup → String
lookup_text Lookup.status = "status"
lookup_text Lookup.result = "result"

abbrev pub command_text : ToolControlCommand → String
command_text ToolControlCommand.cancel = "cancel"
command_text ToolControlCommand.stop = "stop"

abbrev pub not_retained : ToolError
not_retained =
    make_error "FORGE_TOOL_ACTION_NOT_FOUND" "Action ToolExecutionKey is not retained" false

abbrev pub other_action : ToolError
other_action =
    make_error "FORGE_TOOL_REQUEST_CONFLICT" "public request does not match the retained Action"
      false

abbrev pub unpinned_error : ToolError
unpinned_error =
    make_error "FORGE_TOOL_EXECUTION_OUTCOME_UNKNOWN"
      "pinned provider instance is no longer current" false

module _ (w : Ambient) (request : ToolEnvelope) (k : ActionKey) where
  abbrev pub lookup_busy : Lookup → ToolError
  lookup_busy purpose =
      make_error "FORGE_TOOL_GATEWAY_BUSY"
        (text ("an Action " ∷ lookup_text purpose ∷ " lookup is already pending" ∷ [])) true

  -- `except (RuntimeError, ValueError)` around the refresh.
  unfoldable pub lookup_unavailable : Exception → Action Gateway (Unit {0})
  lookup_unavailable x =
      branch (is_expected x)
        (respond_error request (make_error "FORGE_TOOL_GATEWAY_UNAVAILABLE" (w.text_of x) true))
        (raise x)

  unfoldable pub look_up_for_caller : Lookup → Action Gateway (Unit {0})
  look_up_for_caller purpose = do
    busy ← gets (is_pending k (purpose_of purpose))
    branch busy (respond_error request (lookup_busy purpose)) (
        try_else (refresh_action_key w k purpose (w.monotonic 0) (some request) true)
          lookup_unavailable (λ queued. when (not queued) (respond_error request unpinned_error)))

  abbrev pub control_busy : ToolControlCommand → ToolError
  control_busy command =
      make_error "FORGE_TOOL_GATEWAY_BUSY"
        (text ("an Action or Session " ∷ command_text command ∷ " request is already pending" ∷ []))
        true

  abbrev pub unsupported : ToolControlCommand → ToolError
  unsupported command =
      make_error "FORGE_TOOL_CONTROL_UNSUPPORTED"
        (text ("operation does not support " ∷ command_text command ∷ [])) false

  abbrev pub control_refused : Exception → ToolError
  control_refused x = make_error "FORGE_TOOL_GATEWAY_BUSY" (w.text_of x) true

  -- The `try` of a control request.
  unfoldable pub queue_control :
      ToolControlCommand
      → Option String
      → ActionInvocation
      → RegisteredEndpoint
      → Action Locals (Unit {0})
  queue_control command reason item registration = do
    reserve_provider
    inside (set_status command k "requested")
    timeout ← inside (gets (λ g. g.invoke_timeout_ms))
    inside (
        queue_action_exchange k (provider_request w item (Payload.control_request command reason))
          registration.route (Purpose.control command) (w.monotonic 0 + timeout) (some request)
          true)
    modify (set_provider false)

  unfoldable pub forward_control :
      ToolControlCommand
      → Option String
      → ActionInvocation
      → RegisteredEndpoint
      → Action Gateway (Unit {0})
  forward_control command reason item registration =
      reserve_outbound_slots 1
      >> with_locals false (
          or_answer is_expected (inside (set_status command k "transport_error")) (pure tt)
            control_refused request (queue_control command reason item registration))

  unfoldable pub control_registered :
      ToolControlCommand
      → Option String
      → ActionInvocation
      → RegisteredEndpoint
      → Action Gateway (Unit {0})
  control_registered command reason item registration =
      choose (find_operation item.operation registration.descriptor.operations)
        (raise stop_iteration)
        (λ operation.
          branch (not (supports command operation)) (respond_error request (unsupported command))
            (do
              busy ← gets (is_pending k (Purpose.control command))
              branch busy (respond_error request (control_busy command))
                  (forward_control command reason item registration)))

  unfoldable pub control_for_caller :
      ToolControlCommand → Option String → ActionInvocation → Action Gateway (Unit {0})
  control_for_caller command reason item = do
    registration ← resolve_pinned w item (w.monotonic 0)
    choose registration (mark_unpinned item (w.monotonic 0) >> respond_error request unpinned_error)
        (control_registered command reason item)

  -- By the message type, which is one of the three.
  unfoldable pub request_of_item : ActionInvocation → Payload → Action Gateway (Unit {0})
  request_of_item item Payload.status_request = look_up_for_caller Lookup.status
  request_of_item item Payload.result_request = look_up_for_caller Lookup.result
  request_of_item item (Payload.control_request command reason) =
      control_for_caller command reason item
  request_of_item item _ = raise value_error

  unfoldable pub request_of_held : ActionInvocation → Action Gateway (Unit {0})
  request_of_held item =
      branch
        (not (
          request.endpoint_id == item.endpoint_id
          && option_beq request.operation (some item.operation)))
        (respond_error request other_action) (request_of_item item request.payload)

  unfoldable pub request_at : Action Gateway (Unit {0})
  request_at = do
    item ← on_invocations (get k (w.monotonic 0))
    choose item (respond_error request not_retained) request_of_held

-- `_handle_caller_action_request_locked`
unfoldable pub handle_caller_action_request : Ambient → ToolEnvelope → Action Gateway (Unit {0})
handle_caller_action_request w request = do
  when (is_some request.endpoint_instance_id) (raise value_error)
  choose request.invocation_id (raise assertion_error) (λ invocation_id.
      choose request.attempt_id (raise assertion_error)
        (λ attempt_id. request_at w request (invocation_id, attempt_id)))
