-- ===== src/Gateway/HttpQueries.antt =====
-- The HTTP entry of a Query in `ToolGatewayService` of
-- src/forge_gateway/services/tool_gateway_service.py, and the response that ends it:
-- `submit_http_invoke` and `_handle_provider_response_locked`.
use adapter_forge_gateway.Prelude.{
  ℕ, ◌+◌, String, Bool, true, false, not, ◌||◌, Option, none, some, string_eq,
}
use adapter_forge_gateway.Raise.{
  Exception, value_error, mailbox_full, gateway_unavailable, Result, Action,
}
use adapter_forge_gateway.Raise.Method.{
  pure, raise, lift, gets, ◌>>=◌, ◌>>◌, choose, when, try_except,
}
use adapter_forge_gateway.Dict.{lookup}
use adapter_forge_gateway.Endpoint.Json.{Fields, end}
use adapter_forge_gateway.Endpoint.Checks.{mapping_copy}
use adapter_forge_gateway.Endpoint.Responses.{ToolContext, check_context}
use adapter_forge_gateway.Handler.State.{InvokeOutcome}
use adapter_forge_gateway.Directory.State.{ToolProviderRouteIdentity, route_beq}
use adapter_forge_gateway.Directory.Manage.{is_blank}
use adapter_forge_gateway.Gateway.Envelope.{
  Payload, ToolEnvelope, CorrelationKey, correlation_eq, correlation_key, logical_error_response,
  logical_provider_response, validate_correlation,
}
use adapter_forge_gateway.Gateway.State.{PendingInvocation, Gateway, Ambient, make_error}
use adapter_forge_gateway.Gateway.Finish.{complete_without_pending, finish_pending}
use adapter_forge_gateway.Gateway.Actions.{check_timeout, absolute_deadline, gateway_identity}
use adapter_forge_gateway.Gateway.Endings.{Ticket}
use adapter_forge_gateway.Gateway.Queries.{admit_invoke}

abbrev pub is_blank_text : Option String → Bool
is_blank_text none = false
is_blank_text (some value) = is_blank value

-- The caller's request of an HTTP Query, and its context.
unfoldable pub http_context : Ambient → String → String → Option String → ℕ → ToolContext
http_context w endpoint_id operation caller_id timeout = record {
  execution_key = (gateway_identity w, gateway_identity w);
  tool_id = endpoint_id;
  implementation_id = endpoint_id;
  endpoint_id = endpoint_id;
  operation = operation;
  caller_id = caller_id;
  deadline_ms = some (absolute_deadline w timeout);
  metadata = end;
}

-- `make_logical_invoke_request_envelope`
unfoldable pub logical_invoke_request : Fields → ToolContext → String → ToolEnvelope
logical_invoke_request arguments context request_id = record {
  request_id = some request_id;
  invocation_id = some context.execution_key.0;
  attempt_id = some context.execution_key.1;
  endpoint_id = context.endpoint_id;
  endpoint_instance_id = none;
  operation = some context.operation;
  sequence = none;
  payload = Payload.invoke_request context arguments;
}

-- `except ToolGatewayUnavailable`, of which a full mailbox is one.
abbrev pub unavailable :
    Ambient → ToolEnvelope → ℕ → Exception → Action Gateway (Option CorrelationKey)
unavailable w request future gateway_unavailable =
    complete_without_pending request
      (make_error "FORGE_TOOL_GATEWAY_UNAVAILABLE" (w.text_of gateway_unavailable) true)
      (some future) false
    >> pure none
unavailable w request future mailbox_full =
    complete_without_pending request
      (make_error "FORGE_TOOL_GATEWAY_UNAVAILABLE" (w.text_of mailbox_full) true) (some future)
      false
    >> pure none
unavailable w request future x = raise x

-- `submit_http_invoke`, with the number of its new future.
unfoldable pub submit_http_invoke :
    Ambient → ℕ → String → String → Fields → Option String → Option ℕ → ℕ → Action Gateway Ticket
submit_http_invoke w future endpoint_id operation arguments caller_id timeout_ms now = do
  when (is_blank endpoint_id || is_blank operation || is_blank_text caller_id) (raise value_error)
  timeout ← check_timeout timeout_ms
  context ← lift (check_context (http_context w endpoint_id operation caller_id timeout))
  copied ← lift (mapping_copy arguments)
  pending_key ←
      try_except
        (admit_invoke w (logical_invoke_request copied context (gateway_identity w)) now
          (now + timeout) (some future))
        (unavailable w (logical_invoke_request copied context (gateway_identity w)) future)
  pure (record {
    request = logical_invoke_request copied context (gateway_identity w);
    future = future;
    pending_key = pending_key;
    deadline = now + timeout;
  })

-- The response that the caller of a Query is sent for a provider's.
abbrev pub caller_response : ToolEnvelope → Payload → ToolEnvelope → Result ToolEnvelope
caller_response response (Payload.invoke_response (InvokeOutcome.accepted details)) request =
    logical_error_response
      (make_error "FORGE_TOOL_QUERY_NON_TERMINAL_RESPONSE"
        "a Query provider must return a terminal invoke response" false)
      request
caller_response response payload request = logical_provider_response response request

unfoldable pub end_query :
    ToolProviderRouteIdentity
    → ToolEnvelope
    → ℕ
    → CorrelationKey
    → PendingInvocation
    → Action Gateway Bool
end_query route response processed_at key pending = do
  when (not (route_beq pending.route route)) (raise value_error)
  lift (validate_correlation pending.provider_request response)
  answer ← lift (caller_response response response.payload pending.logical_request)
  finish_pending key answer processed_at false

-- `_handle_provider_response_locked`
unfoldable pub handle_provider_response :
    ToolProviderRouteIdentity → ToolEnvelope → ℕ → Action Gateway Bool
handle_provider_response route response processed_at = do
  key ← lift (correlation_key response)
  held ← gets (λ g. lookup key g.pending_by_provider_key)
  choose held (pure false) (end_query route response processed_at key)
