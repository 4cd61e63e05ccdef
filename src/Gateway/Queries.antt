-- ===== src/Gateway/Queries.antt =====
-- The admission of a Query in `ToolGatewayService` of
-- src/forge_gateway/services/tool_gateway_service.py: `_admit_invoke_locked`.
use adapter_forge_gateway.Prelude.{
  ℕ, String, Bool, true, false, not, Option, none, some, [], ◌∷◌, leb, length, string_eq, is_some,
}
use adapter_forge_gateway.Raise.{
  Exception, value_error, mailbox_full, operation_not_found, protocol_error, Result, ok, err,
  Action,
}
use adapter_forge_gateway.Raise.Method.{
  pure, raise, lift, gets, ◌>>=◌, ◌>>◌, choose, branch, modify, when, try_else, try_finally,
}
use adapter_forge_gateway.Dict.{lookup, insert, elem}
use adapter_forge_gateway.Endpoint.Json.{Fields}
use adapter_forge_gateway.Endpoint.Values.{ToolError}
use adapter_forge_gateway.Endpoint.Responses.{ToolContext}
use adapter_forge_gateway.Directory.State.{ToolProviderRouteIdentity, RegisteredEndpoint, expire}
use adapter_forge_gateway.Directory.Manage.{resolve}
use adapter_forge_gateway.Gateway.Text.{text}
use adapter_forge_gateway.Gateway.Envelope.{
  Payload, ToolEnvelope, CorrelationKey, correlation_eq, correlation_key,
}
use adapter_forge_gateway.Gateway.State.{
  OutboundKind, PendingInvocation, Gateway, Ambient, on_directory, reserve_outbound_slots,
  append_reserved_outbound, ensure_accepting, make_error,
}
use adapter_forge_gateway.Gateway.Finish.{complete_without_pending, finish_unclaimed_for_removed}
use adapter_forge_gateway.Gateway.Actions.{invoke_request_envelope}
use adapter_forge_gateway.Gateway.Locals.{
  Locals, inside, with_locals, set_terminal, set_provider, reserve_provider, release_provider,
  release_terminal_slot, terminal_flag,
}

-- `complete`, the closure of `_admit_invoke_locked`.
unfoldable pub complete : ToolEnvelope → Option ℕ → ToolError → Action Locals (Unit {0})
complete logical_request future error = do
  release_provider
  terminal ← gets terminal_flag
  inside (complete_without_pending logical_request error future terminal)
  modify (set_terminal false)

-- `complete(error); return None`
unfoldable pub refuse : ToolEnvelope → Option ℕ → ToolError → Action Locals (Option CorrelationKey)
refuse logical_request future error = complete logical_request future error >> pure none

-- `invoke_request_from_envelope` of src/forge_tool/wire/messages.py, on the two IDs that may be missing
-- and the payload: the context takes the identity of its envelope.
abbrev pub invoke_from :
    String → Option String → Option String → Option String → Payload → Result (Fields × ToolContext)
invoke_from endpoint_id (some invocation_id) (some attempt_id) (some operation)
      (Payload.invoke_request context arguments) =
    ok (
      arguments,
      record context {
        execution_key = (invocation_id, attempt_id);
        endpoint_id = endpoint_id;
        operation = operation;
      },
    )
invoke_from endpoint_id _ _ _ (Payload.invoke_request context arguments) =
    err (protocol_error "FORGE_PROTOCOL_INVALID_MESSAGE")
invoke_from endpoint_id _ _ _ _ = err value_error

unfoldable pub invoke_request_from_envelope : ToolEnvelope → Result (Fields × ToolContext)
invoke_request_from_envelope e =
    invoke_from e.endpoint_id e.invocation_id e.attempt_id e.operation e.payload

unfoldable pub put_pending : CorrelationKey → PendingInvocation → Gateway → Gateway
put_pending key pending g = record g {
  pending_by_provider_key = insert key pending g.pending_by_provider_key;
  pending_logical_keys = pending.logical_key ∷ g.pending_logical_keys;
}

-- The end of `_admit_invoke_locked`: the provider's request takes the provider slot, and the terminal
-- slot becomes the pending invocation's.
unfoldable pub commit : CorrelationKey → PendingInvocation → Action Locals (Option CorrelationKey)
commit key pending = do
  terminal ← gets terminal_flag
  inside (
      append_reserved_outbound (record {
        output_id = pending.route.output_id;
        envelope = pending.provider_request;
        kind = OutboundKind.provider_invoke_request;
        pending_key = some key;
        pending_token = some pending.pending_token;
      }))
  modify (set_provider false)
  inside (modify (put_pending key (record pending { terminal_slot_reserved = terminal })))
  modify (set_terminal false)
  pure (some key)

abbrev pub is_pending_full : Gateway → Bool
is_pending_full g = leb g.outbound_capacity (length g.pending_by_provider_key)

abbrev pub is_logical : CorrelationKey → Gateway → Bool
is_logical key g = elem key g.pending_logical_keys

abbrev pub is_provider_held : CorrelationKey → Gateway → Bool
is_provider_held key g = is_some (lookup key g.pending_by_provider_key)

module _ (w : Ambient) (logical_request : ToolEnvelope) (processed_at deadline : ℕ)
    (future : Option ℕ) where
  abbrev pub turn_down : ToolError → Action Locals (Option CorrelationKey)
  turn_down error = refuse logical_request future error

  -- Two requests of one identity conflict.
  unfoldable pub admit_keys :
      ToolProviderRouteIdentity
      → ToolEnvelope
      → CorrelationKey
      → CorrelationKey
      → Action Locals (Option CorrelationKey)
  admit_keys route request logical_key provider_key = do
    repeated ← inside (gets (is_logical logical_key))
    branch repeated
        (turn_down (
          make_error "FORGE_TOOL_REQUEST_CONFLICT"
            "an invocation with the same correlation identity is pending" false))
        (do
          held ← inside (gets (is_provider_held provider_key))
          branch held
              (turn_down (
                make_error "FORGE_TOOL_REQUEST_CONFLICT"
                  "provider correlation identity is already pending" false))
              (commit provider_key (record {
                logical_request = logical_request;
                provider_request = request;
                route = route;
                logical_key = logical_key;
                provider_key = provider_key;
                pending_token = w.pending_token;
                deadline = deadline;
                future = future;
                terminal_slot_reserved = false;
                dispatch_claimed = false;
              })))

  unfoldable pub admit_registered :
      ToolProviderRouteIdentity → RegisteredEndpoint → Action Locals (Option CorrelationKey)
  admit_registered route registration = do
    decoded ← lift (invoke_request_from_envelope logical_request)
    logical_key ← lift (correlation_key logical_request)
    provider_key ← lift (
        correlation_key
          (invoke_request_envelope w decoded.0 decoded.1 registration.endpoint_instance_id))
    admit_keys route
        (invoke_request_envelope w decoded.0 decoded.1 registration.endpoint_instance_id)
        logical_key provider_key

  unfoldable pub admit_resolved :
      ToolProviderRouteIdentity → Option RegisteredEndpoint → Action Locals (Option CorrelationKey)
  admit_resolved route resolved =
      choose resolved
        (turn_down (
          make_error "FORGE_TOOL_ENDPOINT_UNAVAILABLE"
            (text (
              "endpoint "
              ∷ w.quote logical_request.endpoint_id
              ∷ " has no active provider instance"
              ∷ []))
            true))
        (admit_registered route)

  -- `except ToolOperationNotFoundError`
  abbrev pub unresolved : Exception → Action Locals (Option CorrelationKey)
  unresolved operation_not_found =
      turn_down (make_error "FORGE_TOOL_OPERATION_NOT_FOUND" (w.text_of operation_not_found) false)
  unresolved x = raise x

  unfoldable pub admit_routed :
      String → ToolProviderRouteIdentity → Action Locals (Option CorrelationKey)
  admit_routed operation route = do
    expired ← inside (on_directory (expire processed_at))
    inside (finish_unclaimed_for_removed w expired processed_at)
    try_else (inside (on_directory (resolve logical_request.endpoint_id operation processed_at)))
        unresolved (admit_resolved route)

  -- `except ToolGatewayMailboxFull`
  abbrev pub unreserved : Exception → Action Locals (Option CorrelationKey)
  unreserved mailbox_full =
      turn_down (make_error "FORGE_TOOL_GATEWAY_BUSY" "Tool Gateway outbound mailbox is busy" true)
  unreserved x = raise x

  unfoldable pub admit_reserved : Action Locals (Option CorrelationKey)
  admit_reserved =
      branch (leb deadline processed_at)
        (turn_down (
          make_error "FORGE_TOOL_INVOKE_TIMEOUT" "Tool Query invocation deadline already elapsed"
            true))
        (do
          route ← inside (gets (λ g. lookup logical_request.endpoint_id g.routes_by_endpoint_id))
          choose logical_request.operation (raise Exception.assertion_error) (λ operation.
              choose route
                (turn_down (
                  make_error "FORGE_TOOL_ENDPOINT_UNKNOWN"
                    (text (
                      "endpoint "
                      ∷ w.quote logical_request.endpoint_id
                      ∷ " is not configured"
                      ∷ []))
                    false))
                (admit_routed operation)))

  -- The body of the outer `try`.
  unfoldable pub admit_body : Action Locals (Option CorrelationKey)
  admit_body = do
    full ← inside (gets is_pending_full)
    branch full
        (turn_down (
          make_error "FORGE_TOOL_GATEWAY_BUSY"
            "Tool Gateway pending invocation capacity is exhausted" true))
        (try_else reserve_provider unreserved (λ _. admit_reserved))

  -- `_admit_invoke_locked`
  unfoldable pub admit_invoke : Action Gateway (Option CorrelationKey)
  admit_invoke = do
    ensure_accepting
    when (not (is_some future)) (reserve_outbound_slots 1)
    with_locals (not (is_some future))
        (try_finally admit_body (release_provider >> release_terminal_slot))
