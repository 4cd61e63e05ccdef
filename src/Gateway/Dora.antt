-- ===== src/Gateway/Dora.antt =====
-- The Dora caller's invocations in `ToolGatewayService` of
-- src/forge_gateway/services/tool_gateway_service.py: `_handle_caller_invoke_locked` and
-- `_admit_dora_action_locked`.
use adapter_forge_gateway.Prelude.{
  ℕ, ◌+◌, ◌-◌, Bool, true, false, not, ◌||◌, Option, none, some, leb, ◌==◌, string_eq, is_some,
  if◌then◌else◌,
}
use adapter_forge_gateway.Prelude.Int.{negsuc}
use adapter_forge_gateway.Raise.{
  Exception, value_error, key_error, capacity_error, gateway_unavailable, mailbox_full,
  operation_not_found, protocol_error, stop_iteration, Action,
}
use adapter_forge_gateway.Raise.Method.{
  pure, raise, lift, gets, ◌>>=◌, ◌>>◌, choose, branch, modify, when, try_except,
}
use adapter_forge_gateway.Endpoint.Json.{Fields}
use adapter_forge_gateway.Endpoint.Values.{ToolError, ToolOperationDescriptor}
use adapter_forge_gateway.Endpoint.Responses.{ToolContext}
use adapter_forge_gateway.Invocations.Item.{ActionKey}
use adapter_forge_gateway.Invocations.Store.{create}
use adapter_forge_gateway.Directory.State.{RegisteredEndpoint, expire}
use adapter_forge_gateway.Directory.Manage.{resolve}
use adapter_forge_gateway.Catalog.{ToolSpec, find_operation, validate_binding}
use adapter_forge_gateway.Catalog
use adapter_forge_gateway.Gateway.Envelope.{ToolEnvelope}
use adapter_forge_gateway.Gateway.State.{
  OutboundKind, Purpose, Gateway, Ambient, on_directory, on_invocations, reserve_outbound_slots,
  release_outbound_slots, respond, make_error,
}
use adapter_forge_gateway.Gateway.Finish.{finish_unclaimed_for_removed}
use adapter_forge_gateway.Gateway.Exchanges.{queue_action_exchange}
use adapter_forge_gateway.Gateway.Actions.{
  is_query, new_invocation, invoke_request_envelope, discard_invocation,
}
use adapter_forge_gateway.Gateway.Locals.{
  Locals, inside, with_locals, set_provider, reserve_provider, release_provider, created_flag,
}
use adapter_forge_gateway.Gateway.Queries.{admit_invoke, invoke_request_from_envelope}
use adapter_forge_gateway.Gateway.Answers.{advance_cursor, drop_cursor}

-- The two `except` clauses of a request that a Dora caller has made: an expected exception is the
-- caller's answer, and any other gives the caller's slot back too.
unfoldable pub or_answer :
    (Exception → Bool)
    → Action Locals (Unit {0})
    → Action Locals (Unit {0})
    → (Exception → ToolError)
    → ToolEnvelope
    → Action Locals (Unit {0})
    → Action Locals (Unit {0})
or_answer is_expected undo clean error_of request m = try_except m (λ x.
    release_provider
    >> branch (is_expected x)
        (undo >> inside (respond OutboundKind.caller_action_response (error_of x) request))
        (inside (release_outbound_slots 1) >> (clean >> raise x)))

-- `except (KeyError, ValueError, ActionInvocationCapacityError, ToolGatewayUnavailable)`
abbrev pub is_admission_error : Exception → Bool
is_admission_error key_error = true
is_admission_error value_error = true
is_admission_error (protocol_error _) = true
is_admission_error capacity_error = true
is_admission_error gateway_unavailable = true
is_admission_error mailbox_full = true
is_admission_error _ = false

abbrev pub is_busy : Exception → Bool
is_busy capacity_error = true
is_busy mailbox_full = true
is_busy _ = false

abbrev pub is_retryable : Exception → Bool
is_retryable gateway_unavailable = true
is_retryable x = is_busy x

abbrev pub admission_error : Ambient → Exception → ToolError
admission_error w x =
    make_error
      (if is_busy x then "FORGE_TOOL_GATEWAY_BUSY" else "FORGE_TOOL_ACTION_ADMISSION_REJECTED")
      (w.text_of x) (is_retryable x)

-- `if invocation_created: …`
unfoldable pub forget_created : ActionKey → Action Locals (Unit {0})
forget_created k = do
  created ← gets created_flag
  when created (inside (discard_invocation k) >> inside (modify (drop_cursor k)))

abbrev pub set_created : Locals → Locals
set_created l = record l { invocation_created = true }

-- The context of the request is not that of the configured ToolSpec.
abbrev pub is_other_spec : ToolSpec → ToolContext → Bool
is_other_spec spec context =
    not (spec.implementation_id == context.implementation_id)
    || not (spec.endpoint_id == context.endpoint_id)
    || not (spec.operation == context.operation)
    || is_query spec.semantics

module _ (w : Ambient) (request : ToolEnvelope) (context : ToolContext)
    (registration : RegisteredEndpoint) (now : ℕ) where
  unfoldable pub start_action : Fields → ToolOperationDescriptor → Action Locals (Unit {0})
  start_action arguments operation = do
    inside (
        on_invocations (
          create (new_invocation w context registration.endpoint_instance_id) now
            (some operation.max_concurrency)))
    modify set_created
    inside (modify (advance_cursor context.execution_key (negsuc 0)))
    reserve_provider
    timeout ← inside (gets (λ g. g.invoke_timeout_ms))
    inside (
        queue_action_exchange context.execution_key
          (invoke_request_envelope w arguments context registration.endpoint_instance_id)
          registration.route Purpose.invoke (now + timeout) (some request) true)
    modify (set_provider false)

  unfoldable pub start_spec : ToolSpec → Action Locals (Unit {0})
  start_spec spec = do
    when (is_other_spec spec context) (raise value_error)
    lift (validate_binding spec registration)
    decoded ← lift (invoke_request_from_envelope request)
    choose (find_operation context.operation registration.descriptor.operations)
        (raise stop_iteration) (start_action decoded.0)

  unfoldable pub start_dora_action : Action Locals (Unit {0})
  start_dora_action = do
    spec ← inside (gets (λ g. Catalog.get context.tool_id g.catalog))
    choose spec (raise key_error) start_spec

  -- `_admit_dora_action_locked`
  unfoldable pub admit_dora_action : Action Gateway (Unit {0})
  admit_dora_action =
      reserve_outbound_slots 1
      >> with_locals false (
          or_answer is_admission_error (forget_created context.execution_key)
            (forget_created context.execution_key) (admission_error w) request start_dora_action)

-- `except ToolOperationNotFoundError: registration = None`
abbrev pub no_operation : Exception → Action Gateway (Option RegisteredEndpoint)
no_operation operation_not_found = pure none
no_operation x = raise x

-- `min(deadline, absolute_deadline)`; a deadline before the clock's zero stands at it.
abbrev pub caller_deadline : Ambient → Option ℕ → ℕ → ℕ → ℕ
caller_deadline w none now timeout = now + timeout
caller_deadline w (some deadline_ms) now timeout =
    let absolute = now + deadline_ms - w.epoch_ms in
    if leb absolute (now + timeout) then absolute else now + timeout

module _ (w : Ambient) (request : ToolEnvelope) (now : ℕ) where
  unfoldable pub invoke_as_query : ToolContext → Action Gateway (Unit {0})
  invoke_as_query context = do
    timeout ← gets (λ g. g.invoke_timeout_ms)
    admit_invoke w request now (caller_deadline w context.deadline_ms now timeout) none
    pure tt

  unfoldable pub invoke_registered : ToolContext → RegisteredEndpoint → Action Gateway (Unit {0})
  invoke_registered context registration =
      choose (find_operation context.operation registration.descriptor.operations)
        (raise stop_iteration)
        (λ operation.
          branch (is_query operation.semantics) (invoke_as_query context)
            (admit_dora_action w request context registration now))

  -- `_handle_caller_invoke_locked`
  unfoldable pub handle_caller_invoke : Action Gateway (Unit {0})
  handle_caller_invoke = do
    when (is_some request.endpoint_instance_id) (raise value_error)
    decoded ← lift (invoke_request_from_envelope request)
    expired ← on_directory (expire now)
    finish_unclaimed_for_removed w expired now
    registration ←
        try_except (on_directory (resolve decoded.1.endpoint_id decoded.1.operation now))
          no_operation
    choose registration (invoke_as_query decoded.1) (invoke_registered decoded.1)
