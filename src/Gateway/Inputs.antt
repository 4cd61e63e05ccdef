-- ===== src/Gateway/Inputs.antt =====
-- `handle_input` of src/forge_gateway/services/tool_gateway_service.py, and what it sends back for the
-- registration of an endpoint (src/forge_tool/wire/factories.py).
use adapter_forge_gateway.Prelude.{
  ℕ, String, Bool, true, false, not, ◌&&◌, Option, none, some, ◌==◌, string_eq, is_some,
  if◌then◌else◌,
}
use adapter_forge_gateway.Raise.{Result, ok, err, value_error, protocol_error, raise_if, Action}
use adapter_forge_gateway.Raise.Method.{pure, raise, lift, gets, ◌>>=◌, ◌>>◌, choose, branch}
use adapter_forge_gateway.Dict.{lookup}
use adapter_forge_gateway.Endpoint.Responses.{RegistryOperation, EndpointRegistryResponse}
use adapter_forge_gateway.Directory.State.{ToolProviderRouteIdentity, EndpointDirectory}
use adapter_forge_gateway.Directory.Register.{EndpointDirectoryMutation, register_with_change}
use adapter_forge_gateway.Directory.Manage.{unregister_with_change}
use adapter_forge_gateway.Gateway.Envelope.{
  Payload, ToolEnvelope, CorrelationKey, correlation_eq, correlation_key, option_beq,
}
use adapter_forge_gateway.Gateway.State.{
  OutboundKind, Gateway, Ambient, on_directory, reserve_outbound_slots, append_reserved_outbound,
  ensure_accepting,
}
use adapter_forge_gateway.Gateway.Finish.{finish_unclaimed_for_removed}
use adapter_forge_gateway.Gateway.Exchanges.{or_release}
use adapter_forge_gateway.Gateway.HttpQueries.{handle_provider_response}
use adapter_forge_gateway.Gateway.Answers.{handle_action_response}
use adapter_forge_gateway.Gateway.Events.{handle_action_event, handle_endpoint_status}
use adapter_forge_gateway.Gateway.Dora.{handle_caller_invoke}
use adapter_forge_gateway.Gateway.Callers.{handle_caller_action_request}

-- `_REGISTRY_REQUEST_OPERATIONS.get(request.message_type)`
abbrev pub registry_operation : Payload → Option RegistryOperation
registry_operation (Payload.register _) = some RegistryOperation.register
registry_operation Payload.unregister = some RegistryOperation.unregister
registry_operation _ = none

abbrev pub same_operation : RegistryOperation → RegistryOperation → Bool
same_operation RegistryOperation.register RegistryOperation.register = true
same_operation RegistryOperation.unregister RegistryOperation.unregister = true
same_operation _ _ = false

abbrev pub operation_in : Payload → Option RegistryOperation
operation_in (Payload.registry_response response) = some response.operation
operation_in _ = none

-- The tests of `validate_management_response_correlation` against an expected operation.
abbrev pub check_management :
    ToolEnvelope → ToolEnvelope → RegistryOperation → Option RegistryOperation → Result (Unit {0})
check_management request response expected none =
    err (protocol_error "FORGE_PROTOCOL_CORRELATION_MISMATCH")
check_management request response expected (some operation) =
    raise_if
      (not (
        option_beq request.request_id response.request_id
        && request.endpoint_id == response.endpoint_id
        && option_beq request.endpoint_instance_id response.endpoint_instance_id
        && same_operation operation expected))
      (protocol_error "FORGE_PROTOCOL_CORRELATION_MISMATCH")

-- `validate_management_response_correlation`
unfoldable pub validate_management : ToolEnvelope → ToolEnvelope → Result (Unit {0})
validate_management request response = elim (registry_operation request.payload) [
  | none ↦ err value_error
  | some expected ↦ check_management request response expected (operation_in response.payload)
]

unfoldable pub registry_envelope : EndpointRegistryResponse → ToolEnvelope → ToolEnvelope
registry_envelope response request = record {
  request_id = request.request_id;
  invocation_id = none;
  attempt_id = none;
  endpoint_id = request.endpoint_id;
  endpoint_instance_id = request.endpoint_instance_id;
  operation = none;
  sequence = none;
  payload = Payload.registry_response response;
}

abbrev pub registry_response_for :
    EndpointRegistryResponse → ToolEnvelope → Option RegistryOperation → Result ToolEnvelope
registry_response_for response request none = err value_error
registry_response_for response request (some expected) =
    if same_operation response.operation expected
    then elim (validate_management request (registry_envelope response request)) [
      | err x ↦ err x
      | ok _ ↦ ok (registry_envelope response request)
    ]
    else err value_error

-- `make_endpoint_registry_response_envelope`
unfoldable pub make_registry_response :
    EndpointRegistryResponse → ToolEnvelope → Result ToolEnvelope
make_registry_response response request =
    registry_response_for response request (registry_operation request.payload)

module _ (w : Ambient) (route : ToolProviderRouteIdentity) (envelope : ToolEnvelope)
    (received processed : ℕ) where
  unfoldable pub answer_registry :
      Action EndpointDirectory EndpointDirectoryMutation → Action Gateway EndpointDirectoryMutation
  answer_registry change = do
    mutation ← on_directory change
    answer ← lift (make_registry_response mutation.response envelope)
    append_reserved_outbound (record {
      output_id = route.output_id;
      envelope = answer;
      kind = OutboundKind.registry_response;
      pending_key = none;
      pending_token = none;
    })
    pure mutation

  -- The first branch of `_handle_provider_input_locked`.
  unfoldable pub change_registry :
      Action EndpointDirectory EndpointDirectoryMutation → Action Gateway (Unit {0})
  change_registry change = do
    reserve_outbound_slots 1
    mutation ← or_release 1 (answer_registry change) (pure tt)
    finish_unclaimed_for_removed w mutation.removed processed
    pure tt

  -- `_handle_provider_input_locked`, by the message type.
  unfoldable pub handle_provider_input : Payload → Action Gateway (Unit {0})
  handle_provider_input (Payload.register descriptor) = change_registry (
      register_with_change
        (record { descriptor = descriptor; endpoint_instance_id = envelope.endpoint_instance_id })
        route received)
  handle_provider_input Payload.unregister = change_registry (
      unregister_with_change
        (record {
          endpoint_id = envelope.endpoint_id;
          endpoint_instance_id = envelope.endpoint_instance_id;
        })
        route received)
  handle_provider_input (Payload.invoke_response _) =
      handle_provider_response route envelope processed >> pure tt
  handle_provider_input (Payload.tool_error _) =
      handle_provider_response route envelope processed >> pure tt
  handle_provider_input (Payload.status_response _) =
      handle_action_response w route envelope processed >> pure tt
  handle_provider_input (Payload.result_response _) =
      handle_action_response w route envelope processed >> pure tt
  handle_provider_input (Payload.control_response _) =
      handle_action_response w route envelope processed >> pure tt
  handle_provider_input (Payload.tool_event event) = handle_action_event w route envelope event
  handle_provider_input (Payload.endpoint_status status) =
      handle_endpoint_status w route envelope status received
  handle_provider_input _ = raise value_error

  unfoldable pub accept_provider_input : Action Gateway (Unit {0})
  accept_provider_input = ensure_accepting >> handle_provider_input envelope.payload

  abbrev pub is_exchange_key : CorrelationKey → Gateway → Bool
  is_exchange_key key g = is_some (lookup key g.action_exchanges)

  -- A response, which is an Action's if an exchange waits for it, and else goes on to `rest`.
  unfoldable pub provider_response : Action Gateway (Unit {0}) → Action Gateway (Unit {0})
  provider_response rest = do
    key ← lift (correlation_key envelope)
    of_action ← gets (is_exchange_key key)
    branch of_action (handle_action_response w route envelope processed >> pure tt) rest

  unfoldable pub query_response : Action Gateway (Unit {0})
  query_response = handle_provider_response route envelope processed >> pure tt

  -- `handle_input` from a configured provider, by the message type.
  unfoldable pub input_of_provider : Payload → Action Gateway (Unit {0})
  input_of_provider (Payload.tool_event event) = handle_action_event w route envelope event
  input_of_provider (Payload.endpoint_status status) =
      handle_endpoint_status w route envelope status received
  input_of_provider (Payload.invoke_response _) = provider_response query_response
  input_of_provider (Payload.tool_error _) = provider_response query_response
  input_of_provider (Payload.status_response _) = provider_response accept_provider_input
  input_of_provider (Payload.result_response _) = provider_response accept_provider_input
  input_of_provider (Payload.control_response _) = provider_response accept_provider_input
  input_of_provider _ = accept_provider_input

-- `handle_input` from the public caller, by the message type.
unfoldable pub input_of_caller : Ambient → ToolEnvelope → ℕ → Payload → Action Gateway (Unit {0})
input_of_caller w envelope processed (Payload.invoke_request _ _) =
    handle_caller_invoke w envelope processed
input_of_caller w envelope processed Payload.status_request =
    handle_caller_action_request w envelope
input_of_caller w envelope processed Payload.result_request =
    handle_caller_action_request w envelope
input_of_caller w envelope processed (Payload.control_request _ _) =
    handle_caller_action_request w envelope
input_of_caller w envelope processed _ = raise value_error

unfoldable pub unrouted_input : Ambient → String → ToolEnvelope → ℕ → Action Gateway (Unit {0})
unrouted_input w input_id envelope processed = do
  ensure_accepting
  public ← gets (λ g. g.request_input_id)
  branch (input_id == public) (input_of_caller w envelope processed envelope.payload)
      (raise value_error)

-- `handle_input`
unfoldable pub handle_input : Ambient → String → ToolEnvelope → ℕ → ℕ → Action Gateway (Unit {0})
handle_input w input_id envelope received processed = do
  route ← gets (λ g. lookup input_id g.routes_by_input_id)
  choose route (unrouted_input w input_id envelope processed)
      (λ found. input_of_provider w found envelope received processed envelope.payload)
