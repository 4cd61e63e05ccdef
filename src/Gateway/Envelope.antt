-- ===== src/Gateway/Envelope.antt =====
-- The envelopes that src/forge_gateway/services/tool_gateway_service.py reads and makes, after
-- validation: the payload is what its `*_from_payload` function returns, and its constructor is the
-- message type. The protocol version is a constant.
use adapter_forge_gateway.Prelude.{
  ℕ, String, ◌≡◌, ◌↔◌, Bool, true, false, not, ◌&&◌, Option, none, some, arith, Eq, ◌==◌, string_eq,
  is_some,
}
use adapter_forge_gateway.Raise.{
  Result, ok, err, value_error, assertion_error, protocol_error, raise_if, ◌>>◌,
}
use adapter_forge_gateway.Endpoint.Json.{Fields}
use adapter_forge_gateway.Endpoint.Values.{
  ToolError, ToolEvent, ToolExecutionStatus, ToolEndpointDescriptor,
}
use adapter_forge_gateway.Endpoint.Responses.{
  EndpointRegistryResponse, ToolResultResponse, ToolControlCommand, ToolControlResponse,
  EndpointStatus, ToolContext,
}
use adapter_forge_gateway.Handler.State.{InvokeOutcome}

pub data Payload : Type 0 where
  register : ToolEndpointDescriptor → Payload
  unregister : Payload
  registry_response : EndpointRegistryResponse → Payload
  endpoint_status : EndpointStatus → Payload
  invoke_request : ToolContext → Fields → Payload
  invoke_response : InvokeOutcome → Payload
  status_request : Payload
  status_response : ToolExecutionStatus → Payload
  result_request : Payload
  result_response : ToolResultResponse → Payload
  control_request : ToolControlCommand → Option String → Payload
  control_response : ToolControlResponse → Payload
  tool_error : ToolError → Payload
  tool_event : ToolEvent → Payload

pub record ToolEnvelope : Type 0 where
  pub request_id : Option String
  pub invocation_id : Option String
  pub attempt_id : Option String
  pub endpoint_id : String
  pub endpoint_instance_id : Option String
  pub operation : Option String
  pub sequence : Option ℕ
  pub payload : Payload

pub record CorrelationKey : Type 0 where
  pub request_id : String
  pub invocation_id : String
  pub attempt_id : String
  pub endpoint_id : String
  pub endpoint_instance_id : Option String
  pub operation : String

abbrev pub option_beq : Option String → Option String → Bool
option_beq none none = true
option_beq (some a) (some b) = a == b
option_beq _ _ = false

pub option_beq_iff : (a b : Option String) → (option_beq a b ≡ true) ↔ (a ≡ b)
option_beq_iff none none = ground arith
option_beq_iff none (some b) = ground arith
option_beq_iff (some a) none = ground arith
option_beq_iff (some a) (some b) = ground (arith, string_eq.beq_iff a b)

abbrev pub correlation_beq : CorrelationKey → CorrelationKey → Bool
correlation_beq a b =
    a.request_id == b.request_id
    && a.invocation_id == b.invocation_id
    && a.attempt_id == b.attempt_id
    && a.endpoint_id == b.endpoint_id
    && option_beq a.endpoint_instance_id b.endpoint_instance_id
    && a.operation == b.operation

pub correlation_beq_iff : (a b : CorrelationKey) → (correlation_beq a b ≡ true) ↔ (a ≡ b)
correlation_beq_iff a b = ground (
  arith,
  string_eq.beq_iff a.request_id b.request_id,
  string_eq.beq_iff a.invocation_id b.invocation_id,
  string_eq.beq_iff a.attempt_id b.attempt_id,
  string_eq.beq_iff a.endpoint_id b.endpoint_id,
  option_beq_iff a.endpoint_instance_id b.endpoint_instance_id,
  string_eq.beq_iff a.operation b.operation,
)

instance abbrev pub correlation_eq : Eq CorrelationKey
correlation_eq = record { beq = correlation_beq; beq_iff = correlation_beq_iff }

-- `_correlation_key` on the four IDs that may be missing.
abbrev pub key_of :
    String
    → Option String
    → Option String
    → Option String
    → Option String
    → Option String
    → Result CorrelationKey
key_of endpoint_id instance_id (some request_id) (some invocation_id) (some attempt_id)
      (some operation) =
    ok (record {
      request_id = request_id;
      invocation_id = invocation_id;
      attempt_id = attempt_id;
      endpoint_id = endpoint_id;
      endpoint_instance_id = instance_id;
      operation = operation;
    })
key_of _ _ _ _ _ _ = err value_error

unfoldable pub correlation_key : ToolEnvelope → Result CorrelationKey
correlation_key e =
    key_of e.endpoint_id e.endpoint_instance_id e.request_id e.invocation_id e.attempt_id
      e.operation

-- The envelope that `_logical_envelope` makes.
unfoldable pub addressed : Payload → ToolEnvelope → ToolEnvelope
addressed payload request = record {
  request_id = request.request_id;
  invocation_id = request.invocation_id;
  attempt_id = request.attempt_id;
  endpoint_id = request.endpoint_id;
  endpoint_instance_id = none;
  operation = request.operation;
  sequence = none;
  payload = payload;
}

-- `_logical_envelope` for the caller of `request`, whose IDs must all be present.
unfoldable pub logical_envelope : Payload → ToolEnvelope → Result ToolEnvelope
logical_envelope payload request =
    raise_if
      (not (
        is_some request.request_id
        && is_some request.invocation_id
        && is_some request.attempt_id
        && is_some request.operation))
      assertion_error
    >> (raise_if (is_some request.endpoint_instance_id) value_error
        >> ok (addressed payload request))

-- `_logical_error_response`
unfoldable pub logical_error_response : ToolError → ToolEnvelope → Result ToolEnvelope
logical_error_response error request = logical_envelope (Payload.tool_error error) request

-- `_logical_provider_response`
unfoldable pub logical_provider_response : ToolEnvelope → ToolEnvelope → Result ToolEnvelope
logical_provider_response response request = logical_envelope response.payload request

-- `pairs.get(request.message_type)` and the test of the response's type.
abbrev pub is_paired : Payload → Payload → Bool
is_paired (Payload.invoke_request _ _) (Payload.invoke_response _) = true
is_paired Payload.status_request (Payload.status_response _) = true
is_paired Payload.result_request (Payload.result_response _) = true
is_paired (Payload.control_request _ _) (Payload.control_response _) = true
is_paired _ (Payload.tool_error _) = true
is_paired _ _ = false

abbrev pub has_response : Payload → Bool
has_response (Payload.invoke_request _ _) = true
has_response Payload.status_request = true
has_response Payload.result_request = true
has_response (Payload.control_request _ _) = true
has_response _ = false

abbrev pub command_beq : ToolControlCommand → ToolControlCommand → Bool
command_beq ToolControlCommand.cancel ToolControlCommand.cancel = true
command_beq ToolControlCommand.stop ToolControlCommand.stop = true
command_beq _ _ = false

-- The commands of a control request and of its response differ.
abbrev pub is_other_command : Payload → Payload → Bool
is_other_command (Payload.control_request command _) (Payload.control_response response) =
    not (command_beq command response.command)
is_other_command _ _ = false

-- `validate_response_correlation` of src/forge_tool/wire/factories.py.
unfoldable pub validate_correlation : ToolEnvelope → ToolEnvelope → Result (Unit {0})
validate_correlation request response =
    raise_if (not (has_response request.payload)) value_error
    >> (raise_if (not (is_paired request.payload response.payload))
          (protocol_error "FORGE_PROTOCOL_CORRELATION_MISMATCH")
        >> (raise_if
              (not (
                option_beq request.request_id response.request_id
                && option_beq request.invocation_id response.invocation_id
                && option_beq request.attempt_id response.attempt_id
                && request.endpoint_id == response.endpoint_id
                && option_beq request.endpoint_instance_id response.endpoint_instance_id
                && option_beq request.operation response.operation))
              (protocol_error "FORGE_PROTOCOL_CORRELATION_MISMATCH")
            >> raise_if (is_other_command request.payload response.payload)
                (protocol_error "FORGE_PROTOCOL_CORRELATION_MISMATCH")))
