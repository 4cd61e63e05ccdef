-- ===== src/Gateway/Correlation.antt =====
-- When a provider's response answers a request, said apart from the order of the tests of
-- `validate_response_correlation` in src/forge_tool/wire/factories.py.
use adapter_forge_gateway.Prelude.{◌≡◌, refl, Bool, true, false, not, ◌&&◌, ◌==◌, string_eq}
use adapter_forge_gateway.Raise.{
  Exception, Result, ok, err, value_error, protocol_error, raise_if, ◌>>◌,
}
use adapter_forge_gateway.Gateway.Envelope.{
  ToolEnvelope, option_beq, has_response, is_paired, is_other_command, validate_correlation,
}

abbrev pub has_same_ids : ToolEnvelope → ToolEnvelope → Bool
has_same_ids request response =
    option_beq request.request_id response.request_id
    && option_beq request.invocation_id response.invocation_id
    && option_beq request.attempt_id response.attempt_id
    && request.endpoint_id == response.endpoint_id
    && option_beq request.endpoint_instance_id response.endpoint_instance_id
    && option_beq request.operation response.operation

-- A response of the right type that carries the request's IDs, instance and operation.
abbrev pub matches : ToolEnvelope → ToolEnvelope → Bool
matches request response =
    has_response request.payload
    && is_paired request.payload response.payload
    && has_same_ids request response
    && not (is_other_command request.payload response.payload)

abbrev pub Correlated : Bool → Result (Unit {0}) → Type 0
Correlated true r = r ≡ ok tt
Correlated false r = (x : Exception) × (r ≡ err x)

four_tests-Correlated :
    (a b c d : Bool) (x y : Exception)
    → Correlated
        (a && b && c && not d)
        (raise_if (not a) x >> (raise_if (not b) y >> (raise_if (not c) y >> raise_if d y)))
four_tests-Correlated false b c d x y = (x, refl)
four_tests-Correlated true false c d x y = (y, refl)
four_tests-Correlated true true false d x y = (y, refl)
four_tests-Correlated true true true false x y = refl
four_tests-Correlated true true true true x y = (y, refl)

pub validate_correlation-Correlated :
    (request response : ToolEnvelope)
    → Correlated (matches request response) (validate_correlation request response)
unfolding validate_correlation
validate_correlation-Correlated request response =
    four_tests-Correlated (has_response request.payload)
      (is_paired request.payload response.payload) (has_same_ids request response)
      (is_other_command request.payload response.payload) value_error
      (protocol_error "FORGE_PROTOCOL_CORRELATION_MISMATCH")
