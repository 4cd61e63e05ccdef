-- ===== src/Endpoint/Responses.antt =====
-- The other records of src/forge_tool/endpoint/models.py and their `__post_init__` checks: contexts,
-- requests, and the responses to registration, result and control requests.
use adapter_forge_gateway.Prelude.{
  ℕ, String, Bool, true, false, not, ◌&&◌, Option, none, some, leb, is_some, nat_eq, string_eq,
}
use adapter_forge_gateway.Raise.{Result, ok, value_error, ◌>>=◌, ◌>>◌, raise_if}
use adapter_forge_gateway.Endpoint.Json.{Fields}
use adapter_forge_gateway.Endpoint.Values.{ToolError, ToolResult, ToolEvent}
use adapter_forge_gateway.Endpoint.Checks.{max_json_integer, require_nonempty, mapping_copy}

pub data RegistryOperation : Type 0 where
  register unregister : RegistryOperation

pub data RegistryStatus : Type 0 where
  accepted rejected : RegistryStatus

pub record EndpointRegistryResponse : Type 0 where
  pub operation : RegistryOperation
  pub status : RegistryStatus
  pub registry_revision : ℕ
  pub lease_ttl_ms : Option ℕ
  pub error : Option ToolError

-- `lease_ttl_ms is not None and not 1 <= lease_ttl_ms <= max`
abbrev pub is_bad_lease : Option ℕ → Bool
is_bad_lease none = false
is_bad_lease (some ttl) = not (leb 1 ttl && leb ttl max_json_integer)

abbrev pub check_decision :
    RegistryOperation → RegistryStatus → Option ℕ → Option ToolError → Result (Unit {0})
check_decision operation RegistryStatus.rejected lease error =
    raise_if (is_some lease) value_error >> raise_if (not (is_some error)) value_error
check_decision RegistryOperation.register RegistryStatus.accepted lease error =
    raise_if (is_some error) value_error >> raise_if (not (is_some lease)) value_error
check_decision RegistryOperation.unregister RegistryStatus.accepted lease error =
    raise_if (is_some error) value_error >> raise_if (is_some lease) value_error

-- `EndpointRegistryResponse.__post_init__`
unfoldable pub check_registry : EndpointRegistryResponse → Result (Unit {0})
check_registry r =
    raise_if (not (leb r.registry_revision max_json_integer)) value_error
    >> (raise_if (is_bad_lease r.lease_ttl_ms) value_error
        >> check_decision r.operation r.status r.lease_ttl_ms r.error)

pub data ResultResponseStatus : Type 0 where
  pending available not_found : ResultResponseStatus

pub record ToolResultResponse : Type 0 where
  pub status : ResultResponseStatus
  pub result : Option ToolResult

abbrev pub is_available : ResultResponseStatus → Bool
is_available ResultResponseStatus.available = true
is_available _ = false

-- `ToolResultResponse.__post_init__`
unfoldable pub check_result_response : ToolResultResponse → Result (Unit {0})
check_result_response r =
    raise_if (is_available r.status && not (is_some r.result)) value_error
    >> raise_if (not (is_available r.status) && is_some r.result) value_error

pub data ToolControlCommand : Type 0 where
  cancel stop : ToolControlCommand

pub data ToolControlStatus : Type 0 where
  accepted rejected terminal unsupported : ToolControlStatus

pub record ToolControlResponse : Type 0 where
  pub command : ToolControlCommand
  pub status : ToolControlStatus
  pub error : Option ToolError
  pub details : Fields

abbrev pub is_rejected : ToolControlStatus → Bool
is_rejected ToolControlStatus.rejected = true
is_rejected _ = false

-- `ToolControlResponse.__post_init__`
unfoldable pub check_control : ToolControlResponse → Result ToolControlResponse
check_control r =
    raise_if (is_rejected r.status && not (is_some r.error)) value_error
    >> (raise_if (not (is_rejected r.status) && is_some r.error) value_error
        >> (mapping_copy r.details >>= λ details. ok (record r { details = details })))

pub data EndpointState : Type 0 where
  ready busy degraded unavailable : EndpointState

pub record EndpointStatus : Type 0 where
  pub endpoint_id : String
  pub state : EndpointState
  pub active_invocations : ℕ
  pub details : Fields

-- `EndpointStatus.__post_init__`
unfoldable pub check_endpoint_status : EndpointStatus → Result EndpointStatus
check_endpoint_status s =
    require_nonempty s.endpoint_id
    >> (raise_if (not (leb s.active_invocations max_json_integer)) value_error
        >> (mapping_copy s.details >>= λ details. ok (record s { details = details })))

-- `ToolContext`, with the two parts of its execution key beside each other.
pub record ToolContext : Type 0 where
  pub execution_key : String × String
  pub tool_id : String
  pub implementation_id : String
  pub endpoint_id : String
  pub operation : String
  pub caller_id : Option String
  pub deadline_ms : Option ℕ
  pub metadata : Fields

-- `ToolExecutionKey.__post_init__`
unfoldable pub check_execution_key : String × String → Result (Unit {0})
check_execution_key (invocation_id, attempt_id) =
    require_nonempty invocation_id >> require_nonempty attempt_id

abbrev pub check_caller : Option String → Result (Unit {0})
check_caller none = ok tt
check_caller (some caller_id) = require_nonempty caller_id

abbrev pub is_late : Option ℕ → Bool
is_late none = false
is_late (some deadline) = not (leb deadline max_json_integer)

-- `ToolContext.__post_init__`, after its execution key has been made.
unfoldable pub check_context : ToolContext → Result ToolContext
check_context c =
    require_nonempty c.tool_id
    >> (require_nonempty c.implementation_id
        >> (require_nonempty c.endpoint_id
            >> (require_nonempty c.operation
                >> (check_caller c.caller_id
                    >> (raise_if (is_late c.deadline_ms) value_error
                        >> (mapping_copy c.metadata >>= λ metadata.
                            ok (record c { metadata = metadata })))))))

-- `ToolEvent.__post_init__`
unfoldable pub check_event : ToolEvent → Result ToolEvent
check_event e = mapping_copy e.payload >>= λ payload. ok (record e { payload = payload })
