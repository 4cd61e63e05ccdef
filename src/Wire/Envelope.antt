-- ===== src/Wire/Envelope.antt =====
-- `ToolEnvelope.__post_init__` of src/forge_tool/wire/envelope.py: the fields that a message of each type
-- has and those that it must not have. The payload is the typed one, whose constructor is the type.
use adapter_forge_gateway.Prelude.{
  refl, ℕ, ◌≡◌, String, Bool, true, false, not, Option, none, some, leb, is_some, arith,
  if◌then◌else◌,
}
use adapter_forge_gateway.Raise.{Result, ok, err, raise_if, ◌>>◌}
use adapter_forge_gateway.Endpoint.Checks.{max_json_integer}
use adapter_forge_gateway.Gateway.Envelope.{Payload, ToolEnvelope}
use adapter_forge_gateway.Gateway.Slots.{has_ids}
use adapter_forge_gateway.Wire.Text.{invalid_message, require_nonempty}

-- `message_type in _MANAGEMENT_MESSAGES`
abbrev pub is_management : Payload → Bool
is_management (Payload.register _) = true
is_management Payload.unregister = true
is_management (Payload.registry_response _) = true
is_management (Payload.endpoint_status _) = true
is_management _ = false

-- `message_type in _MANAGEMENT_MESSAGES_REQUIRING_REQUEST_ID`
abbrev pub is_registry : Payload → Bool
is_registry (Payload.endpoint_status _) = false
is_registry payload = is_management payload

abbrev pub is_event : Payload → Bool
is_event (Payload.tool_event _) = true
is_event _ = false

abbrev pub check_instance : Bool → Option String → Result (Unit {0})
check_instance management none = raise_if management invalid_message
check_instance management (some value) = require_nonempty (some value)

abbrev pub check_optional : Option String → Result (Unit {0})
check_optional none = ok tt
check_optional (some value) = require_nonempty (some value)

-- The IDs of a message to or from a Tool.
unfoldable pub check_tool_ids : Bool → ToolEnvelope → Result (Unit {0})
check_tool_ids event e =
    require_nonempty e.invocation_id
    >> (require_nonempty e.attempt_id
        >> (require_nonempty e.operation
            >> (if event
                then raise_if (is_some e.request_id) invalid_message
                else require_nonempty e.request_id)))

-- The IDs of an endpoint management message.
unfoldable pub check_management_ids : Bool → ToolEnvelope → Result (Unit {0})
check_management_ids registry e =
    (if registry
      then require_nonempty e.request_id
      else raise_if (is_some e.request_id) invalid_message)
    >> (raise_if (is_some e.invocation_id) invalid_message
        >> (raise_if (is_some e.attempt_id) invalid_message
            >> (raise_if (is_some e.operation) invalid_message
                >> raise_if (is_some e.sequence) invalid_message)))

abbrev pub check_sequence : Bool → Option ℕ → Result (Unit {0})
check_sequence true none = err invalid_message
check_sequence true (some sequence) = raise_if (not (leb sequence max_json_integer)) invalid_message
check_sequence false sequence = raise_if (is_some sequence) invalid_message

-- `ToolEnvelope.__post_init__`, but for the payload.
unfoldable pub check_envelope : ToolEnvelope → Result (Unit {0})
unfolding check_tool_ids check_management_ids
check_envelope e =
    require_nonempty (some e.endpoint_id)
    >> (check_instance (is_management e.payload) e.endpoint_instance_id
        >> ((if is_management e.payload
              then check_management_ids (is_registry e.payload) e
              else check_tool_ids (is_event e.payload) e)
            >> (check_sequence (is_event e.payload) e.sequence >> check_optional e.request_id)))

require_nonempty-some :
    (value : Option String) → require_nonempty value ≡ ok tt → is_some value ≡ true
unfolding require_nonempty
require_nonempty-some none h = ground (arith, h)
require_nonempty-some (some value) h = ground arith

then-ok : (a b : Result (Unit {0})) → (a >> b) ≡ ok tt → (a ≡ ok tt) × (b ≡ ok tt)
then-ok (ok tt) b h = (refl, h)
then-ok (err x) b h = absurd (cc)

-- A request to a Tool that could be made has its four IDs.
pub has_ids-check :
    (e : ToolEnvelope)
    → is_management e.payload ≡ false
    → is_event e.payload ≡ false
    → check_envelope e ≡ ok tt
    → has_ids e ≡ true
unfolding check_envelope
has_ids-check e managed event h =
    let fields = then-ok _ _ (then-ok _ _ h).1 in
    let ids : check_tool_ids false e ≡ ok tt =
      (rw (managed, event) at
        (then-ok
          (if is_management e.payload
            then check_management_ids (is_registry e.payload) e
            else check_tool_ids (is_event e.payload) e)
          (check_sequence (is_event e.payload) e.sequence >> check_optional e.request_id)
          fields.1).0) in
    let invocation = then-ok _ _ ids in
    let attempt = then-ok _ _ invocation.1 in
    let operation = then-ok _ _ attempt.1 in
    ground (
      arith,
      require_nonempty-some e.invocation_id invocation.0,
      require_nonempty-some e.attempt_id attempt.0,
      require_nonempty-some e.operation operation.0,
      require_nonempty-some e.request_id operation.1,
    )
