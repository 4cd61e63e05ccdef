-- ===== src/Endpoint/Equality.antt =====
-- Python's `==` on the frozen dataclasses that the directory compares: field by field.
use adapter_forge_gateway.Prelude.{
  ◌≡◌, ◌↔◌, Bool, true, false, not, ◌&&◌, List, [], ◌∷◌, arith, ◌==◌, nat_eq, string_eq,
}
use adapter_forge_gateway.Endpoint.Values.{
  ToolSemantics, ToolOperationDescriptor, ToolEndpointDescriptor,
}

bool_beq : Bool → Bool → Bool
bool_beq true b = b
bool_beq false b = not b

semantics_beq : ToolSemantics → ToolSemantics → Bool
semantics_beq ToolSemantics.query ToolSemantics.query = true
semantics_beq ToolSemantics.action ToolSemantics.action = true
semantics_beq ToolSemantics.session ToolSemantics.session = true
semantics_beq _ _ = false

operation_beq : ToolOperationDescriptor → ToolOperationDescriptor → Bool
unfolding bool_beq semantics_beq
operation_beq a b =
    a.name == b.name
    && semantics_beq a.semantics b.semantics
    && bool_beq a.cancellable b.cancellable
    && bool_beq a.stoppable b.stoppable
    && bool_beq a.status_supported b.status_supported
    && a.max_concurrency == b.max_concurrency

operation_beq_iff : (a b : ToolOperationDescriptor) → (operation_beq a b ≡ true) ↔ (a ≡ b)
unfolding operation_beq
operation_beq_iff a b = ground (arith, string_eq.beq_iff a.name b.name)

operations_beq : List ToolOperationDescriptor → List ToolOperationDescriptor → Bool
operations_beq [] [] = true
operations_beq (a ∷ as') (b ∷ bs) = operation_beq a b && operations_beq as' bs
operations_beq _ _ = false

operations_beq_iff : (a b : List ToolOperationDescriptor) → (operations_beq a b ≡ true) ↔ (a ≡ b)
unfolding operations_beq
operations_beq_iff [] [] = ground arith
operations_beq_iff [] (b ∷ bs) = ground arith
operations_beq_iff (a ∷ xs) [] = ground arith
operations_beq_iff (a ∷ xs) (b ∷ bs) =
    ground (arith, operation_beq_iff a b, operations_beq_iff xs bs)

unfoldable pub descriptor_beq : ToolEndpointDescriptor → ToolEndpointDescriptor → Bool
unfolding operations_beq operation_beq
descriptor_beq a b =
    a.protocol_version == b.protocol_version
    && a.endpoint_id == b.endpoint_id
    && operations_beq a.operations b.operations

pub descriptor_beq_iff : (a b : ToolEndpointDescriptor) → (descriptor_beq a b ≡ true) ↔ (a ≡ b)
unfolding descriptor_beq
descriptor_beq_iff a b = ground (
  arith,
  string_eq.beq_iff a.protocol_version b.protocol_version,
  string_eq.beq_iff a.endpoint_id b.endpoint_id,
  operations_beq_iff a.operations b.operations,
)
