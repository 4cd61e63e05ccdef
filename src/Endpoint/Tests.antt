-- ===== src/Endpoint/Tests.antt =====
-- The theorems on the values of src/forge_tool/endpoint/models.py at concrete values.
use adapter_forge_gateway.Prelude.{◌≤◌, ◌≡◌, refl, []}
use adapter_forge_gateway.Prelude.Int.{pos}
use adapter_forge_gateway.Raise.{ok}
use adapter_forge_gateway.Endpoint.Json.{Fields, int, arr, tuple, nil, cons, end, field}
use adapter_forge_gateway.Endpoint.Checks.{fields_copy, mapping_copy}
use adapter_forge_gateway.Endpoint.Copies.{fields_nesting, fields_listed, mapping_copy-listed}

-- A tuple becomes a list.
abbrev nested : Fields
nested = field [] (tuple (cons (int (pos 7)) nil)) end

abbrev copied : Fields
copied = field [] (arr (cons (int (pos 7)) nil)) end

nested_copy : mapping_copy nested ≡ ok copied
unfolding mapping_copy fields_copy
nested_copy = refl

mapping_copy-listed_example : (copied ≡ fields_listed nested) × (fields_nesting nested ≤ 64)
mapping_copy-listed_example = mapping_copy-listed nested copied nested_copy
