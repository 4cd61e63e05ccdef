-- ===== src/Endpoint/Checks.antt =====
-- The `__post_init__` checks of src/forge_tool/endpoint/models.py, and `_json_copy`. What the types of
-- the model already say is not tested again: that a field is a string, a bool or one of its literals,
-- and that a string has no surrogates, except in a JSON value, where it may have them.
use Prim.Native.Char.{code}
use adapter_forge_gateway.Prelude.{
  ℕ, suc, ◌/◌, ◌%◌, String, Bool, true, false, not, ◌&&◌, ◌||◌, List, [], ◌∷◌, ◌==◌, ltb, leb, any,
  is_some, nat_eq, string_eq,
}
use adapter_forge_gateway.Prelude.Int.{pos_part, neg_part}
use adapter_forge_gateway.Raise.{Result, ok, value_error, ◌>>=◌, ◌>>◌, raise_if}
use adapter_forge_gateway.Endpoint.Json.{
  Json, null, bool, int, float, text, arr, tuple, obj, Items, nil, cons, Fields, end, field,
}
use adapter_forge_gateway.Endpoint.Values.{
  ToolSemantics, ExecutionPhase, ToolResultStatus, ToolError, ToolResult, ToolExecutionStatus,
  ToolOperationDescriptor, ToolEndpointDescriptor,
}

-- `_MAX_SAFE_JSON_INTEGER`
abbrev pub max_json_integer : ℕ
max_json_integer = 9_007_199_254_740_991

-- `_is_unicode_whitespace`
unfoldable pub is_unicode_whitespace : ℕ → Bool
is_unicode_whitespace c =
    leb 0x09 c && leb c 0x0d
    || c == 0x20
    || c == 0x85
    || c == 0xa0
    || c == 0x1680
    || c == 0x2028
    || c == 0x2029
    || c == 0x202f
    || c == 0x205f
    || c == 0x3000
    || leb 0x2000 c && leb c 0x200a

-- `_is_blank`
unfoldable pub is_blank_text : String → Bool
is_blank_text String.[] = true
is_blank_text (String.◌∷◌ c s) = is_unicode_whitespace (code c) && is_blank_text s

-- `_require_nonempty`
unfoldable pub require_nonempty : String → Result (Unit {0})
require_nonempty value = raise_if (is_blank_text value) value_error

abbrev pub is_surrogate : ℕ → Bool
is_surrogate c = leb 0xd800 c && leb c 0xdfff

-- `math.isfinite` of a binary64: the exponent's eleven bits are not all ones.
abbrev pub is_finite : ℕ → Bool
is_finite bits = not ((bits / 4_503_599_627_370_496) % 2048 == 2047)

-- `_json_copy`
unfoldable mutual
  pub json_copy : ℕ → Json → Result Json
  json_copy depth null = raise_if (ltb 64 depth) value_error >> ok null
  json_copy depth (bool b) = raise_if (ltb 64 depth) value_error >> ok (bool b)
  json_copy depth (int i) =
      raise_if (ltb 64 depth) value_error
      >> (raise_if (ltb max_json_integer (pos_part i) || ltb max_json_integer (neg_part i))
            value_error
          >> ok (int i))
  json_copy depth (float x) =
      raise_if (ltb 64 depth) value_error
      >> (raise_if (not (is_finite x)) value_error >> ok (float x))
  json_copy depth (text s) =
      raise_if (ltb 64 depth) value_error
      >> (raise_if (any is_surrogate s) value_error >> ok (text s))
  json_copy depth (arr xs) =
      raise_if (ltb 64 depth) value_error >> (items_copy (suc depth) xs >>= λ ys. ok (arr ys))
  json_copy depth (tuple xs) =
      raise_if (ltb 64 depth) value_error >> (items_copy (suc depth) xs >>= λ ys. ok (arr ys))
  json_copy depth (obj fs) =
      raise_if (ltb 64 depth) value_error >> (fields_copy (suc depth) fs >>= λ gs. ok (obj gs))

  pub items_copy : ℕ → Items → Result Items
  items_copy depth nil = ok nil
  items_copy depth (cons x xs) =
      json_copy depth x >>= λ y. items_copy depth xs >>= λ ys. ok (cons y ys)

  pub fields_copy : ℕ → Fields → Result Fields
  fields_copy depth end = ok end
  fields_copy depth (field k x fs) =
      raise_if (any is_surrogate k) value_error
      >> (json_copy depth x >>= λ y. fields_copy depth fs >>= λ gs. ok (field k y gs))

-- `_mapping_copy`
unfoldable pub mapping_copy : Fields → Result Fields
mapping_copy fs = fields_copy 1 fs

-- `ToolOperationDescriptor`
abbrev pub check_semantics : ToolSemantics → Bool → Bool → Bool → Result (Unit {0})
check_semantics ToolSemantics.query cancellable stoppable status_supported =
    raise_if (cancellable || stoppable || status_supported) value_error
check_semantics ToolSemantics.action cancellable stoppable status_supported =
    raise_if stoppable value_error >> raise_if (not status_supported) value_error
check_semantics ToolSemantics.session cancellable stoppable status_supported =
    raise_if cancellable value_error >> raise_if (not status_supported) value_error

unfoldable pub check_operation : ToolOperationDescriptor → Result (Unit {0})
check_operation o =
    require_nonempty o.name
    >> (check_semantics o.semantics o.cancellable o.stoppable o.status_supported
        >> raise_if (not (leb 1 o.max_concurrency && leb o.max_concurrency max_json_integer))
            value_error)

abbrev pub same_name : String → ToolOperationDescriptor → Bool
same_name name o = o.name == name

unfoldable pub has_duplicate : List ToolOperationDescriptor → Bool
has_duplicate [] = false
has_duplicate (o ∷ os) = any (same_name o.name) os || has_duplicate os

abbrev pub is_empty : List ToolOperationDescriptor → Bool
is_empty [] = true
is_empty (_ ∷ _) = false

-- `ToolEndpointDescriptor`
unfoldable pub check_endpoint : ToolEndpointDescriptor → Result (Unit {0})
check_endpoint d =
    require_nonempty d.protocol_version
    >> (require_nonempty d.endpoint_id
        >> (raise_if (is_empty d.operations) value_error
            >> raise_if (has_duplicate d.operations) value_error))

-- `ToolError`, as its fields are stored.
unfoldable pub check_error : ToolError → Result ToolError
check_error e =
    require_nonempty e.code
    >> (require_nonempty e.message
        >> (mapping_copy e.details >>= λ details. ok (record e { details = details })))

-- `self.status in ("failed", "unknown")`
abbrev pub result_requires_error : ToolResultStatus → Bool
result_requires_error ToolResultStatus.failed = true
result_requires_error ToolResultStatus.unknown = true
result_requires_error _ = false

abbrev pub bool_differs : Bool → Bool → Bool
bool_differs true b = not b
bool_differs false b = b

-- `ToolResult`
unfoldable pub check_result : ToolResult → Result ToolResult
check_result r =
    raise_if (bool_differs (result_requires_error r.status) (is_some r.error)) value_error
    >> (mapping_copy r.outputs >>= λ outputs. ok (record r { outputs = outputs }))

-- `self.phase in ("failed", "unknown")`
abbrev pub phase_requires_error : ExecutionPhase → Bool
phase_requires_error ExecutionPhase.failed = true
phase_requires_error ExecutionPhase.unknown = true
phase_requires_error _ = false

-- `ToolExecutionStatus`
unfoldable pub check_status : ToolExecutionStatus → Result ToolExecutionStatus
check_status s =
    raise_if (bool_differs (phase_requires_error s.phase) (is_some s.error)) value_error
    >> (mapping_copy s.details >>= λ details. ok (record s { details = details }))
