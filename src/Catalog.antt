-- ===== src/Catalog.antt =====
-- `RobotFrameProfile`, `ToolSpec` and `ToolSpecCatalog` of src/forge_gateway/domain/tool_catalog.py.
-- What the model's types already say is not tested again.
pub mod Bindings
pub mod Tests
use adapter_forge_gateway.Prelude.{
  String, Bool, true, false, not, ◌||◌, Option, none, some, List, [], ◌∷◌, Eq, ◌==◌, any, map,
  string_eq, pair_eq, if◌then◌else◌,
}
use adapter_forge_gateway.Raise.{Result, ok, err, value_error, raise_if, ◌>>◌}
use adapter_forge_gateway.Dict.{Dict, lookup, insert, elem}
use adapter_forge_gateway.Sorted.{sorted}
use adapter_forge_gateway.Endpoint.Json.{Fields}
use adapter_forge_gateway.Endpoint.Values.{ToolSemantics, ToolOperationDescriptor}
use adapter_forge_gateway.Directory.State.{RegisteredEndpoint, endpoint_id_of}
use adapter_forge_gateway.Directory.Manage.{is_blank, is_named}

pub data Axis : Type 0 where
  x_axis y_axis z_axis : Axis

-- `sign` is 1 or -1.
pub record Direction : Type 0 where
  pub frame : String
  pub axis : Axis
  pub is_negative : Bool

pub record RobotFrameProfile : Type 0 where
  pub robot_id : String
  pub base_frame : String
  pub tool_frame : Option String
  pub frames : Dict String String
  pub directions : Dict String Direction

pub record ToolSpec : Type 0 where
  pub tool_id : String
  pub implementation_id : String
  pub endpoint_id : String
  pub operation : String
  pub semantics : ToolSemantics
  pub description : String
  pub input_schema : Fields
  pub output_schema : Fields
  pub readiness : List String
  pub robot_frame_profile : Option RobotFrameProfile

-- `_non_blank`
unfoldable pub non_blank : String → Result (Unit {0})
non_blank value = raise_if (is_blank value) value_error

abbrev pub optional_non_blank : Option String → Result (Unit {0})
optional_non_blank none = ok tt
optional_non_blank (some value) = non_blank value

abbrev pub is_bad_frame : String × String → Bool
is_bad_frame (key, value) = is_blank key || is_blank value

abbrev pub is_bad_direction : String × Direction → Bool
is_bad_direction (name, direction) = is_blank name || is_blank direction.frame

-- `RobotFrameProfile.__post_init__`
unfoldable pub check_profile : RobotFrameProfile → Result (Unit {0})
check_profile p =
    non_blank p.robot_id
    >> (non_blank p.base_frame
        >> (optional_non_blank p.tool_frame
            >> (raise_if (any is_bad_frame p.frames) value_error
                >> raise_if (any is_bad_direction p.directions) value_error)))

-- `len(xs) != len(set(xs))`
unfoldable pub has_repeat : {A : Type 0} ⦃e : Eq A⦄ → List A → Bool
has_repeat [] = false
has_repeat (x ∷ xs) = elem x xs || has_repeat xs

-- `ToolSpec.__post_init__`
unfoldable pub check_spec : ToolSpec → Result (Unit {0})
check_spec s =
    non_blank s.tool_id
    >> (non_blank s.implementation_id
        >> (non_blank s.endpoint_id
            >> (non_blank s.operation
                >> (raise_if (any is_blank s.readiness) value_error
                    >> raise_if (has_repeat s.readiness) value_error))))

abbrev pub binding_of : ToolSpec → String × String
binding_of s = (s.endpoint_id, s.operation)

abbrev pub id_of : ToolSpec → String
id_of s = s.tool_id

instance abbrev pub binding_eq : Eq (String × String)
binding_eq = pair_eq string_eq string_eq

-- The dict comprehension of `__init__`.
unfoldable pub specs_from : List ToolSpec → Dict String ToolSpec → Dict String ToolSpec
specs_from [] d = d
specs_from (s ∷ specs) d = specs_from specs (insert s.tool_id s d)

pub record ToolSpecCatalog : Type 0 where
  pub specs : Dict String ToolSpec

-- `__init__`
unfoldable pub init : List ToolSpec → Result ToolSpecCatalog
init specs =
    raise_if (has_repeat (map id_of specs)) value_error
    >> (raise_if (has_repeat (map binding_of specs)) value_error
        >> ok (record { specs = specs_from specs [] }))

unfoldable pub get : String → ToolSpecCatalog → Option ToolSpec
get tool_id c = lookup tool_id c.specs

abbrev pub specs_of : Dict String ToolSpec → List ToolSpec
specs_of [] = []
specs_of ((k, s) ∷ d) = s ∷ specs_of d

-- `list`
unfoldable pub list_specs : ToolSpecCatalog → List ToolSpec
list_specs c = specs_of (sorted c.specs)

-- `next((item for item in operations if item.name == name), None)`
unfoldable pub find_operation :
    String → List ToolOperationDescriptor → Option ToolOperationDescriptor
find_operation name [] = none
find_operation name (o ∷ os) = if is_named name o then some o else find_operation name os

abbrev pub same_semantics : ToolSemantics → ToolSemantics → Bool
same_semantics ToolSemantics.query ToolSemantics.query = true
same_semantics ToolSemantics.action ToolSemantics.action = true
same_semantics ToolSemantics.session ToolSemantics.session = true
same_semantics _ _ = false

abbrev pub check_bound :
    ToolSpec → RegisteredEndpoint → Option ToolOperationDescriptor → Result (Unit {0})
check_bound spec registration none = err value_error
check_bound spec registration (some operation) =
    raise_if (not (endpoint_id_of registration == spec.endpoint_id)) value_error
    >> raise_if (not (same_semantics operation.semantics spec.semantics)) value_error

unfoldable pub validate_binding : ToolSpec → RegisteredEndpoint → Result (Unit {0})
validate_binding spec registration =
    check_bound spec registration (find_operation spec.operation registration.descriptor.operations)
