-- ===== src/Catalog/Tests.antt =====
-- The theorems on src/forge_gateway/domain/tool_catalog.py at a concrete catalog.
use adapter_forge_gateway.Prelude.{◌≡◌, refl, none, List, [], ◌∷◌}
use adapter_forge_gateway.Endpoint.Json.{end}
use adapter_forge_gateway.Endpoint.Values.{ToolSemantics}
use adapter_forge_gateway.Catalog.{ToolSpec, ToolSpecCatalog, has_repeat, specs_from, init, get}
use adapter_forge_gateway.Catalog.Bindings.{find_spec, get-find_spec, get-binding_unique}
use adapter_forge_gateway.Dict.{lookup, insert, elem}

abbrev look_spec : ToolSpec
look_spec = record {
  tool_id = "look";
  implementation_id = "camera";
  endpoint_id = "arm";
  operation = "look";
  semantics = ToolSemantics.query;
  description = "";
  input_schema = end;
  output_schema = end;
  readiness = [];
  robot_frame_profile = none;
}

abbrev two_specs : List ToolSpec
two_specs = look_spec ∷ record look_spec { tool_id = "move"; operation = "move" } ∷ []

abbrev two_specs_catalog : ToolSpecCatalog
two_specs_catalog = record { specs = specs_from two_specs [] }

get-find_spec_example : get "move" two_specs_catalog ≡ find_spec "move" two_specs
unfolding init has_repeat elem specs_from insert
get-find_spec_example = get-find_spec two_specs "move" refl

get-binding_unique_example : look_spec ≡ look_spec
unfolding init has_repeat elem specs_from insert get lookup
get-binding_unique_example =
    get-binding_unique two_specs "look" "look" look_spec look_spec {c = two_specs_catalog} refl refl
      refl refl
