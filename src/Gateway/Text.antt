-- ===== src/Gateway/Text.antt =====
-- The texts that src/forge_gateway/services/tool_gateway_service.py puts together.
use Prim.Native.String.{◌++◌}
use adapter_forge_gateway.Prelude.{String, List, [], ◌∷◌}

-- An f-string, by its parts.
abbrev pub text : List String → String
text [] = ""
text (part ∷ parts) = part ++ text parts
