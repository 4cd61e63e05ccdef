-- ===== src/Wire/Text.antt =====
-- The texts that src/forge_tool/wire/envelope.py accepts.
use Prim.Native.Char.{code}
use adapter_forge_gateway.Prelude.{
  ℕ, String, Bool, true, false, ◌&&◌, ◌||◌, Option, none, some, leb, ◌==◌, nat_eq,
}
use adapter_forge_gateway.Raise.{Exception, Result, err, protocol_error, raise_if, ◌>>◌}

-- `ToolProtocolError` with the code of an invalid message.
abbrev pub invalid_message : Exception
invalid_message = protocol_error "FORGE_PROTOCOL_INVALID_MESSAGE"

abbrev pub invalid_payload : Exception
invalid_payload = protocol_error "FORGE_PROTOCOL_INVALID_PAYLOAD"

-- The test of `_validate_unicode` on one character.
unfoldable pub is_surrogate : ℕ → Bool
is_surrogate c = leb 0xd800 c && leb c 0xdfff

unfoldable pub has_surrogate : String → Bool
unfolding is_surrogate
has_surrogate String.[] = false
has_surrogate (String.◌∷◌ c s) = is_surrogate (code c) || has_surrogate s

-- `_is_unicode_whitespace`
unfoldable pub is_whitespace : ℕ → Bool
is_whitespace c =
    leb 0x09 c && leb c 0x0d
    || c == 0x20
    || c == 0x85
    || c == 0xa0
    || c == 0x1680
    || c == 0x2028
    || c == 0x2029
    || c == 0x202f
    || c == 0x205f
    || c == 0x3000
    || leb 0x2000 c && leb c 0x200a

-- `_is_blank`
unfoldable pub is_blank : String → Bool
unfolding is_whitespace
is_blank String.[] = true
is_blank (String.◌∷◌ c s) = is_whitespace (code c) && is_blank s

-- `_require_nonempty`
unfoldable pub require_nonempty : Option String → Result (Unit {0})
unfolding is_blank has_surrogate
require_nonempty none = err invalid_message
require_nonempty (some value) =
    raise_if (is_blank value) invalid_message >> raise_if (has_surrogate value) invalid_message

-- `_validate_unicode(…, payload=True)`
unfoldable pub validate_unicode : String → Result (Unit {0})
validate_unicode value = raise_if (has_surrogate value) invalid_payload
