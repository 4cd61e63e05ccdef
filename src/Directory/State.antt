-- ===== src/Directory/State.antt =====
-- The state of `EndpointDirectory` in src/forge_gateway/domain/tool_directory.py, its revision and the
-- expiry of leases. Times are exact natural numbers of milliseconds.
use adapter_forge_gateway.Prelude.{
  ℕ, ◌+◌, String, ◌≡◌, ◌↔◌, Bool, true, ◌&&◌, none, some, List, [], ◌∷◌, ◌==◌, ltb, leb, length,
  keep, string_eq, arith, if◌then◌else◌,
}
use adapter_forge_gateway.Raise.{Result, ok, err, value_error, key_error, runtime_error, Action}
use adapter_forge_gateway.Raise.State.{◌>>=◌, ◌>>◌, pure, gets}
use adapter_forge_gateway.Dict.{Dict, lookup, erase}
use adapter_forge_gateway.Sorted.{sorted, value_test}
use adapter_forge_gateway.Endpoint.Values.{ToolEndpointDescriptor}

-- `_MAX_SAFE_JSON_INTEGER`
abbrev pub max_safe_integer : ℕ
max_safe_integer = 9_007_199_254_740_991

pub record ToolProviderRouteIdentity : Type 0 where
  pub endpoint_id : String
  pub input_id : String
  pub output_id : String

unfoldable pub route_beq : ToolProviderRouteIdentity → ToolProviderRouteIdentity → Bool
route_beq a b =
    a.endpoint_id == b.endpoint_id && a.input_id == b.input_id && a.output_id == b.output_id

pub route_beq_iff : (a b : ToolProviderRouteIdentity) → (route_beq a b ≡ true) ↔ (a ≡ b)
unfolding route_beq
route_beq_iff a b = ground (
  arith,
  string_eq.beq_iff a.endpoint_id b.endpoint_id,
  string_eq.beq_iff a.input_id b.input_id,
  string_eq.beq_iff a.output_id b.output_id,
)

pub record RegisteredEndpoint : Type 0 where
  pub descriptor : ToolEndpointDescriptor
  pub endpoint_instance_id : String
  pub route : ToolProviderRouteIdentity
  pub registry_revision : ℕ
  pub expires_at : ℕ

-- The property `RegisteredEndpoint.endpoint_id`.
abbrev pub endpoint_id_of : RegisteredEndpoint → String
endpoint_id_of r = r.descriptor.endpoint_id

pub record EndpointDirectory : Type 0 where
  pub lease_ttl_ms : ℕ
  pub revision : ℕ
  pub current : Dict String RegisteredEndpoint

-- `__init__`
unfoldable pub init : ℕ → Result EndpointDirectory
init lease_ttl_ms =
    if leb 1 lease_ttl_ms && leb lease_ttl_ms max_safe_integer
    then ok (record { lease_ttl_ms = lease_ttl_ms; revision = 0; current = [] })
    else err value_error

-- `_next_revision_locked`
unfoldable pub next_revision : Action EndpointDirectory ℕ
next_revision s =
    if leb max_safe_integer s.revision
    then (err runtime_error, s)
    else (ok (s.revision + 1), record s { revision = s.revision + 1 })

-- `_ensure_revision_capacity_locked`, with the bound moved to the side where no number is negative.
unfoldable pub ensure_revision_capacity : ℕ → Action EndpointDirectory (Unit {0})
ensure_revision_capacity count s =
    if ltb max_safe_integer (s.revision + count) then (err runtime_error, s) else (ok tt, s)

abbrev pub is_expired : ℕ → RegisteredEndpoint → Bool
is_expired now r = leb r.expires_at now

abbrev pub values : Dict String RegisteredEndpoint → List RegisteredEndpoint
values [] = []
values ((k, r) ∷ d) = r ∷ values d

-- The entries of `_expired_locked`, in the order of their keys.
unfoldable pub expired_entries : ℕ → EndpointDirectory → Dict String RegisteredEndpoint
expired_entries now s = keep (value_test (is_expired now)) (sorted s.current)

-- `_expired_locked`
unfoldable pub expired : ℕ → EndpointDirectory → List RegisteredEndpoint
expired now s = values (expired_entries now s)

-- `del self._current[endpoint_id]`
unfoldable pub delete : String → Action EndpointDirectory (Unit {0})
delete endpoint_id s = elim (lookup endpoint_id s.current) [
  | none ↦ (err key_error, s)
  | some _ ↦ (ok tt, record s { current = erase endpoint_id s.current })
]

-- `_apply_expired_locked`
unfoldable pub apply_expired : List RegisteredEndpoint → Action EndpointDirectory (Unit {0})
apply_expired [] = pure tt
apply_expired (r ∷ rs) = do next_revision; delete (endpoint_id_of r); apply_expired rs

-- `_expire_locked`, which is `expire`.
unfoldable pub expire : ℕ → Action EndpointDirectory (List RegisteredEndpoint)
expire now = do
  gone ← gets (expired now)
  ensure_revision_capacity (length gone)
  apply_expired gone
  pure gone
