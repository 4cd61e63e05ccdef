-- ===== src/Directory/Tests.antt =====
-- The theorems on `EndpointDirectory` at concrete directories.
use mathlib.Core.List.{Memᴰ}
use adapter_forge_gateway.Prelude.{
  if◌then◌else◌, ◌+◌, ◌↔◌, ◌<◌, ◌≡◌, refl, sym, ◌≢◌, subst, false, true, none, some, [], ◌∷◌, arith,
  ◌⊎◌, string_eq, ap, length,
}
use adapter_forge_gateway.Raise.{err, ok, runtime_error, assertion_error}
use adapter_forge_gateway.Dict.{lookup, insert, elem}
use adapter_forge_gateway.Sorted.{sorted, place}
use adapter_forge_gateway.Endpoint.Values.{ToolSemantics, ToolEndpointDescriptor}
use adapter_forge_gateway.Directory.State.{
  endpoint_id_of, ToolProviderRouteIdentity, route_beq, RegisteredEndpoint, EndpointDirectory,
  next_revision, ensure_revision_capacity, expired_entries, expired, apply_expired,
  max_safe_integer,
}
use adapter_forge_gateway.Endpoint.Responses.{RegistryStatus, RegistryOperation}
use adapter_forge_gateway.Directory.Register.{
  RegisterRequest, EndpointDirectoryMutation, accept_with, unexpired, additional_revision, leased,
  register_new, register_checked, register_with_change, UnregisterRequest,
}
use adapter_forge_gateway.Directory.Manage.{
  ToolDirectorySnapshot, snapshot, resolve, is_blank, is_space, unregister_with_change,
}
use adapter_forge_gateway.Directory.Resolving.{live, offered, resolve-live}
use adapter_forge_gateway.Directory.Listing.{snapshot-live}
use adapter_forge_gateway.Directory.Leaving.{Leaves, unregister-Leaves}
use adapter_forge_gateway.Directory.Expiry.{IsValid, without}
use adapter_forge_gateway.Directory.Leases.{
  starts_lease, register-IsValid, register_atomic, register_live, register_respects_routes,
  register-IsGranted, IsGranted,
}

abbrev arm_route : ToolProviderRouteIdentity
arm_route = record { endpoint_id = "arm"; input_id = "arm_in"; output_id = "arm_out" }

abbrev other_route : ToolProviderRouteIdentity
other_route = record { endpoint_id = "arm"; input_id = "spare_in"; output_id = "spare_out" }

abbrev arm : ToolEndpointDescriptor
arm = record {
  protocol_version = "forge.tool.endpoint/v1alpha1";
  endpoint_id = "arm";
  operations =
      record {
        name = "move";
        semantics = ToolSemantics.action;
        cancellable = true;
        stoppable = false;
        status_supported = true;
        max_concurrency = 1;
      }
      ∷ [];
}

abbrev request : RegisterRequest
request = record { descriptor = arm; endpoint_instance_id = some "boot" }

abbrev empty : EndpointDirectory
empty = record { lease_ttl_ms = 15; revision = 0; current = [] }

abbrev arm_lease : RegisteredEndpoint
arm_lease = record {
  descriptor = arm;
  endpoint_instance_id = "boot";
  route = arm_route;
  registry_revision = 1;
  expires_at = 16;
}

abbrev one : EndpointDirectory
one = record { lease_ttl_ms = 15; revision = 1; current = ("arm", arm_lease) ∷ [] }

empty-IsValid : IsValid empty
unfolding lookup
empty-IsValid = record {
  leases = omega arith;
  bounded = omega arith;
  distinct = tt;
  registrations = λ k r h. absurd (ground (arith, h));
}

registered_one : (register_with_change request arm_route 1 empty).1 ≡ one
unfolding register_with_change expired expired_entries sorted additional_revision unexpired elem
    lookup ensure_revision_capacity apply_expired register_checked register_new next_revision leased
    insert accept_with route_beq
registered_one = refl

one-IsValid : IsValid one
one-IsValid =
    subst IsValid registered_one (register-IsValid request arm_route 1 empty empty-IsValid)

register-IsValid_example : IsValid (register_with_change request arm_route 20 one).1
register-IsValid_example = register-IsValid request arm_route 20 one one-IsValid

one_held : lookup "arm" one.current ≡ some arm_lease
unfolding lookup
one_held = refl

arm-ne-other : arm_route ≢ other_route
arm-ne-other e = ground (
  arith,
  ap (λ (r : ToolProviderRouteIdentity). r.input_id) e,
  string_eq.beq_iff "arm_in" "spare_in",
)

register_respects_routes_example :
    lookup "arm" (register_with_change request other_route 10 one).1.current ≡ some arm_lease
register_respects_routes_example =
    register_respects_routes request other_route 10 one one-IsValid "arm" arm_lease one_held
      (omega arith) arm-ne-other

abbrev nameless : RegisterRequest
nameless = record { descriptor = arm; endpoint_instance_id = none }

nameless_raises : (register_with_change nameless arm_route 1 empty).0 ≡ err assertion_error
unfolding register_with_change expired expired_entries sorted additional_revision unexpired elem
    lookup ensure_revision_capacity apply_expired register_checked route_beq
nameless_raises = refl

abbrev spent : EndpointDirectory
spent = record { lease_ttl_ms = 15; revision = max_safe_integer; current = [] }

spent-IsValid : IsValid spent
unfolding lookup
spent-IsValid = record {
  leases = omega arith;
  bounded = omega arith;
  distinct = tt;
  registrations = λ k r h. absurd (ground (arith, h));
}

spent_raises : (register_with_change request arm_route 1 spent).0 ≡ err runtime_error
unfolding register_with_change expired expired_entries sorted additional_revision unexpired elem
    lookup ensure_revision_capacity apply_expired register_checked route_beq
spent_raises = refl

register_atomic_example :
    ((runtime_error ≡ runtime_error)
      × (9_007_199_254_740_991
          < (max_safe_integer + length (expired 1 spent))
            + (if starts_lease request arm_route (live 1 (lookup "arm" spent.current))
                then 1
                else 0))
      × ((register_with_change request arm_route 1 spent).1 ≡ spent))
    ⊎ ((runtime_error ≡ assertion_error) × (request.endpoint_instance_id ≡ none))
register_atomic_example =
    register_atomic request arm_route 1 spent spent-IsValid runtime_error spent_raises

abbrev granted : EndpointDirectoryMutation
granted = record {
  response = record {
    operation = RegistryOperation.register;
    status = RegistryStatus.accepted;
    registry_revision = 1;
    lease_ttl_ms = some 15;
    error = none;
  };
  removed = [];
}

granted_reply : (register_with_change request arm_route 1 empty).0 ≡ ok granted
unfolding register_with_change expired expired_entries sorted additional_revision unexpired elem
    lookup ensure_revision_capacity apply_expired register_checked register_new next_revision leased
    insert accept_with route_beq
granted_reply = refl

register_live_example : 1 < 16
register_live_example =
    register_live request arm_route 1 empty empty-IsValid granted "arm" arm_lease granted_reply (
      subst (λ (d : EndpointDirectory). lookup "arm" d.current ≡ some arm_lease)
        (sym registered_one) one_held)

register-IsGranted_example :
    IsGranted request arm_route 1 empty empty-IsValid
      (register_with_change request arm_route 1 empty)
register-IsGranted_example =
    register-IsGranted request arm_route 1 empty empty-IsValid granted granted_reply refl

none_expired : length (expired 5 one) ≡ 0
unfolding expired expired_entries sorted place
none_expired = refl

resolve-live_example :
    resolve "arm" "move" 5 one
    ≡ (offered "move" (live 5 (lookup "arm" one.current)), without (expired 5 one) one)
unfolding is_blank is_space
resolve-live_example =
    resolve-live "arm" "move" 5 one one-IsValid (omega (arith, none_expired)) refl refl

abbrev leave_request : UnregisterRequest
leave_request = record { endpoint_id = "arm"; endpoint_instance_id = some "boot" }

-- An instance gives up its own lease.
unregister-Leaves_example :
    Leaves leave_request arm_route
      (live 5 (lookup "arm" one.current))
      (without (expired 5 one) one)
      (unregister_with_change leave_request arm_route 5 one)
unregister-Leaves_example =
    unregister-Leaves leave_request arm_route 5 one one-IsValid (omega (arith, none_expired))

snapshot-live_example :
    (m : ToolDirectorySnapshot) × (snapshot 5 one ≡ (ok m, without (expired 5 one) one))
    × (m.revision ≡ (without (expired 5 one) one).revision)
    × ((r : RegisteredEndpoint)
        → Memᴰ r m.registrations ↔ (live 5 (lookup (endpoint_id_of r) one.current) ≡ some r))
snapshot-live_example = snapshot-live 5 one one-IsValid (omega (arith, none_expired))
