-- ===== src/Directory/Leaving.antt =====
-- That `unregister_with_change` takes out the caller's own registration, and no other.
use adapter_forge_gateway.Prelude.{
  ℕ, ◌+◌, ◌<◌, ◌≡◌, refl, Bool, true, false, String, Option, none, some, is_some, List, [], length,
  ltb, arith, ◌&&◌, ◌==◌, ◌++◌, ◌∷◌, Bool-cases, inl, inr, if◌then◌else◌, string_eq,
}
use adapter_forge_gateway.Raise.{Result, ok, err}
use adapter_forge_gateway.Raise.Method.{gets, ◌>>=◌, ◌>>◌}
use adapter_forge_gateway.Dict.{lookup, erase}
use adapter_forge_gateway.Endpoint.Responses.{RegistryStatus, RegistryOperation}
use adapter_forge_gateway.Directory.State.{
  max_safe_integer, RegisteredEndpoint, EndpointDirectory, ensure_revision_capacity, expired,
  route_beq, endpoint_id_of, next_revision, delete, ToolProviderRouteIdentity,
}
use adapter_forge_gateway.Directory.Register.{
  UnregisterRequest, EndpointDirectoryMutation, accept_with, reject_with, unexpired,
}
use adapter_forge_gateway.Directory.Manage.{
  removes_current, unregister_at, unregister_instance, unregister_checked, unregister_with_change,
}
use adapter_forge_gateway.Directory.Expiry.{
  IsValid, without, without-IsValid, apply_expired_ok, next_revision_ok, delete_ok,
}
use adapter_forge_gateway.Directory.Resolving.{live, live-without}

-- The caller may leave: it names the route's endpoint and an instance, and the endpoint has no
-- registration or that instance's on that route.
abbrev pub may_leave :
    UnregisterRequest → ToolProviderRouteIdentity → Option RegisteredEndpoint → Bool
may_leave request route none =
    request.endpoint_id == route.endpoint_id && is_some request.endpoint_instance_id
may_leave request route (some current) = removes_current request route (some current)

abbrev pub answer_status : Result EndpointDirectoryMutation → Option RegistryStatus
answer_status (ok m) = some m.response.status
answer_status (err x) = none

abbrev pub answer_to : Bool → RegistryStatus
answer_to b = if b then RegistryStatus.accepted else RegistryStatus.rejected

-- The directory without the registration of an endpoint.
abbrev pub departed : Bool → String → EndpointDirectory → EndpointDirectory
departed leaves endpoint_id t =
    if leaves
    then record t { revision = t.revision + 1; current = erase endpoint_id t.current }
    else t

-- The answer, and the directory that is left, by the current registration.
pub record Leaves (request : UnregisterRequest) (route : ToolProviderRouteIdentity)
    (current : Option RegisteredEndpoint) (t : EndpointDirectory)
    (o : Result EndpointDirectoryMutation × EndpointDirectory) : Type 0 where
  pub answers : answer_status o.0 ≡ some (answer_to (may_leave request route current))
  pub leaves : o.1 ≡ departed (removes_current request route current) route.endpoint_id t

module _ (request : UnregisterRequest) (route : ToolProviderRouteIdentity)
    (gone : List RegisteredEndpoint) (t : EndpointDirectory) (v : IsValid t)
    (room : t.revision < max_safe_integer) where
  -- The branch that takes the registration out.
  remove_own :
      (r : RegisteredEndpoint)
      → lookup route.endpoint_id t.current ≡ some r
      → (next_revision
            >> (delete (endpoint_id_of r)
                >> accept_with RegistryOperation.unregister false (gone ++ r ∷ [])))
          t
        ≡ accept_with RegistryOperation.unregister false
            (gone ++ r ∷ [])
            (departed true route.endpoint_id t)
  unfolding ◌>>=◌ ◌>>◌
  remove_own r held =
      let keyed = (v.registrations route.endpoint_id r held).keyed in
      rw
        (
          next_revision_ok t room,
          keyed,
          delete_ok route.endpoint_id (record t { revision = t.revision + 1 }) r held,
        )
        refl

  leave_at :
      (instance_id : String) (current : Option RegisteredEndpoint)
      → request.endpoint_instance_id ≡ some instance_id
      → (request.endpoint_id == route.endpoint_id) ≡ true
      → lookup route.endpoint_id t.current ≡ current
      → Leaves request route current t (unregister_at instance_id route gone current t)
  unfolding accept_with reject_with ◌>>=◌ ◌>>◌
  leave_at instance_id none named at held = record {
    answers = ground (arith, named, at);
    leaves = refl;
  }
  leave_at instance_id (some r) named at held =
      let left = string_eq.beq_iff r.endpoint_instance_id instance_id in
      let right = string_eq.beq_iff instance_id r.endpoint_instance_id in
      elim (Bool-cases (route_beq r.route route)) [
        | inr foreign ↦ rw (foreign) (record {
          answers = ground (arith, named, at, foreign);
          leaves = ground (arith, named, at, foreign);
        })
        | inl mine ↦ elim (Bool-cases (r.endpoint_instance_id == instance_id)) [
          | inr stale ↦
              rw (mine, stale)
                (record {
                  answers = ground (arith, named, at, mine, stale, left, right);
                  leaves = ground (arith, named, at, mine, stale, left, right);
                })
          | inl same ↦
              rw (mine, same, remove_own r held)
                (record {
                  answers = ground (arith, named, at, mine, same, left, right);
                  leaves = ground (arith, named, at, mine, same, left, right);
                })
        ]
      ]

  leave_named :
      (instance_id : Option String) (current : Option RegisteredEndpoint)
      → request.endpoint_instance_id ≡ instance_id
      → (request.endpoint_id == route.endpoint_id) ≡ true
      → lookup route.endpoint_id t.current ≡ current
      → Leaves request route current t (unregister_instance instance_id route gone t)
  unfolding reject_with gets ◌>>=◌ ◌>>◌
  leave_named none none named at held = record {
    answers = ground (arith, named, at);
    leaves = refl;
  }
  leave_named none (some r) named at held = record {
    answers = ground (arith, named, at);
    leaves = ground (arith, named, at);
  }
  leave_named (some instance_id) current named at held =
      rw held (leave_at instance_id current named at held)

  leave_checked :
      (current : Option RegisteredEndpoint)
      → lookup route.endpoint_id t.current ≡ current
      → Leaves request route current t (unregister_checked request route gone t)
  unfolding unregister_checked reject_with
  leave_checked current held = elim (Bool-cases (request.endpoint_id == route.endpoint_id)) [
    | inl at ↦
        rw (unregister_checked, at) (leave_named request.endpoint_instance_id current refl at held)
    | inr other ↦ rw (unregister_checked, other) (elsewhere current other)
  ]
    where
      elsewhere :
          (o : Option RegisteredEndpoint)
          → (request.endpoint_id == route.endpoint_id) ≡ false
          → Leaves request route o t (
              reject_with RegistryOperation.unregister "FORGE_ENDPOINT_ROUTE_UNAUTHORIZED"
                "the configured provider route is not authorized for this endpoint" false gone t)
      elsewhere none other = record { answers = ground (arith, other); leaves = refl }
      elsewhere (some r) other = record {
        answers = ground (arith, other);
        leaves = ground (arith, other);
      }

-- With a revision for each lease that has run out, and one more, `unregister_with_change` takes those
-- leases out and answers. It accepts where the request names the route's endpoint and an instance, and
-- the endpoint has no live registration or that instance's on that route, and rejects otherwise. It
-- takes out that live registration, with a revision of its own, and changes nothing else.
pub unregister-Leaves :
    (request : UnregisterRequest) (route : ToolProviderRouteIdentity) (now : ℕ)
    (s : EndpointDirectory)
    → IsValid s
    → s.revision + length (expired now s) < max_safe_integer
    → Leaves request route
        (live now (lookup route.endpoint_id s.current))
        (without (expired now s) s)
        (unregister_with_change request route now s)
unfolding unregister_with_change ensure_revision_capacity gets ◌>>=◌ ◌>>◌ without
unregister-Leaves request route now s v room =
    let base = without (expired now s) s in
    let n =
      length (expired now s)
      + (if removes_current request route (unexpired route.endpoint_id (expired now s) s)
          then 1
          else 0) in
    let fits : ltb max_safe_integer (s.revision + n) ≡ false = ground (arith, room) in
    rw (unregister_with_change, fits, apply_expired_ok s v now (omega arith))
      (leave_checked request route (expired now s) base (without-IsValid s v now (omega arith)) room
        _ (live-without now s v route.endpoint_id))
