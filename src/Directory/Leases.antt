-- ===== src/Directory/Leases.antt =====
-- What `register_with_change` promises: the directory stays sound, no live lease of another route is
-- touched, and what is granted is what was asked for.
use adapter_forge_gateway.Prelude.{
  not, ◌∷◌, ◌&&◌, true, Option-cases, ◌==◌, all, Bool, if◌then◌else◌, length, Option, List, [], ℕ,
  ◌+◌, ◌≤◌, ◌<◌, String, ◌≡◌, refl, ◌≢◌, sym, subst, none, some, arith, string_eq, inl, inr, ◌⊎◌,
}
use adapter_forge_gateway.Raise.{Exception, ok, err, runtime_error, assertion_error}
use adapter_forge_gateway.Directory.Resolving.{live, live-without}
use adapter_forge_gateway.Endpoint.Values.{ToolOperationDescriptor, ToolSemantics}
use adapter_forge_gateway.Dict.{lookup, insert, lookup-insert}
use adapter_forge_gateway.Dict.Distinct.{insert-IsDistinct}
use adapter_forge_gateway.Dict.Inversion.{lookup-insert_inv, lookup-insert_self}
use adapter_forge_gateway.Directory.State.{
  route_beq, max_safe_integer, ToolProviderRouteIdentity, route_beq_iff, RegisteredEndpoint,
  endpoint_id_of, EndpointDirectory, expired,
}
use adapter_forge_gateway.Endpoint.Responses.{RegistryStatus}
use adapter_forge_gateway.Directory.Register.{
  is_supported, takes_revision, additional_revision, RegisterRequest, EndpointDirectoryMutation,
  accept_with, reject_with, leased, renewed, register_with_change,
}
use adapter_forge_gateway.Directory.Expiry.{unexpired-eq-lookup, IsValid, without, lookup-without}
use adapter_forge_gateway.Directory.Cases.{Outcome, registered, MayRegister, register_cases}

-- An insertion of a sound registration under its own endpoint, at a revision that may have grown.
insert-IsValid :
    (s : EndpointDirectory) (n : ℕ) (k : String) (r : RegisteredEndpoint)
    → IsValid s
    → s.revision ≤ n
    → n ≤ max_safe_integer
    → endpoint_id_of r ≡ k
    → r.registry_revision ≤ n
    → IsValid (record s { revision = n; current = insert k r s.current })
insert-IsValid s n k r v grows bound at given = record {
  leases = v.leases;
  bounded = bound;
  distinct = insert-IsDistinct k r s.current v.distinct;
  registrations = λ j q h. elim (lookup-insert_inv k j r q s.current h) [
    | inl (same_key, same) ↦ record {
      keyed = ground (arith, at, same_key, same);
      given = ground (arith, given, same);
    }
    | inr (_, old) ↦
        let before = v.registrations j q old in
        record { keyed = before.keyed; given = omega (arith, before.given) }
  ];
}

-- The request would start a lease: there is none, or the route's is of another instance.
abbrev pub starts_lease :
    RegisterRequest → ToolProviderRouteIdentity → Option RegisteredEndpoint → Bool
starts_lease request route none = true
starts_lease request route (some current) =
    route_beq current.route route && elim request.endpoint_instance_id [
      | none ↦ true
      | some instance_id ↦ not (instance_id == current.endpoint_instance_id)
    ]

takes_revision-starts_lease :
    (request : RegisterRequest) (route : ToolProviderRouteIdentity)
    (current : Option RegisteredEndpoint)
    → takes_revision current route request.endpoint_instance_id ≡ starts_lease request route current
takes_revision-starts_lease request route none = refl
takes_revision-starts_lease request route (some current) =
    elim (Option-cases request.endpoint_instance_id) [
      | inl e ↦ rw e refl
      | inr (instance_id, e) ↦ rw e refl
    ]

all_supported : (operations : List ToolOperationDescriptor) → all is_supported operations ≡ true
all_supported [] = refl
all_supported (o ∷ operations) =
    elim o.semantics
        as (λ semantics. o.semantics ≡ semantics → all is_supported (o ∷ operations) ≡ true) [
          | ToolSemantics.query ↦ λ e. ground (arith, e, all_supported operations)
          | ToolSemantics.action ↦ λ e. ground (arith, e, all_supported operations)
          | ToolSemantics.session ↦ λ e. ground (arith, e, all_supported operations)
        ]
      refl

module _ (request : RegisterRequest) (route : ToolProviderRouteIdentity) (now : ℕ)
    (s : EndpointDirectory) (v : IsValid s) where
  abbrev after : EndpointDirectory
  after = (register_with_change request route now s).1

  abbrev base : EndpointDirectory
  base = without (expired now s) s

  registered-IsValid :
      (instance_id : String)
      → IsValid base
      → base.revision < max_safe_integer
      → IsValid (registered request instance_id route now base)
  unfolding leased
  registered-IsValid instance_id b room =
      insert-IsValid base (base.revision + 1) request.descriptor.endpoint_id _ b (omega arith)
        (omega arith) refl (omega arith)

  renewed-IsValid :
      (current : RegisteredEndpoint)
      → IsValid base
      → lookup request.descriptor.endpoint_id base.current ≡ some current
      → IsValid (renewed current request.descriptor.endpoint_id now base)
  unfolding renewed
  renewed-IsValid current b held =
      let old = b.registrations request.descriptor.endpoint_id current held in
      insert-IsValid base base.revision request.descriptor.endpoint_id _ b (omega arith) b.bounded
        old.keyed old.given

  -- Registering keeps the directory sound, on every branch and also when it raises: its revision
  -- stays within the safe integers, and each endpoint has one registration, under its own ID and with
  -- a revision that has been given out.
  pub register-IsValid : IsValid after
  unfolding accept_with reject_with
  register-IsValid =
      register_cases (λ o. IsValid o.1) request route now s v (λ _. v) (λ b _. b) (λ b _ _ _. b)
        (λ b current held _ _ _. renewed-IsValid current b held)
        (λ b instance_id _ _ _ _ room. registered-IsValid instance_id b room)

  -- The revision number that the registration would come to.
  abbrev pub spent : ℕ
  spent =
      s.revision
      + length (expired now s)
      + (if request.descriptor.endpoint_id == route.endpoint_id
            && starts_lease request route
                (live now (lookup request.descriptor.endpoint_id s.current))
          then 1
          else 0)

  additional_revision-spent : additional_revision request route (expired now s) s ≡ (
      if request.descriptor.endpoint_id == route.endpoint_id
        && starts_lease request route (live now (lookup request.descriptor.endpoint_id s.current))
      then 1
      else 0)
  unfolding additional_revision
  additional_revision-spent = ground (
    arith,
    all_supported request.descriptor.operations,
    unexpired-eq-lookup s v now request.descriptor.endpoint_id,
    live-without now s v request.descriptor.endpoint_id,
    takes_revision-starts_lease request route
        (live now (lookup request.descriptor.endpoint_id s.current)),
  )

  -- Registering raises in two cases only. Either the revision number would pass 2^53 - 1, with one
  -- revision for each lease that has run out and one more if the request is for the route's endpoint
  -- and would start a lease there, since no lease is live there or the route's live lease is of
  -- another instance; then nothing changes. Or the request has no instance ID.
  pub register_atomic :
      (x : Exception)
      → (register_with_change request route now s).0 ≡ err x
      → ((x ≡ runtime_error) × (9_007_199_254_740_991 < spent) × (after ≡ s))
        ⊎ ((x ≡ assertion_error) × (request.endpoint_instance_id ≡ none))
  unfolding accept_with reject_with
  register_atomic x =
      register_cases
        (λ o.
          o.0 ≡ err x
          → ((x ≡ runtime_error) × (9_007_199_254_740_991 < spent) × (o.1 ≡ s))
            ⊎ ((x ≡ assertion_error) × (request.endpoint_instance_id ≡ none)))
        request route now s v
        (λ many h. inl (cc, omega (arith, many, additional_revision-spent), refl))
        (λ _ missing h. inr (cc, missing)) (λ _ _ _ _ h. absurd (cc)) (λ _ _ _ _ _ _ h. absurd (cc))
        (λ _ _ _ _ _ _ _ h. absurd (cc))

  base_live :
      (k : String) (r : RegisteredEndpoint) → lookup k base.current ≡ some r → now < r.expires_at
  base_live k r h = ground (arith, lookup-without s v now k, h)

  insert_live :
      (k j : String) (new r : RegisteredEndpoint)
      → now < new.expires_at
      → lookup j (insert k new base.current) ≡ some r
      → now < r.expires_at
  insert_live k j new r fresh h = elim (lookup-insert_inv k j new r base.current h) [
    | inl (_, same) ↦ subst (λ (q : RegisteredEndpoint). now < q.expires_at) same fresh
    | inr (_, old) ↦ base_live j r old
  ]

  lease_ttl-base : base.lease_ttl_ms ≡ s.lease_ttl_ms
  unfolding without
  lease_ttl-base = refl

  -- When registering returns, no lease in the directory has run out.
  pub register_live :
      (m : EndpointDirectoryMutation) (k : String) (r : RegisteredEndpoint)
      → (register_with_change request route now s).0 ≡ ok m
      → lookup k after.current ≡ some r
      → now < r.expires_at
  unfolding accept_with reject_with renewed leased
  register_live m k r =
      register_cases (λ o. o.0 ≡ ok m → lookup k o.1.current ≡ some r → now < r.expires_at) request
        route now s v (λ _ h. absurd (cc)) (λ _ _ h. absurd (cc)) (λ _ _ _ _ h. base_live k r)
        (λ b current _ _ _ _ h. insert_live _ k _ r (omega (arith, b.leases)))
        (λ b _ _ _ _ _ _ h. insert_live _ k _ r (omega (arith, b.leases)))

  base_held :
      (k : String) (r : RegisteredEndpoint)
      → lookup k s.current ≡ some r
      → now < r.expires_at
      → lookup k base.current ≡ some r
  base_held k r held live = ground (arith, lookup-without s v now k)

  insert_other :
      (k : String) (r new : RegisteredEndpoint)
      → lookup k base.current ≡ some r
      → request.descriptor.endpoint_id ≢ k
      → lookup k (insert request.descriptor.endpoint_id new base.current) ≡ some r
  insert_other k r new held other = ground (
    arith,
    lookup-insert request.descriptor.endpoint_id k new base.current,
    string_eq.beq_iff request.descriptor.endpoint_id k,
  )

  -- A registration that is live at `now` and belongs to another configured route stays as it is,
  -- whatever is asked for.
  pub register_respects_routes :
      (k : String) (r : RegisteredEndpoint)
      → lookup k s.current ≡ some r
      → now < r.expires_at
      → r.route ≢ route
      → lookup k after.current ≡ some r
  unfolding accept_with reject_with renewed leased
  register_respects_routes k r held live foreign =
      let kept = base_held k r held live in
      register_cases (λ o. lookup k o.1.current ≡ some r) request route now s v (λ _. held)
        (λ _ _. kept) (λ _ _ _ _. kept)
        (λ _ current mine same _ _. insert_other k r _ kept (renews_other current mine same))
        (λ _ instance_id _ _ _ may _. insert_other k r _ kept (starts_other instance_id may))
    where
      at_endpoint :
          request.descriptor.endpoint_id ≡ k
          → lookup request.descriptor.endpoint_id base.current ≡ some r
      at_endpoint e =
          subst (λ (x : String). lookup x base.current ≡ some r) (sym e) (base_held k r held live)

      renews_other :
          (current : RegisteredEndpoint)
          → lookup request.descriptor.endpoint_id base.current ≡ some current
          → current.route ≡ route
          → request.descriptor.endpoint_id ≢ k
      renews_other current mine same e = foreign (ground (arith, at_endpoint e, mine, same))

      starts_other :
          (instance_id : String)
          → MayRegister request instance_id route base
          → request.descriptor.endpoint_id ≢ k
      starts_other instance_id may e =
          foreign (ground (arith, at_endpoint e, may, route_beq_iff r.route route))

  -- What an accepted registration has put in the directory.
  pub record IsGranted (o : Outcome) : Type 0 where
    pub registration : RegisteredEndpoint
    pub held : lookup request.descriptor.endpoint_id o.1.current ≡ some registration
    pub descriptor : registration.descriptor ≡ request.descriptor
    pub route_kept : registration.route ≡ route
    pub instance_kept : request.endpoint_instance_id ≡ some registration.endpoint_instance_id
    pub term : registration.expires_at ≡ now + s.lease_ttl_ms
    pub revision_given : registration.registry_revision ≤ o.1.revision

  -- When registering returns an accepted response, the endpoint's current registration has the
  -- request's descriptor and instance and the route that it came by, with a full term from `now`.
  pub register-IsGranted :
      (m : EndpointDirectoryMutation)
      → (register_with_change request route now s).0 ≡ ok m
      → m.response.status ≡ RegistryStatus.accepted
      → IsGranted (register_with_change request route now s)
  unfolding accept_with reject_with renewed leased without
  register-IsGranted m =
      register_cases (λ o. o.0 ≡ ok m → m.response.status ≡ RegistryStatus.accepted → IsGranted o)
        request route now s v (λ _ h. absurd (cc)) (λ _ _ h. absurd (cc))
        (λ _ _ _ _ h accepted. absurd (ground arith))
        (λ b current mine same named unchanged h _. record {
          registration = _;
          held = lookup-insert_self request.descriptor.endpoint_id _ base.current;
          descriptor = unchanged;
          route_kept = same;
          instance_kept = named;
          term = refl;
          revision_given = (b.registrations request.descriptor.endpoint_id current mine).given;
        })
        (λ _ instance_id _ named _ _ _ h _. record {
          registration = _;
          held = lookup-insert_self request.descriptor.endpoint_id _ base.current;
          descriptor = refl;
          route_kept = refl;
          instance_kept = named;
          term = refl;
          revision_given = omega arith;
        })
