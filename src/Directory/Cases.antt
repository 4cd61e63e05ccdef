-- ===== src/Directory/Cases.antt =====
-- A rule for `register_with_change`: it ends in one of five ways.
use adapter_forge_gateway.Prelude.{
  ℕ, ◌+◌, ◌≤◌, ◌<◌, String, ◌≡◌, refl, Bool, true, Option, none, some, List, [], ◌∷◌, ◌++◌, ◌==◌,
  arith, length, all, string_eq, inl, inr, Bool-cases, Option-cases, dec_lt,
}
use adapter_forge_gateway.Raise.{Result, ok, err, runtime_error, assertion_error}
use adapter_forge_gateway.Dict.{lookup}
use adapter_forge_gateway.Endpoint.Equality.{descriptor_beq, descriptor_beq_iff}
use adapter_forge_gateway.Directory.State.{
  max_safe_integer, ToolProviderRouteIdentity, route_beq, route_beq_iff, RegisteredEndpoint,
  EndpointDirectory, ensure_revision_capacity, expired,
}
use adapter_forge_gateway.Endpoint.Responses.{RegistryOperation}
use adapter_forge_gateway.Directory.Register.{
  RegisterRequest, EndpointDirectoryMutation, accept_with, reject_with, is_supported,
  takes_revision, additional_revision, leased, renewed, register_new, register_over, register_at,
  register_checked, register_with_change,
}
use adapter_forge_gateway.Directory.Expiry.{
  IsValid, without, without-IsValid, apply_expired_ok, next_revision_ok, unexpired-eq-lookup,
}

abbrev pub Outcome : Type 0
Outcome = Result EndpointDirectoryMutation × EndpointDirectory

-- The directory after a new registration has taken its revision.
abbrev pub registered :
    RegisterRequest → String → ToolProviderRouteIdentity → ℕ → EndpointDirectory → EndpointDirectory
registered request instance_id route now t =
    leased request instance_id route (t.revision + 1) now (record t { revision = t.revision + 1 })

-- What may replace a registration: an endpoint with none, or another instance on the same route.
abbrev pub MayRegister :
    RegisterRequest → String → ToolProviderRouteIdentity → EndpointDirectory → Type 0
MayRegister request instance_id route t =
    takes_revision (lookup request.descriptor.endpoint_id t.current) route (some instance_id) ≡ true

module _ {ℓ} (P : Outcome → Type ℓ) (request : RegisterRequest) (route : ToolProviderRouteIdentity)
    (now : ℕ) (gone : List RegisteredEndpoint) (t : EndpointDirectory)
    (rejected : (code message : String) (retryable : Bool)
      → P (reject_with RegistryOperation.register code message retryable gone t))
    (renewal : (current : RegisteredEndpoint)
      → lookup request.descriptor.endpoint_id t.current ≡ some current
      → current.route ≡ route
      → request.endpoint_instance_id ≡ some current.endpoint_instance_id
      → current.descriptor ≡ request.descriptor
      → P (
          accept_with RegistryOperation.register true gone
            (renewed current request.descriptor.endpoint_id now t)))
    (fresh : (instance_id : String) (removed : List RegisteredEndpoint)
      → request.endpoint_instance_id ≡ some instance_id
      → request.descriptor.endpoint_id ≡ route.endpoint_id
      → MayRegister request instance_id route t
      → t.revision < max_safe_integer
      → P (
          accept_with RegistryOperation.register true removed
            (registered request instance_id route now t))) where
  new_cases :
      (instance_id : String) (removed : List RegisteredEndpoint)
      → request.endpoint_instance_id ≡ some instance_id
      → request.descriptor.endpoint_id ≡ route.endpoint_id
      → MayRegister request instance_id route t
      → t.revision < max_safe_integer
      → P (register_new request instance_id route now removed t)
  unfolding register_new
  new_cases instance_id removed named at may room =
      rw (next_revision_ok t room) (fresh instance_id removed named at may room)

  over_cases :
      (instance_id : String) (current : RegisteredEndpoint)
      → request.endpoint_instance_id ≡ some instance_id
      → request.descriptor.endpoint_id ≡ route.endpoint_id
      → lookup request.descriptor.endpoint_id t.current ≡ some current
      → (MayRegister request instance_id route t → t.revision < max_safe_integer)
      → P (register_over request instance_id route now gone current t)
  unfolding register_over
  over_cases instance_id current named at held room =
      elim (Bool-cases (route_beq current.route route)) [
        | inr other ↦ rw (other, register_over) (rejected _ _ _)
        | inl mine ↦ elim (Bool-cases (current.endpoint_instance_id == instance_id)) [
          | inl same ↦ elim (Bool-cases (descriptor_beq current.descriptor request.descriptor)) [
            | inr changed ↦ rw (mine, same, changed, register_over) (rejected _ _ _)
            | inl unchanged ↦
                rw (mine, same, unchanged, register_over)
                  (renewal current held ((route_beq_iff current.route route).0 mine)
                    (ground (
                      arith,
                      named,
                      string_eq.beq_iff current.endpoint_instance_id instance_id,
                      same,
                    ))
                    ((descriptor_beq_iff current.descriptor request.descriptor).0 unchanged))
          ]
          | inr other ↦
              let may : MayRegister request instance_id route t = ground (
                arith,
                held,
                mine,
                other,
                string_eq.beq_iff current.endpoint_instance_id instance_id,
                string_eq.beq_iff instance_id current.endpoint_instance_id,
              ) in
              rw (mine, other, register_over)
                (new_cases instance_id (gone ++ current ∷ []) named at may (room may))
        ]
      ]

  at_cases :
      (instance_id : String) (found : Option RegisteredEndpoint)
      → request.endpoint_instance_id ≡ some instance_id
      → request.descriptor.endpoint_id ≡ route.endpoint_id
      → lookup request.descriptor.endpoint_id t.current ≡ found
      → (MayRegister request instance_id route t → t.revision < max_safe_integer)
      → P (register_at request instance_id route now gone found t)
  at_cases instance_id none named at held room =
      let may : MayRegister request instance_id route t = ground (arith, held) in
      new_cases instance_id gone named at may (room may)
  at_cases instance_id (some current) named at held room =
      over_cases instance_id current named at held room

  checked_cases :
      (request.endpoint_instance_id ≡ none → P (err assertion_error, t))
      → ((instance_id : String)
          → request.endpoint_instance_id ≡ some instance_id
          → request.descriptor.endpoint_id ≡ route.endpoint_id
          → all is_supported request.descriptor.operations ≡ true
          → MayRegister request instance_id route t
          → t.revision < max_safe_integer)
      → P (register_checked request route now gone t)
  unfolding register_checked register_new register_over leased
  checked_cases nameless room =
      elim (Bool-cases (request.descriptor.endpoint_id == route.endpoint_id)) [
        | inr other ↦ rw (other, register_checked) (rejected _ _ _)
        | inl at ↦ elim (Bool-cases (all is_supported request.descriptor.operations)) [
          | inr strange ↦ rw (at, strange, register_checked) (rejected _ _ _)
          | inl known ↦ elim (Option-cases request.endpoint_instance_id) [
            | inl missing ↦ rw (at, known, missing, register_checked) (nameless missing)
            | inr (instance_id, named) ↦
                let mine = (string_eq.beq_iff _ _).0 at in
                rw (at, known, named, register_checked)
                  (at_cases instance_id (lookup request.descriptor.endpoint_id t.current) named mine
                    refl (room instance_id named mine known))
          ]
        ]
      ]

module _ {ℓ} (P : Outcome → Type ℓ) (request : RegisterRequest) (route : ToolProviderRouteIdentity)
    (now : ℕ) (s : EndpointDirectory) (v : IsValid s) where
  abbrev left : EndpointDirectory
  left = without (expired now s) s

  additional_one :
      (instance_id : String)
      → request.endpoint_instance_id ≡ some instance_id
      → request.descriptor.endpoint_id ≡ route.endpoint_id
      → all is_supported request.descriptor.operations ≡ true
      → MayRegister request instance_id route left
      → additional_revision request route (expired now s) s ≡ 1
  unfolding additional_revision
  additional_one instance_id named at known may = ground (
    arith,
    named,
    at,
    known,
    may,
    string_eq.beq_iff request.descriptor.endpoint_id route.endpoint_id,
    unexpired-eq-lookup s v now request.descriptor.endpoint_id,
  )

  revision-left : left.revision ≡ s.revision + length (expired now s)
  unfolding without
  revision-left = refl

  ensure_exhausted :
      (n : ℕ)
      → max_safe_integer < s.revision + n
      → ensure_revision_capacity n s ≡ (err runtime_error, s)
  unfolding ensure_revision_capacity
  ensure_exhausted n h = ground arith

  ensure_ok :
      (n : ℕ) → s.revision + n ≤ max_safe_integer → ensure_revision_capacity n s ≡ (ok tt, s)
  unfolding ensure_revision_capacity
  ensure_ok n h = ground arith

  -- Either the revisions are exhausted and nothing happens, or the expired leases are taken out and
  -- the request is refused, has no instance ID, renews its own lease or starts a new one.
  pub register_cases :
      (max_safe_integer
          < s.revision
            + (length (expired now s) + additional_revision request route (expired now s) s)
        → P (err runtime_error, s))
      → (IsValid left → request.endpoint_instance_id ≡ none → P (err assertion_error, left))
      → (IsValid left
          → (code message : String) (retryable : Bool)
          → P (reject_with RegistryOperation.register code message retryable (expired now s) left))
      → (IsValid left
          → (current : RegisteredEndpoint)
          → lookup request.descriptor.endpoint_id left.current ≡ some current
          → current.route ≡ route
          → request.endpoint_instance_id ≡ some current.endpoint_instance_id
          → current.descriptor ≡ request.descriptor
          → P (
              accept_with RegistryOperation.register true
                (expired now s)
                (renewed current request.descriptor.endpoint_id now left)))
      → (IsValid left
          → (instance_id : String) (removed : List RegisteredEndpoint)
          → request.endpoint_instance_id ≡ some instance_id
          → request.descriptor.endpoint_id ≡ route.endpoint_id
          → MayRegister request instance_id route left
          → left.revision < max_safe_integer
          → P (
              accept_with RegistryOperation.register true removed
                (registered request instance_id route now left)))
      → P (register_with_change request route now s)
  unfolding register_with_change
  register_cases exhausted nameless rejected renewal fresh =
      elim (dec_lt max_safe_integer (s.revision + count)) [
        | yes h ↦ rw (ensure_exhausted count h) (exhausted h)
        | no h ↦
            let room : s.revision + count ≤ max_safe_integer = omega arith in
            let room' : s.revision + length (expired now s) ≤ max_safe_integer = omega arith in
            let valid = without-IsValid s v now room' in
            rw (ensure_ok count room) (
              rw (apply_expired_ok s v now room') (
                checked_cases P request route now (expired now s) left (rejected valid)
                  (renewal valid) (fresh valid) (nameless valid)
                  λ instance_id named at known may.
                    omega (arith, revision-left, additional_one instance_id named at known may)))
      ]
    where
      count : ℕ
      count = length (expired now s) + additional_revision request route (expired now s) s
