-- ===== src/Directory/Soundness.antt =====
-- That every method of the directory keeps it sound, whether it returns or raises.
use adapter_forge_gateway.Prelude.{
  ℕ, String, ◌≡◌, Bool, true, false, Option, none, some, List, [], ◌∷◌, arith, leb, Bool-cases,
  Option-cases, inl, inr, string_eq, if◌then◌else◌,
}
use adapter_forge_gateway.Raise.{Exception, Result, ok, err, Action}
use adapter_forge_gateway.Raise.State.{◌>>=◌, ◌>>◌, then_do, pure, gets, raise}
use adapter_forge_gateway.Endpoint.Responses.{RegistryOperation}
use adapter_forge_gateway.Dict.{lookup, lookup-erase}
use adapter_forge_gateway.Dict.Distinct.{erase-IsDistinct}
use adapter_forge_gateway.Directory.State.{
  ToolProviderRouteIdentity, RegisteredEndpoint, EndpointDirectory, init, next_revision, delete,
  apply_expired, ensure_revision_capacity, expire, max_safe_integer, endpoint_id_of,
}
use adapter_forge_gateway.Directory.Register.{
  RegisterRequest, UnregisterRequest, accept_with, reject_with, register_with_change,
}
use adapter_forge_gateway.Directory.Manage.{
  unregister_at, unregister_instance, unregister_checked, unregister_with_change,
  validate_identifier, resolve_at, resolve, snapshot,
}
use adapter_forge_gateway.Directory.Expiry.{IsValid}
use adapter_forge_gateway.Directory.Leases.{register-IsValid}

pub record IsSafe {A : Type 0} (m : Action EndpointDirectory A) : Type 0 where
  pub at : (s : EndpointDirectory) → IsValid s → IsValid (m s).1

module _ {A B : Type 0} where
  bind-IsSafe :
      (m : Action EndpointDirectory A) (f : A → Action EndpointDirectory B)
      → IsSafe m
      → ((a : A) → IsSafe (f a))
      → IsSafe (m >>= f)
  bind-IsSafe m f hm hf = record { at = λ s v. after (m s) (hm.at s v) }
    where
      after : (r : Result A × EndpointDirectory) → IsValid r.1 → IsValid (then_do f r).1
      after (ok a, s) v = (hf a).at s v
      after (err x, s) v = v

  then-IsSafe :
      (m : Action EndpointDirectory A) (n : Action EndpointDirectory B)
      → IsSafe m
      → IsSafe n
      → IsSafe (m >> n)
  then-IsSafe m n hm hn = bind-IsSafe m (λ _. n) hm (λ _. hn)

module _ {A : Type 0} where
  pure-IsSafe : (a : A) → IsSafe (pure a)
  pure-IsSafe a = record { at = λ s v. v }

  raise-IsSafe : (x : Exception) → IsSafe (raise {A = A} x)
  raise-IsSafe x = record { at = λ s v. v }

  gets-IsSafe : (f : EndpointDirectory → A) → IsSafe (gets f)
  gets-IsSafe f = record { at = λ s v. v }

  if-IsSafe :
      (b : Bool) (m n : Action EndpointDirectory A)
      → IsSafe m
      → IsSafe n
      → IsSafe (if b then m else n)
  if-IsSafe true m n hm hn = hm
  if-IsSafe false m n hm hn = hn

next_revision-IsSafe : IsSafe next_revision
unfolding next_revision
next_revision-IsSafe = record {
  at = λ s v. elim (Bool-cases (leb max_safe_integer s.revision)) [
    | inl e ↦ rw (e, next_revision) v
    | inr e ↦
        rw (e, next_revision)
          (record {
            leases = v.leases;
            bounded = ground (arith, e);
            distinct = v.distinct;
            registrations = λ k r h.
                let old = v.registrations k r h in
                record { keyed = old.keyed; given = omega (arith, old.given) };
          })
  ];
}

delete-IsSafe : (endpoint_id : String) → IsSafe (delete endpoint_id)
unfolding delete
delete-IsSafe endpoint_id = record {
  at = λ s v. elim (Option-cases (lookup endpoint_id s.current)) [
    | inl e ↦ rw (e, delete) v
    | inr (r, e) ↦
        rw (e, delete)
          (record {
            leases = v.leases;
            bounded = v.bounded;
            distinct = erase-IsDistinct endpoint_id s.current v.distinct;
            registrations = λ k q h.
                let old =
                  v.registrations k q (ground (arith, h, lookup-erase endpoint_id k s.current)) in
                record { keyed = old.keyed; given = old.given };
          })
  ];
}

ensure-IsSafe : (count : ℕ) → IsSafe (ensure_revision_capacity count)
unfolding ensure_revision_capacity
ensure-IsSafe count = record { at = λ s v. ground (arith, v) }

apply_expired-IsSafe : (gone : List RegisteredEndpoint) → IsSafe (apply_expired gone)
unfolding apply_expired
apply_expired-IsSafe [] = pure-IsSafe tt
apply_expired-IsSafe (r ∷ rs) =
    bind-IsSafe _ _ next_revision-IsSafe
      (λ _. then-IsSafe _ _ (delete-IsSafe (endpoint_id_of r)) (apply_expired-IsSafe rs))

ruleset safe_steps = (
  bind-IsSafe, then-IsSafe, pure-IsSafe, raise-IsSafe, gets-IsSafe, if-IsSafe, next_revision-IsSafe,
  delete-IsSafe, ensure-IsSafe, apply_expired-IsSafe,
)

pub expire-IsSafe : (now : ℕ) → IsSafe (expire now)
unfolding expire
expire-IsSafe now = search safe_steps

validate_identifier-IsSafe : (value : String) → IsSafe (validate_identifier value)
unfolding validate_identifier
validate_identifier-IsSafe value = search safe_steps

resolve_at-IsSafe :
    (operation : String) (current : Option RegisteredEndpoint)
    → IsSafe (resolve_at operation current)
resolve_at-IsSafe operation none = search safe_steps
resolve_at-IsSafe operation (some current) = search safe_steps

pub resolve-IsSafe :
    (endpoint_id operation : String) (now : ℕ) → IsSafe (resolve endpoint_id operation now)
unfolding resolve
resolve-IsSafe endpoint_id operation now =
    search (safe_steps, validate_identifier-IsSafe, expire-IsSafe, resolve_at-IsSafe) depth 12

pub snapshot-IsSafe : (now : ℕ) → IsSafe (snapshot now)
unfolding snapshot
snapshot-IsSafe now = search (safe_steps, expire-IsSafe)

pub register-IsSafe :
    (request : RegisterRequest) (route : ToolProviderRouteIdentity) (now : ℕ)
    → IsSafe (register_with_change request route now)
register-IsSafe request route now = record { at = λ s v. register-IsValid request route now s v }

accept-IsSafe :
    (operation : RegistryOperation) (lease : Bool) (removed : List RegisteredEndpoint)
    → IsSafe (accept_with operation lease removed)
unfolding accept_with
accept-IsSafe operation lease removed = record { at = λ s v. v }

reject-IsSafe :
    (operation : RegistryOperation) (code message : String) (retryable : Bool)
    (removed : List RegisteredEndpoint)
    → IsSafe (reject_with operation code message retryable removed)
unfolding reject_with
reject-IsSafe operation code message retryable removed = record { at = λ s v. v }

unregister_at-IsSafe :
    (instance_id : String) (route : ToolProviderRouteIdentity) (gone : List RegisteredEndpoint)
    (current : Option RegisteredEndpoint)
    → IsSafe (unregister_at instance_id route gone current)
unregister_at-IsSafe instance_id route gone none = accept-IsSafe _ _ _
unregister_at-IsSafe instance_id route gone (some current) =
    search (safe_steps, accept-IsSafe, reject-IsSafe)

unregister_instance-IsSafe :
    (instance_id : Option String) (route : ToolProviderRouteIdentity)
    (gone : List RegisteredEndpoint)
    → IsSafe (unregister_instance instance_id route gone)
unregister_instance-IsSafe none route gone = reject-IsSafe _ _ _ _ _
unregister_instance-IsSafe (some instance_id) route gone = search (safe_steps, unregister_at-IsSafe)

pub unregister-IsSafe :
    (request : UnregisterRequest) (route : ToolProviderRouteIdentity) (now : ℕ)
    → IsSafe (unregister_with_change request route now)
unfolding unregister_with_change unregister_checked
unregister-IsSafe request route now =
    search (safe_steps, reject-IsSafe, unregister_instance-IsSafe) depth 12

pub ruleset safe_directory =
    (expire-IsSafe, resolve-IsSafe, snapshot-IsSafe, register-IsSafe, unregister-IsSafe)

pub init-IsValid : (lease_ttl_ms : ℕ) {s : EndpointDirectory} → init lease_ttl_ms ≡ ok s → IsValid s
unfolding init lookup
init-IsValid lease_ttl_ms {s} h =
    let empty : s.current ≡ [] = ground (arith, h) in
    record {
      leases = ground (arith, h);
      bounded = ground (arith, h);
      distinct = rw empty tt;
      registrations = λ k r held. absurd (ground (arith, empty, held));
    }
