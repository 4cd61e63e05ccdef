-- ===== src/Directory/Resolving.antt =====
-- That `resolve` finds the live registration of an endpoint, and nothing else.
use adapter_forge_gateway.Prelude.{
  ℕ, ◌+◌, ◌≤◌, ◌≡◌, refl, false, String, Option, none, some, length, any, leb, ltb, arith,
  if◌then◌else◌, string_eq,
}
use adapter_forge_gateway.Raise.{Result, ok, err, operation_not_found}
use adapter_forge_gateway.Raise.Method.{gets, pure, raise, ◌>>=◌, ◌>>◌}
use adapter_forge_gateway.Dict.{lookup}
use adapter_forge_gateway.Directory.State.{
  max_safe_integer, RegisteredEndpoint, EndpointDirectory, ensure_revision_capacity, expired,
  expire,
}
use adapter_forge_gateway.Directory.Manage.{
  is_blank, is_named, resolve_at, resolve, validate_identifier,
}
use adapter_forge_gateway.Directory.Expiry.{IsValid, without, apply_expired_ok, lookup-without}

-- The registration whose lease has not run out.
abbrev pub live : ℕ → Option RegisteredEndpoint → Option RegisteredEndpoint
live now none = none
live now (some r) = if leb r.expires_at now then none else some r

-- What a caller is told of a registration.
abbrev pub offered : String → Option RegisteredEndpoint → Result (Option RegisteredEndpoint)
offered operation none = ok none
offered operation (some r) =
    if any (is_named operation) r.descriptor.operations
    then ok (some r)
    else err operation_not_found

pub expire-ok :
    (now : ℕ) (s : EndpointDirectory)
    → IsValid s
    → s.revision + length (expired now s) ≤ max_safe_integer
    → expire now s ≡ (ok (expired now s), without (expired now s) s)
unfolding expire ensure_revision_capacity gets pure ◌>>=◌ ◌>>◌
expire-ok now s v room =
    let fits : ltb max_safe_integer (s.revision + length (expired now s)) ≡ false =
      ground (arith, room) in
    rw (expire, fits, apply_expired_ok s v now room) refl

pub live-without :
    (now : ℕ) (s : EndpointDirectory) (v : IsValid s) (k : String)
    → lookup k (without (expired now s) s).current ≡ live now (lookup k s.current)
live-without now s v k = ground (arith, lookup-without s v now k)

resolve_at-offered :
    (operation : String) (o : Option RegisteredEndpoint) (s : EndpointDirectory)
    → resolve_at operation o s ≡ (offered operation o, s)
unfolding pure raise
resolve_at-offered operation none s = refl
resolve_at-offered operation (some r) s = ground arith

-- Where the names are not blank and there are revisions for the leases that have run out, `resolve`
-- takes those leases out, and answers by the endpoint's registration: nothing if there is none or its
-- lease has run out, the registration if it offers the operation, and else an error.
pub resolve-live :
    (endpoint_id operation : String) (now : ℕ) (s : EndpointDirectory)
    → IsValid s
    → s.revision + length (expired now s) ≤ max_safe_integer
    → is_blank endpoint_id ≡ false
    → is_blank operation ≡ false
    → resolve endpoint_id operation now s
      ≡ (offered operation (live now (lookup endpoint_id s.current)), without (expired now s) s)
unfolding resolve validate_identifier gets pure raise ◌>>=◌ ◌>>◌
resolve-live endpoint_id operation now s v room named named' =
    rw (resolve, named, named', expire-ok now s v room, live-without now s v endpoint_id)
      (resolve_at-offered operation (live now (lookup endpoint_id s.current)) _)
