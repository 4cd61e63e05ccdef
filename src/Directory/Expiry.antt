-- ===== src/Directory/Expiry.antt =====
-- The expiry of leases: from a sound directory with revisions to spare it cannot fail, takes one
-- revision for each lease that has run out, and leaves exactly the others.
use adapter_forge_gateway.Prelude.{
  ℕ, ◌+◌, ◌≤◌, ◌<◌, String, ◌≡◌, refl, ◌∙◌, false, none, some, List, [], ◌∷◌, arith, length, map,
  string_eq, if◌then◌else◌, is_some,
}
use adapter_forge_gateway.Raise.{ok}
use adapter_forge_gateway.Dict.{
  Dict, lookup, erase, erase_each, elem, IsDistinct, lookup-erase, lookup-erase_each,
}
use adapter_forge_gateway.Dict.Distinct.{erase_each-IsDistinct}
use adapter_forge_gateway.Dict.Inversion.{lookup-erase_each_inv}
use adapter_forge_gateway.Sorted.{
  sorted, lookup-sorted, sorted-IsDistinct, lookup-keep, keep-IsDistinct,
}
use adapter_forge_gateway.Directory.State.{
  max_safe_integer, RegisteredEndpoint, endpoint_id_of, EndpointDirectory, next_revision,
  is_expired, values, expired_entries, expired, delete, apply_expired,
}
use adapter_forge_gateway.Directory.Register.{unexpired}

-- A registration stands under its own endpoint, with a revision that has been given out.
pub record IsRegistration (s : EndpointDirectory) (k : String) (r : RegisteredEndpoint)
    : Type 0 where
  pub keyed : endpoint_id_of r ≡ k
  pub given : r.registry_revision ≤ s.revision

pub record IsValid (s : EndpointDirectory) : Type 0 where
  pub leases : 1 ≤ s.lease_ttl_ms
  pub bounded : s.revision ≤ max_safe_integer
  pub distinct : IsDistinct s.current
  pub registrations :
      (k : String) (r : RegisteredEndpoint) → lookup k s.current ≡ some r → IsRegistration s k r

-- The directory after the leases of `gone` have been taken out.
unfoldable pub without : List RegisteredEndpoint → EndpointDirectory → EndpointDirectory
without gone s = record s {
  revision = s.revision + length gone;
  current = erase_each (map endpoint_id_of gone) s.current;
}

-- Every entry of `d` is in the directory, under the registration's own endpoint.
abbrev Held : EndpointDirectory → Dict String RegisteredEndpoint → Type 0
Held s [] = Unit
Held s ((k, r) ∷ d) = (endpoint_id_of r ≡ k) × (lookup k s.current ≡ some r) × Held s d

Held-erase :
    (s : EndpointDirectory) (n : ℕ) (k : String) (d : Dict String RegisteredEndpoint)
    → lookup k d ≡ none
    → Held s d
    → Held (record s { revision = n; current = erase k s.current }) d
unfolding lookup
Held-erase s n k [] h held = tt
Held-erase s n k ((j, r) ∷ d) h held = ground (
  arith,
  string_eq.beq_iff j k,
  string_eq.beq_iff k j,
  lookup-erase k j s.current,
  Held-erase s n k d,
)

pub next_revision_ok :
    (s : EndpointDirectory)
    → s.revision < max_safe_integer
    → next_revision s ≡ (ok (s.revision + 1), record s { revision = s.revision + 1 })
unfolding next_revision
next_revision_ok s h = ground arith

pub delete_ok :
    (k : String) (s : EndpointDirectory) (r : RegisteredEndpoint)
    → lookup k s.current ≡ some r
    → delete k s ≡ (ok tt, record s { current = erase k s.current })
unfolding delete
delete_ok k s r h = ground arith

-- One turn of the loop of `_apply_expired_locked`.
apply_expired-cons :
    (k : String) (r : RegisteredEndpoint) (rs : List RegisteredEndpoint) (s : EndpointDirectory)
    → endpoint_id_of r ≡ k
    → lookup k s.current ≡ some r
    → s.revision < max_safe_integer
    → apply_expired (r ∷ rs) s
      ≡ apply_expired rs (record s { revision = s.revision + 1; current = erase k s.current })
unfolding apply_expired
apply_expired-cons k r rs s at_key held room =
    ground (arith, next_revision_ok s, delete_ok k (record s { revision = s.revision + 1 }) r)

apply_expired-values :
    (d : Dict String RegisteredEndpoint) (s : EndpointDirectory)
    → IsDistinct d
    → Held s d
    → s.revision + length (values d) ≤ max_safe_integer
    → apply_expired (values d) s ≡ (ok tt, without (values d) s)
unfolding apply_expired without erase_each
apply_expired-values [] s p held room = ground arith
apply_expired-values ((k, r) ∷ d) s p held room =
    let s' : EndpointDirectory = record s {
      revision = s.revision + 1;
      current = erase k s.current;
    } in
    let head = apply_expired-cons k r (values d) s held.0 held.1 (omega arith) in
    let tail =
      apply_expired-values d s' p.1 (Held-erase s (s.revision + 1) k d p.0 held.2) (omega arith) in
    head ∙ tail ∙ ground (arith, held.0)

Held-drop :
    (s : EndpointDirectory) (d : Dict String RegisteredEndpoint)
    → IsDistinct d
    → ((k : String) (r : RegisteredEndpoint)
        → lookup k d ≡ some r
        → (endpoint_id_of r ≡ k) × (lookup k s.current ≡ some r))
    → Held s d
unfolding lookup
Held-drop s [] p h = tt
Held-drop s ((k, r) ∷ d) p h =
    let here = h k r (ground (arith, string_eq.beq_iff k k)) in
    (
      here.0,
      here.1,
      Held-drop s d p.1 (λ j q e. h j q (ground (arith, string_eq.beq_iff k j, p.0, e))),
    )

module _ (s : EndpointDirectory) (v : IsValid s) (now : ℕ) where
  entries-IsDistinct : IsDistinct (expired_entries now s)
  unfolding expired_entries
  entries-IsDistinct =
      keep-IsDistinct (is_expired now) (sorted s.current) (sorted-IsDistinct s.current v.distinct)

  lookup-expired_entries :
      (k : String)
      → lookup k (expired_entries now s) ≡ elim (lookup k s.current) [
        | none ↦ none
        | some r ↦ if is_expired now r then some r else none
      ]
  unfolding expired_entries
  lookup-expired_entries k = ground (
    arith,
    lookup-keep (is_expired now) k (sorted s.current) (sorted-IsDistinct s.current v.distinct),
    lookup-sorted k s.current v.distinct,
  )

  entries-Held : Held s (expired_entries now s)
  entries-Held = Held-drop s (expired_entries now s) entries-IsDistinct λ k r e.
      let held : lookup k s.current ≡ some r = ground (arith, lookup-expired_entries k, e) in
      ((v.registrations k r held).keyed, held)

  -- With revisions to spare the expiry takes out the leases that have run out, and cannot fail.
  pub apply_expired_ok :
      s.revision + length (expired now s) ≤ max_safe_integer
      → apply_expired (expired now s) s ≡ (ok tt, without (expired now s) s)
  unfolding expired
  apply_expired_ok room =
      apply_expired-values (expired_entries now s) s entries-IsDistinct entries-Held room

  elem-ids :
      (k : String) (d : Dict String RegisteredEndpoint)
      → Held s d
      → elem k (map endpoint_id_of (values d)) ≡ is_some (lookup k d)
  unfolding lookup elem
  elem-ids k [] h = refl
  elem-ids k ((j, r) ∷ d) h = ground (arith, elem-ids k d h.2)

  pub elem-expired :
      (k : String)
      → elem k (map endpoint_id_of (expired now s))
        ≡ elim (lookup k s.current) [ none ↦ false | some r ↦ is_expired now r ]
  unfolding expired
  elem-expired k =
      ground (arith, elem-ids k (expired_entries now s) entries-Held, lookup-expired_entries k)

  -- What is left are the leases that have not run out.
  pub lookup-without :
      (k : String)
      → lookup k (without (expired now s) s).current ≡ elim (lookup k s.current) [
        | none ↦ none
        | some r ↦ if is_expired now r then none else some r
      ]
  unfolding without
  lookup-without k =
      ground
        (arith, lookup-erase_each k (map endpoint_id_of (expired now s)) s.current, elem-expired k)

  pub without-IsValid :
      s.revision + length (expired now s) ≤ max_safe_integer → IsValid (without (expired now s) s)
  unfolding without
  without-IsValid room = record {
    leases = v.leases;
    bounded = room;
    distinct = erase_each-IsDistinct (map endpoint_id_of (expired now s)) s.current v.distinct;
    registrations = λ k r h.
        let old =
          v.registrations k r
            (lookup-erase_each_inv k r (map endpoint_id_of (expired now s)) s.current h).1 in
        record { keyed = old.keyed; given = omega (arith, old.given) };
  }

  -- The registration that the code looks up before the expiry is the one that it leaves.
  pub unexpired-eq-lookup :
      (k : String) → unexpired k (expired now s) s ≡ lookup k (without (expired now s) s).current
  unfolding without unexpired
  unexpired-eq-lookup k =
      ground (arith, lookup-erase_each k (map endpoint_id_of (expired now s)) s.current)
