-- ===== src/Directory/Listing.antt =====
-- That `snapshot` lists the live registrations, and nothing else.
use mathlib.Core.List.{Memᴰ}
use mathlib.Core.List.Memᴰ
use adapter_forge_gateway.Prelude.{
  ◌∙◌, ℕ, ◌+◌, ◌≤◌, ◌≡◌, refl, sym, ◌↔◌, Bool-cases, ◌==◌, inl, inr, String, some, [], ◌∷◌, length,
  arith, string_eq, ap,
}
use adapter_forge_gateway.Raise.{ok}
use adapter_forge_gateway.Raise.Method.{gets, ◌>>=◌, ◌>>◌}
use adapter_forge_gateway.Dict.{Dict, lookup, IsDistinct}
use adapter_forge_gateway.Sorted.{sorted, lookup-sorted, sorted-IsDistinct}
use adapter_forge_gateway.Directory.State.{
  max_safe_integer, RegisteredEndpoint, endpoint_id_of, EndpointDirectory, expired, values,
}
use adapter_forge_gateway.Directory.Manage.{ToolDirectorySnapshot, snapshot}
use adapter_forge_gateway.Directory.Expiry.{IsValid, without, without-IsValid}
use adapter_forge_gateway.Directory.Resolving.{live, live-without, expire-ok}

mem-values :
    (r : RegisteredEndpoint) (d : Dict String RegisteredEndpoint)
    → IsDistinct d
    → Memᴰ r (values d)
    → (k : String) × (lookup k d ≡ some r)
unfolding lookup
mem-values r [] o m = absurd (Memᴰ.not-nil m)
mem-values r ((j, w) ∷ d) o m = elim (Memᴰ.cases_cons m) [
  | inl same ↦ (j, ground (arith, same, string_eq.beq_iff j j))
  | inr there ↦
      let (k, found) = mem-values r d o.1 there in
      (k, ground (arith, found, o.0, string_eq.beq_iff j k))
]

values-mem :
    (k : String) (r : RegisteredEndpoint) (d : Dict String RegisteredEndpoint)
    → lookup k d ≡ some r
    → Memᴰ r (values d)
unfolding lookup
values-mem k r [] h = absurd (ground (arith, h))
values-mem k r ((j, w) ∷ d) h = elim (Bool-cases (j == k)) [
  | inl same ↦ Memᴰ.head (ground (arith, same, h))
  | inr other ↦ Memᴰ.tail (values-mem k r d (ground (arith, other, h)))
]

-- With revisions for the leases that have run out, `snapshot` takes those leases out and returns. It
-- lists exactly the registrations that stand under their own endpoint and whose lease has not run
-- out, beside the revision of the directory that is left.
pub snapshot-live :
    (now : ℕ) (s : EndpointDirectory)
    → IsValid s
    → s.revision + length (expired now s) ≤ max_safe_integer
    → (m : ToolDirectorySnapshot) × (snapshot now s ≡ (ok m, without (expired now s) s))
      × (m.revision ≡ (without (expired now s) s).revision)
      × ((r : RegisteredEndpoint)
          → Memᴰ r m.registrations ↔ (live now (lookup (endpoint_id_of r) s.current) ≡ some r))
unfolding snapshot gets ◌>>=◌ ◌>>◌
snapshot-live now s v room =
    let left = without (expired now s) s in
    let w = without-IsValid s v now room in
    (
      record { revision = left.revision; registrations = values (sorted left.current) },
      rw (snapshot, expire-ok now s v room) refl,
      refl,
      λ r. (
        λ m.
            let (k, found) =
              mem-values r (sorted left.current) (sorted-IsDistinct left.current w.distinct) m in
            let held : lookup k left.current ≡ some r =
              ground (arith, lookup-sorted k left.current w.distinct, found) in
            let keyed = (w.registrations k r held).keyed in
            sym (live-without now s v (endpoint_id_of r))
            ∙ ap (λ (x : String). lookup x left.current) keyed
            ∙ held,
        λ h. values-mem (endpoint_id_of r) r (sorted left.current) (
            ground (
              arith,
              lookup-sorted (endpoint_id_of r) left.current w.distinct,
              live-without now s v (endpoint_id_of r),
              h,
            )),
      ),
    )
