-- ===== src/Sorted.antt =====
-- `sorted` over the keys of a dict: the entries in the order of their keys.
use Prim.Native.Nat.{Ordering}
use Prim.Native.String.{compare}
use adapter_forge_gateway.Prelude.{
  String, ◌≡◌, refl, Bool, true, false, none, some, [], ◌∷◌, arith, ◌==◌, if◌then◌else◌, string_eq,
  keep,
}
use adapter_forge_gateway.Dict.{Dict, lookup, IsDistinct}

abbrev pub text_ltb : String → String → Bool
text_ltb a b = elim (compare a b) [ Ordering.lt ↦ true | _ ↦ false ]

module _ {V : Type 0} where
  unfoldable pub place : String → V → Dict String V → Dict String V
  place k v [] = (k, v) ∷ []
  place k v ((j, w) ∷ d) = if text_ltb k j then (k, v) ∷ (j, w) ∷ d else (j, w) ∷ place k v d

  unfoldable pub sorted : Dict String V → Dict String V
  sorted [] = []
  sorted ((k, v) ∷ d) = place k v (sorted d)

  lookup-place :
      (k j : String) (v : V) (d : Dict String V)
      → lookup k d ≡ none
      → lookup j (place k v d) ≡ (if k == j then some v else lookup j d)
  unfolding place lookup
  lookup-place k j v [] h = refl
  lookup-place k j v ((i, w) ∷ d) h = ground (
    arith,
    string_eq.beq_iff k j,
    string_eq.beq_iff i j,
    string_eq.beq_iff i k,
    lookup-place k j v d,
  )

  place-IsDistinct :
      (k : String) (v : V) (d : Dict String V)
      → lookup k d ≡ none
      → IsDistinct d
      → IsDistinct (place k v d)
  unfolding place lookup
  place-IsDistinct k v [] h p = ground arith
  place-IsDistinct k v ((i, w) ∷ d) h p = ground (
    arith,
    string_eq.beq_iff i k,
    string_eq.beq_iff k i,
    lookup-place k i v d,
    place-IsDistinct k v d,
  )

  pub lookup-sorted :
      (j : String) (d : Dict String V) → IsDistinct d → lookup j (sorted d) ≡ lookup j d
  unfolding sorted lookup
  lookup-sorted j [] h = refl
  lookup-sorted j ((k, v) ∷ d) h =
      ground (arith, lookup-sorted j d h.1, lookup-sorted k d h.1, lookup-place k j v (sorted d))

  pub sorted-IsDistinct : (d : Dict String V) → IsDistinct d → IsDistinct (sorted d)
  unfolding sorted
  sorted-IsDistinct [] h = tt
  sorted-IsDistinct ((k, v) ∷ d) h =
      ground
        (arith, lookup-sorted k d h.1, sorted-IsDistinct d h.1, place-IsDistinct k v (sorted d))

  abbrev pub value_test : (V → Bool) → String × V → Bool
  value_test p (k, v) = p v

  pub lookup-keep :
      (p : V → Bool) (j : String) (d : Dict String V)
      → IsDistinct d
      → lookup j (keep (value_test p) d)
        ≡ elim (lookup j d) [ none ↦ none | some v ↦ if p v then some v else none ]
  unfolding lookup
  lookup-keep p j [] h = refl
  lookup-keep p j ((k, v) ∷ d) h = ground (arith, string_eq.beq_iff k j, lookup-keep p j d h.1)

  pub keep-IsDistinct :
      (p : V → Bool) (d : Dict String V) → IsDistinct d → IsDistinct (keep (value_test p) d)
  keep-IsDistinct p [] h = tt
  keep-IsDistinct p ((k, v) ∷ d) h = ground (arith, lookup-keep p k d h.1, keep-IsDistinct p d h.1)
