-- ===== src/Dict/Distinct.antt =====
-- No operation makes a key occur twice.
use adapter_forge_gateway.Prelude.{List, [], ◌∷◌, arith, Eq}
use adapter_forge_gateway.Dict.{
  Dict, lookup, insert, erase, erase_each, map_values, IsDistinct, lookup-insert, lookup-erase,
  lookup-map_values,
}

module _ {ℓ} {K V : Type ℓ} ⦃e : Eq K⦄ where
  pub insert-IsDistinct : (k : K) (v : V) (d : Dict K V) → IsDistinct d → IsDistinct (insert k v d)
  unfolding insert lookup
  insert-IsDistinct k v [] h = ground arith
  insert-IsDistinct k v ((j, w) ∷ d) h =
      ground
        (arith, e.beq_iff j k, e.beq_iff k j, insert-IsDistinct k v d h.1, lookup-insert k j v d)

  pub erase-IsDistinct : (k : K) (d : Dict K V) → IsDistinct d → IsDistinct (erase k d)
  unfolding erase
  erase-IsDistinct k [] h = ground arith
  erase-IsDistinct k ((j, w) ∷ d) h = ground (arith, erase-IsDistinct k d h.1, lookup-erase k j d)

  pub erase_each-IsDistinct :
      (ks : List K) (d : Dict K V) → IsDistinct d → IsDistinct (erase_each ks d)
  unfolding erase_each
  erase_each-IsDistinct [] d h = h
  erase_each-IsDistinct (k ∷ ks) d h = erase_each-IsDistinct ks (erase k d) (erase-IsDistinct k d h)

  pub map_values-IsDistinct :
      (f : V → V) (d : Dict K V) → IsDistinct d → IsDistinct (map_values f d)
  unfolding map_values
  map_values-IsDistinct f [] h = ground arith
  map_values-IsDistinct f ((j, w) ∷ d) h =
      ground (arith, map_values-IsDistinct f d h.1, lookup-map_values f j d)
