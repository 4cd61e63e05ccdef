-- ===== src/Dict/Inversion.antt =====
-- From what a key holds after an operation to what it held before.
use adapter_forge_gateway.Prelude.{
  ◌≡◌, ◌⊎◌, inl, inr, false, some, List, arith, Eq, ◌==◌, Bool-cases,
}
use adapter_forge_gateway.Dict.{
  Dict, lookup, insert, erase, erase_each, map_values, elem, lookup-insert, lookup-erase,
  lookup-map_values, lookup-erase_each,
}

module _ {ℓ} {K V : Type ℓ} ⦃e : Eq K⦄ where
  pub lookup-insert_inv :
      (k j : K) (v w : V) (d : Dict K V)
      → lookup j (insert k v d) ≡ some w
      → ((k ≡ j) × (v ≡ w)) ⊎ (((k == j) ≡ false) × (lookup j d ≡ some w))
  lookup-insert_inv k j v w d h = elim (Bool-cases (k == j)) [
    | inl q ↦ inl ((e.beq_iff k j).0 q, ground (arith, lookup-insert k j v d))
    | inr q ↦ inr (q, ground (arith, lookup-insert k j v d))
  ]

  pub lookup-erase_inv :
      (k j : K) (w : V) (d : Dict K V)
      → lookup j (erase k d) ≡ some w
      → ((k == j) ≡ false) × (lookup j d ≡ some w)
  lookup-erase_inv k j w d h = ground (arith, lookup-erase k j d)

  pub lookup-erase_each_inv :
      (j : K) (w : V) (ks : List K) (d : Dict K V)
      → lookup j (erase_each ks d) ≡ some w
      → (elem j ks ≡ false) × (lookup j d ≡ some w)
  lookup-erase_each_inv j w ks d h = ground (arith, lookup-erase_each j ks d)

  pub lookup-map_values_inv :
      (f : V → V) (j : K) (w : V) (d : Dict K V)
      → lookup j (map_values f d) ≡ some w
      → (v : V) × (lookup j d ≡ some v) × (f v ≡ w)
  lookup-map_values_inv f j w d h = ground (arith, lookup-map_values f j d)

  pub lookup-map_values-some :
      (f : V → V) (j : K) (v : V) (d : Dict K V)
      → lookup j d ≡ some v
      → lookup j (map_values f d) ≡ some (f v)
  lookup-map_values-some f j v d h = ground (arith, lookup-map_values f j d)

  pub lookup-insert_self : (k : K) (v : V) (d : Dict K V) → lookup k (insert k v d) ≡ some v
  lookup-insert_self k v d = ground (arith, lookup-insert k k v d, e.beq_iff k k)

  pub lookup-insert_ne :
      (k j : K) (v : V) (d : Dict K V) → (k == j) ≡ false → lookup j (insert k v d) ≡ lookup j d
  lookup-insert_ne k j v d h = ground (arith, lookup-insert k j v d)
