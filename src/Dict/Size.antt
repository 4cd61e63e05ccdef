-- ===== src/Dict/Size.antt =====
-- How many entries, and how many that pass a test, each operation leaves.
use adapter_forge_gateway.Prelude.{
  true, false, ℕ, suc, ◌+◌, ◌≤◌, ◌<◌, ◌≡◌, refl, Bool, none, some, List, [], ◌∷◌, arith, Eq,
  if◌then◌else◌, length,
}
use adapter_forge_gateway.Dict.{
  Dict, lookup, insert, erase, erase_each, map_values, count_values, keys_where, IsDistinct,
}

-- An entry that passes the test counts for one.
abbrev pub weight {ℓ} : {V : Type ℓ} → (V → Bool) → V → ℕ
weight p v = if p v then 1 else 0

module _ {ℓ} {K V : Type ℓ} ⦃e : Eq K⦄ where
  pub length-insert_new :
      (k : K) (v : V) (d : Dict K V) → lookup k d ≡ none → length (insert k v d) ≡ suc (length d)
  unfolding insert lookup
  length-insert_new k v [] h = refl
  length-insert_new k v ((j, w) ∷ d) h = ground (arith, length-insert_new k v d)

  pub length-insert_old :
      (k : K) (v u : V) (d : Dict K V) → lookup k d ≡ some u → length (insert k v d) ≡ length d
  unfolding insert lookup
  length-insert_old k v u [] h = ground arith
  length-insert_old k v u ((j, w) ∷ d) h = ground (arith, length-insert_old k v u d)

  pub length-erase-le : (k : K) (d : Dict K V) → length (erase k d) ≤ length d
  unfolding erase
  length-erase-le k [] = omega arith
  length-erase-le k ((j, w) ∷ d) = ground (arith, length-erase-le k d)

  pub length-erase-lt :
      (k : K) (u : V) (d : Dict K V) → lookup k d ≡ some u → length (erase k d) < length d
  unfolding erase lookup
  length-erase-lt k u [] h = ground arith
  length-erase-lt k u ((j, w) ∷ d) h = ground (arith, length-erase-le k d, length-erase-lt k u d)

  pub length-erase_each-le : (ks : List K) (d : Dict K V) → length (erase_each ks d) ≤ length d
  unfolding erase_each
  length-erase_each-le [] d = omega arith
  length-erase_each-le (k ∷ ks) d =
      omega (arith, length-erase_each-le ks (erase k d), length-erase-le k d)

  pub length-map_values : (f : V → V) (d : Dict K V) → length (map_values f d) ≡ length d
  unfolding map_values
  length-map_values f [] = refl
  length-map_values f ((j, w) ∷ d) = omega (arith, length-map_values f d)

  pub count-insert_new :
      (p : V → Bool) (k : K) (v : V) (d : Dict K V)
      → lookup k d ≡ none
      → count_values p (insert k v d) ≡ (if p v then suc (count_values p d) else count_values p d)
  unfolding insert lookup count_values
  count-insert_new p k v [] h = refl
  count-insert_new p k v ((j, w) ∷ d) h = ground (arith, count-insert_new p k v d)

  pub count-erase-le :
      (p : V → Bool) (k : K) (d : Dict K V) → count_values p (erase k d) ≤ count_values p d
  unfolding erase count_values
  count-erase-le p k [] = omega arith
  count-erase-le p k ((j, w) ∷ d) = ground (arith, count-erase-le p k d)

  pub erase-none : (k : K) (d : Dict K V) → lookup k d ≡ none → erase k d ≡ d
  unfolding erase lookup
  erase-none k [] h = refl
  erase-none k ((j, w) ∷ d) h = ground (arith, erase-none k d)

  pub count-insert_old :
      (p : V → Bool) (k : K) (v u : V) (d : Dict K V)
      → lookup k d ≡ some u
      → count_values p (insert k v d) + weight p u ≡ count_values p d + weight p v
  unfolding insert lookup count_values
  count-insert_old p k v u [] h = ground arith
  count-insert_old p k v u ((j, w) ∷ d) h = ground (arith, count-insert_old p k v u d)

  pub count-erase :
      (p : V → Bool) (k : K) (u : V) (d : Dict K V)
      → IsDistinct d
      → lookup k d ≡ some u
      → count_values p (erase k d) + weight p u ≡ count_values p d
  unfolding erase lookup count_values
  count-erase p k u [] o h = ground arith
  count-erase p k u ((j, w) ∷ d) o h =
      ground (arith, e.beq_iff j k, erase-none k d, count-erase p k u d o.1)

  pub length-erase :
      (k : K) (u : V) (d : Dict K V)
      → IsDistinct d
      → lookup k d ≡ some u
      → suc (length (erase k d)) ≡ length d
  unfolding erase lookup
  length-erase k u [] o h = ground arith
  length-erase k u ((j, w) ∷ d) o h =
      ground (arith, e.beq_iff j k, erase-none k d, length-erase k u d o.1)

  pub erase-insert : (k : K) (v : V) (d : Dict K V) → erase k (insert k v d) ≡ erase k d
  unfolding erase insert
  erase-insert k v [] = ground (arith, e.beq_iff k k)
  erase-insert k v ((j, w) ∷ d) = ground (arith, erase-insert k v d)

  pub count-zero :
      (p : V → Bool) (k : K) (v : V) (d : Dict K V)
      → count_values p d ≡ 0
      → lookup k d ≡ some v
      → p v ≡ false
  unfolding lookup count_values
  count-zero p k v [] z h = ground arith
  count-zero p k v ((j, w) ∷ d) z h = ground (arith, count-zero p k v d)

  -- Erasing every key leaves nothing.
  pub erase_each-keys : (d : Dict K V) → IsDistinct d → erase_each (keys_where (λ _. true) d) d ≡ []
  unfolding erase_each keys_where erase
  erase_each-keys [] o = refl
  erase_each-keys ((j, w) ∷ d) o =
      ground (arith, e.beq_iff j j, erase-none j d, erase_each-keys d o.1)

  erase_each-passed :
      (p : V → Bool) (ks : List K) (j : K) (w : V) (d : Dict K V)
      → p w ≡ false
      → count_values p (erase_each ks ((j, w) ∷ d)) ≡ count_values p (erase_each ks d)
  unfolding erase_each erase count_values
  erase_each-passed p [] j w d h = ground arith
  erase_each-passed p (k ∷ ks) j w d h = ground (arith, erase_each-passed p ks j w (erase k d) h)

  -- Erasing the key of every value that passes a test leaves no such value.
  pub erase_each-found :
      (p : V → Bool) (d : Dict K V)
      → IsDistinct d
      → count_values p (erase_each (keys_where p d) d) ≡ 0
  unfolding erase_each keys_where erase count_values
  erase_each-found p [] o = refl
  erase_each-found p ((j, w) ∷ d) o = ground (
    arith,
    e.beq_iff j j,
    erase-none j d,
    erase_each-found p d o.1,
    erase_each-passed p (keys_where p d) j w d,
  )
