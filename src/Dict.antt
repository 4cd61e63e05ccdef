-- ===== src/Dict.antt =====
-- A Python dict in insertion order, over any keys with an equality.
pub mod Distinct
pub mod Size
pub mod Inversion
use adapter_forge_gateway.Prelude.{
  ℕ, suc, ◌≡◌, refl, Bool, false, ◌||◌, Option, none, some, List, [], ◌∷◌, arith, Eq, ◌==◌,
  if◌then◌else◌,
}

abbrev pub Dict {ℓ} : Type ℓ → Type ℓ → Type ℓ
Dict K V = List (K × V)

unfoldable pub elem {ℓ} : {K : Type ℓ} ⦃e : Eq K⦄ → K → List K → Bool
elem k [] = false
elem k (j ∷ js) = j == k || elem k js

module _ {ℓ} {K V : Type ℓ} ⦃e : Eq K⦄ where
  -- `d.get(k)`
  unfoldable pub lookup : K → Dict K V → Option V
  lookup k [] = none
  lookup k ((j, v) ∷ d) = if j == k then some v else lookup k d

  -- `d[k] = v`: a known key keeps its place.
  unfoldable pub insert : K → V → Dict K V → Dict K V
  insert k v [] = (k, v) ∷ []
  insert k v ((j, w) ∷ d) = if j == k then (j, v) ∷ d else (j, w) ∷ insert k v d

  -- `d.pop(k, None)`, and `del d[k]` for a key that is there.
  unfoldable pub erase : K → Dict K V → Dict K V
  erase k [] = []
  erase k ((j, w) ∷ d) = let rest = erase k d in if j == k then rest else (j, w) ∷ rest

  -- `for k in ks: d.pop(k, None)`
  unfoldable pub erase_each : List K → Dict K V → Dict K V
  erase_each [] d = d
  erase_each (k ∷ ks) d = erase_each ks (erase k d)

  -- A change of every value in place: `for v in d.values(): …`
  unfoldable pub map_values : (V → V) → Dict K V → Dict K V
  map_values f [] = []
  map_values f ((j, w) ∷ d) = (j, f w) ∷ map_values f d

  -- `[k for k, v in d.items() if p(v)]`
  unfoldable pub keys_where : (V → Bool) → Dict K V → List K
  keys_where p [] = []
  keys_where p ((j, w) ∷ d) = let rest = keys_where p d in if p w then j ∷ rest else rest

  -- `sum(p(v) for v in d.values())`
  unfoldable pub count_values : (V → Bool) → Dict K V → ℕ
  count_values p [] = 0
  count_values p ((j, w) ∷ d) = if p w then suc (count_values p d) else count_values p d

  -- No key is held twice, which Python's dicts guarantee.
  abbrev pub IsDistinct : Dict K V → Type ℓ
  IsDistinct [] = Unit
  IsDistinct ((j, w) ∷ d) = (lookup j d ≡ none) × IsDistinct d

  module _ (k j : K) where
    pub lookup-insert :
        (v : V) (d : Dict K V) → lookup j (insert k v d) ≡ (if k == j then some v else lookup j d)
    unfolding lookup insert
    lookup-insert v [] = refl
    lookup-insert v ((i, w) ∷ d) =
        ground (arith, e.beq_iff i k, e.beq_iff i j, e.beq_iff k j, lookup-insert v d)

    pub lookup-erase : (d : Dict K V) → lookup j (erase k d) ≡ (if k == j then none else lookup j d)
    unfolding lookup erase
    lookup-erase [] = ground arith
    lookup-erase ((i, w) ∷ d) =
        ground (arith, e.beq_iff i k, e.beq_iff i j, e.beq_iff k j, lookup-erase d)

  pub lookup-map_values :
      (f : V → V) (j : K) (d : Dict K V)
      → lookup j (map_values f d) ≡ elim (lookup j d) [ none ↦ none | some v ↦ some (f v) ]
  unfolding lookup map_values
  lookup-map_values f j [] = refl
  lookup-map_values f j ((i, w) ∷ d) = ground (arith, lookup-map_values f j d)

  pub lookup-erase_each :
      (j : K) (ks : List K) (d : Dict K V)
      → lookup j (erase_each ks d) ≡ (if elem j ks then none else lookup j d)
  unfolding erase_each elem
  lookup-erase_each j [] d = refl
  lookup-erase_each j (k ∷ ks) d =
      ground (arith, lookup-erase_each j ks (erase k d), lookup-erase k j d)

  pub elem-keys_where :
      (p : V → Bool) (j : K) (d : Dict K V)
      → IsDistinct d
      → elem j (keys_where p d) ≡ elim (lookup j d) [ none ↦ false | some v ↦ p v ]
  unfolding lookup keys_where elem
  elem-keys_where p j [] h = refl
  elem-keys_where p j ((i, w) ∷ d) h = ground (arith, e.beq_iff i j, elem-keys_where p j d h.1)
