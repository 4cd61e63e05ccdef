-- ===== src/Handler/Records.antt =====
-- The dict of execution records under `move_to_end` and under the eviction.
use adapter_forge_gateway.Prelude.{
  ◌+◌, ◌≡◌, refl, ◌⊎◌, inl, inr, Bool, true, false, none, some, [], ◌∷◌, ◌++◌, arith, ◌==◌, length,
  length-append, if◌then◌else◌, string_eq, Bool-cases,
}
use adapter_forge_gateway.Dict.{Dict, lookup, erase, count_values, IsDistinct, lookup-erase}
use adapter_forge_gateway.Dict.Distinct.{erase-IsDistinct}
use adapter_forge_gateway.Dict.Size.{weight, erase-none, count-erase, length-erase}
use adapter_forge_gateway.Handler.State.{
  ToolExecutionKey, execution_key_eq, ExecutionRecord, is_evictable, evict_first, move_to_end,
}

abbrev pub Records : Type 0
Records = Dict ToolExecutionKey ExecutionRecord

module _ (k : ToolExecutionKey) (r : ExecutionRecord) where
  lookup-at_end :
      (j : ToolExecutionKey) (d : Records)
      → lookup k d ≡ none
      → lookup j (d ++ (k, r) ∷ []) ≡ (if k == j then some r else lookup j d)
  unfolding lookup
  lookup-at_end j [] h = refl
  lookup-at_end j ((i, w) ∷ d) h = ground (
    arith,
    execution_key_eq.beq_iff i k,
    execution_key_eq.beq_iff i j,
    execution_key_eq.beq_iff k j,
    lookup-at_end j d,
  )

  at_end-IsDistinct :
      (d : Records) → lookup k d ≡ none → IsDistinct d → IsDistinct (d ++ (k, r) ∷ [])
  unfolding lookup
  at_end-IsDistinct [] h o = ground arith
  at_end-IsDistinct ((i, w) ∷ d) h o = ground (
    arith,
    execution_key_eq.beq_iff i k,
    execution_key_eq.beq_iff k i,
    lookup-at_end i d,
    at_end-IsDistinct d,
  )

  count-at_end :
      (p : ExecutionRecord → Bool) (d : Records)
      → count_values p (d ++ (k, r) ∷ []) ≡ count_values p d + weight p r
  unfolding count_values
  count-at_end p [] = ground arith
  count-at_end p ((i, w) ∷ d) = ground (arith, count-at_end p d)

  module _ (d : Records) (o : IsDistinct d) where
    pub lookup-move_to_end :
        (j : ToolExecutionKey)
        → lookup j (move_to_end k r d) ≡ (if k == j then some r else lookup j d)
    unfolding move_to_end
    lookup-move_to_end j = ground (
      arith,
      execution_key_eq.beq_iff k k,
      lookup-erase k k d,
      lookup-erase k j d,
      lookup-at_end j (erase k d),
    )

    pub move_to_end-IsDistinct : IsDistinct (move_to_end k r d)
    unfolding move_to_end
    move_to_end-IsDistinct =
        at_end-IsDistinct (erase k d)
          (ground (arith, execution_key_eq.beq_iff k k, lookup-erase k k d))
          (erase-IsDistinct k d o)

    pub length-move_to_end :
        (u : ExecutionRecord) → lookup k d ≡ some u → length (move_to_end k r d) ≡ length d
    unfolding move_to_end
    length-move_to_end u h =
        omega (arith, length-append (erase k d) ((k, r) ∷ []), length-erase k u d o h)

    pub count-move_to_end :
        (p : ExecutionRecord → Bool) (u : ExecutionRecord)
        → lookup k d ≡ some u
        → count_values p (move_to_end k r d) + weight p u ≡ count_values p d + weight p r
    unfolding move_to_end
    count-move_to_end p u h = omega (arith, count-at_end p (erase k d), count-erase p k u d o h)

-- No record of the dict may be evicted.
abbrev pub NoneEvictable : Records → Type 0
NoneEvictable d =
    (k : ToolExecutionKey) (r : ExecutionRecord) → lookup k d ≡ some r → is_evictable r ≡ false

-- The record that `evict_first` takes.
pub record Victim (d : Records) : Type 0 where
  pub key : ToolExecutionKey
  pub value : ExecutionRecord
  pub held : lookup key d ≡ some value
  pub free : is_evictable value ≡ true
  pub left : evict_first d ≡ some (erase key d)

pub evict_first-cases :
    (d : Records) → IsDistinct d → ((evict_first d ≡ none) × NoneEvictable d) ⊎ Victim d
unfolding evict_first lookup erase
evict_first-cases [] o = inl (refl, λ k r h. absurd (cc))
evict_first-cases ((k, r) ∷ d) o = elim (Bool-cases (is_evictable r)) [
  | inl e ↦ inr (record {
    key = k;
    value = r;
    free = e;
    held = ground (arith, execution_key_eq.beq_iff k k);
    left = ground (arith, e, execution_key_eq.beq_iff k k, erase-none k d);
  })
  | inr e ↦ elim (evict_first-cases d o.1) [
    | inl (stuck, rest) ↦ inl (ground (arith, e, stuck), λ j s h. ground (arith, e, h, rest j s))
    | inr v ↦ inr (record {
      key = v.key;
      value = v.value;
      free = v.free;
      held = ground (arith, v.held, o.0, execution_key_eq.beq_iff k v.key);
      left = ground (arith, e, v.left, v.held, o.0, execution_key_eq.beq_iff k v.key);
    })
  ]
]
