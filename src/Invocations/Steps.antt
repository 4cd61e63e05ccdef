-- ===== src/Invocations/Steps.antt =====
-- The store as a transition system: the elementary steps of which every method is made, and the
-- invariant that they keep.
use adapter_forge_gateway.Prelude.{
  ℕ, ◌≤◌, ◌<◌, ◌≡◌, true, none, some, [], arith, length, subst, inl, inr, string_eq,
}
use adapter_forge_gateway.Prelude.Int.{negsuc}
use adapter_forge_gateway.Raise.{ok}
use adapter_forge_gateway.Dict.{lookup, insert, map_values, IsDistinct, lookup-erase}
use adapter_forge_gateway.Dict.Inversion.{
  lookup-insert_inv, lookup-erase_each_inv, lookup-map_values_inv,
}
use adapter_forge_gateway.Dict.Distinct.{
  insert-IsDistinct, erase-IsDistinct, erase_each-IsDistinct, map_values-IsDistinct,
}
use adapter_forge_gateway.Dict.Size.{
  length-insert_new, length-insert_old, length-erase-le, length-erase_each-le, length-map_values,
}
use adapter_forge_gateway.Invocations.Item.{ActionPhase, ActionKey, key_eq, ActionInvocation, key}
use adapter_forge_gateway.Invocations.Changes.{Change}
use adapter_forge_gateway.Invocations.Store.{ActionInvocationStore, purge, discard}
use adapter_forge_gateway.Invocations.Invariant.{IsEntry, Keeps}
use adapter_forge_gateway.Invocations.Eviction.{IsVictim}
use adapter_forge_gateway.Invocations.Evolution.{Evolves, Advances}

-- The store holds at most its capacity, no key twice, and only sound invocations at their keys.
pub record IsValid (s : ActionInvocationStore) : Type 0 where
  pub size : length s.items ≤ s.capacity
  pub distinct : IsDistinct s.items
  pub entries :
      (k : ActionKey) (item : ActionInvocation)
      → lookup k s.items ≡ some item
      → IsEntry s.event_capacity k item

-- A change of one invocation that keeps the invariant and only moves it forward.
pub record IsProper (change : Change) : Type 0 where
  pub keeps : (limit : ℕ) (k : ActionKey) → Keeps limit k change
  pub advances : Advances change

-- The same of a sweep over every invocation.
pub record IsSweep (f : ActionInvocation → ActionInvocation) : Type 0 where
  pub keeps :
      (limit : ℕ) (k : ActionKey) (item : ActionInvocation)
      → IsEntry limit k item
      → IsEntry limit k (f item)
  pub evolves : (item : ActionInvocation) → Evolves item (f item)

-- An invocation as its constructor makes it.
pub record IsFresh (item : ActionInvocation) : Type 0 where
  pub phase : item.phase ≡ ActionPhase.dispatching
  pub result : item.result ≡ none
  pub terminal_at : item.terminal_at ≡ none
  pub occupies_concurrency : item.occupies_concurrency ≡ true
  pub next_event_sequence : item.next_event_sequence ≡ 0
  pub last_provider_sequence : item.last_provider_sequence ≡ negsuc 0

-- What `create` stores: the invocation with an empty bounded deque.
abbrev pub stored : ActionInvocationStore → ActionInvocation → ActionInvocation
stored s item = record item { events = []; event_limit = some s.event_capacity }

abbrev pub with_item : ActionInvocationStore → ActionKey → ActionInvocation → ActionInvocationStore
with_item s k item = record s { items = insert k item s.items }

-- `Made` says which invocations are created, and `Dropped` which keys are discarded on request.
module _ (Made : ActionInvocation → Type 0) (Dropped : ActionKey → Type 0) where
  pub data Step (s : ActionInvocationStore) : ActionInvocationStore → Type 0 where
    purged : (now : ℕ) → Step s (purge now s)
    discarded : (k : ActionKey) → Dropped k → Step s (discard k s)
    evicted : (k : ActionKey) → IsVictim s k → Step s (discard k s)
    created :
        (item : ActionInvocation)
        → Made item
        → lookup (key item) s.items ≡ none
        → length s.items < s.capacity
        → Step s (with_item s (key item) (stored s item))
    changed :
        (k : ActionKey) (change : Change) (item item' : ActionInvocation)
        → IsProper change
        → lookup k s.items ≡ some item
        → change item ≡ ok (some item')
        → Step s (with_item s k item')
    swept :
        (f : ActionInvocation → ActionInvocation)
        → IsSweep f
        → Step s (record s { items = map_values f s.items })

  pub data Steps (s : ActionInvocationStore) : ActionInvocationStore → Type 0 where
    here : Steps s s
    next : {t u : ActionInvocationStore} → Steps s t → Step t u → Steps s u

fresh-IsEntry :
    (s : ActionInvocationStore) (item : ActionInvocation)
    → IsFresh item
    → IsEntry s.event_capacity (key item) (stored s item)
unfolding key
fresh-IsEntry s item f = ground arith

module _ (s : ActionInvocationStore) (v : IsValid s) where
  pub purge-IsValid : (now : ℕ) → IsValid (purge now s)
  unfolding purge
  purge-IsValid now = record {
    size = omega (arith, v.size, length-erase_each-le _ s.items);
    distinct = erase_each-IsDistinct _ s.items v.distinct;
    entries = λ k item h. v.entries k item (lookup-erase_each_inv k item _ s.items h).1;
  }

  discard-IsValid : (k : ActionKey) → IsValid (discard k s)
  unfolding discard
  discard-IsValid k = record {
    size = omega (arith, v.size, length-erase-le k s.items);
    distinct = erase-IsDistinct k s.items v.distinct;
    entries = λ j item h. v.entries j item (ground (arith, lookup-erase k j s.items));
  }

  with_item-entries :
      (k : ActionKey) (item : ActionInvocation)
      → IsEntry s.event_capacity k item
      → (j : ActionKey) (other : ActionInvocation) → lookup j (insert k item s.items) ≡ some other
      → IsEntry s.event_capacity j other
  with_item-entries k item sound j other h = elim (lookup-insert_inv k j item other s.items h) [
    | inl (at_key, same) ↦
        subst (λ (x : ActionInvocation). IsEntry s.event_capacity j x) same
          (subst (λ (x : ActionKey). IsEntry s.event_capacity x item) at_key sound)
    | inr (_, held) ↦ v.entries j other held
  ]

  created-IsValid :
      (item : ActionInvocation)
      → IsFresh item
      → lookup (key item) s.items ≡ none
      → length s.items < s.capacity
      → IsValid (with_item s (key item) (stored s item))
  created-IsValid item f new room = record {
    size = omega (arith, length-insert_new (key item) (stored s item) s.items new);
    distinct = insert-IsDistinct (key item) (stored s item) s.items v.distinct;
    entries = with_item-entries (key item) (stored s item) (fresh-IsEntry s item f);
  }

  changed-IsValid :
      (k : ActionKey) (change : Change) (item item' : ActionInvocation)
      → IsProper change
      → lookup k s.items ≡ some item
      → change item ≡ ok (some item')
      → IsValid (with_item s k item')
  changed-IsValid k change item item' p held done = record {
    size = omega (arith, v.size, length-insert_old k item' item s.items held);
    distinct = insert-IsDistinct k item' s.items v.distinct;
    entries =
        with_item-entries k item'
          (p.keeps s.event_capacity k item item' (v.entries k item held) done);
  }

  swept-IsValid :
      (f : ActionInvocation → ActionInvocation)
      → IsSweep f
      → IsValid (record s { items = map_values f s.items })
  swept-IsValid f p = record {
    size = omega (arith, v.size, length-map_values f s.items);
    distinct = map_values-IsDistinct f s.items v.distinct;
    entries = λ k item h.
        let (old, held, same) = lookup-map_values_inv f k item s.items h in
        subst (λ (x : ActionInvocation). IsEntry s.event_capacity k x) same
          (p.keeps s.event_capacity k old (v.entries k old held));
  }

module _ (Made : ActionInvocation → Type 0) (Dropped : ActionKey → Type 0)
    (fresh : (item : ActionInvocation) → Made item → IsFresh item) where
  pub Step-IsValid : {s t : ActionInvocationStore} → Step Made Dropped s t → IsValid s → IsValid t
  Step-IsValid {s} (purged now) v = purge-IsValid s v now
  Step-IsValid {s} (discarded k _) v = discard-IsValid s v k
  Step-IsValid {s} (evicted k _) v = discard-IsValid s v k
  Step-IsValid {s} (created item m new room) v = created-IsValid s v item (fresh item m) new room
  Step-IsValid {s} (changed k c item item' p held done) v =
      changed-IsValid s v k c item item' p held done
  Step-IsValid {s} (swept f p) v = swept-IsValid s v f p

  pub Steps-IsValid : {s t : ActionInvocationStore} → IsValid s → Steps Made Dropped s t → IsValid t
  Steps-IsValid v here = v
  Steps-IsValid v (next r st) = Step-IsValid st (Steps-IsValid v r)
