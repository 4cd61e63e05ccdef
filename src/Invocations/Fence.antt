-- ===== src/Invocations/Fence.antt =====
-- The concurrency fence: an invocation that holds its permit is not forgotten, and a new one is
-- admitted only within the operation's limit.
use adapter_forge_gateway.Prelude.{
  ◌+◌, leb, ◌&&◌, not, ℕ, ◌≤◌, ◌≡◌, true, Option, none, some, arith, inl, inr, Bool-cases,
  Option-cases, if◌then◌else◌, string_eq,
}
use adapter_forge_gateway.Raise.{Result, ok, err, value_error, capacity_error}
use adapter_forge_gateway.Dict.{
  Dict, lookup, insert, keys_where, lookup-insert, lookup-erase_each, elem-keys_where, lookup-erase,
}
use adapter_forge_gateway.Dict.Size.{count-insert_new}
use adapter_forge_gateway.Dict.Inversion.{lookup-insert_self}
use adapter_forge_gateway.Invocations.Item.{ActionKey, key_eq, ActionInvocation, key, is_active}
use adapter_forge_gateway.Invocations.Store.{
  ActionInvocationStore, is_expired, is_evictable, purge, discard, admit, admit_in_room, create,
  operation_active, is_exhausted,
}
use adapter_forge_gateway.Invocations.Eviction.{Room, IsVictim, make_total_capacity-Room}
use adapter_forge_gateway.Invocations.Steps.{IsValid, stored, purge-IsValid}

-- The purge removes exactly the invocations whose retention has run out: those that are closed, have
-- released their permit, and were closed at least the retention time ago.
pub lookup-purge :
    (k : ActionKey) (now : ℕ) (s : ActionInvocationStore)
    → IsValid s
    → lookup k (purge now s).items ≡ elim (lookup k s.items) [
      | none ↦ none
      | some item ↦ elim item.terminal_at [
        | none ↦ some item
        | some t ↦
            if not item.occupies_concurrency && leb (t + s.retention) now then none else some item
      ]
    ]
unfolding purge is_expired
lookup-purge k now s v = ground (
  arith,
  lookup-erase_each k (keys_where (is_expired s.retention now) s.items) s.items,
  elem-keys_where (is_expired s.retention now) k s.items v.distinct,
)

-- `k` holds an invocation that occupies its operation's concurrency.
pub record Occupied (s : ActionInvocationStore) (k : ActionKey) (item : ActionInvocation)
    : Type 0 where
  pub held : lookup k s.items ≡ some item
  pub fenced : item.occupies_concurrency ≡ true

purge-Occupied :
    (now : ℕ) (s : ActionInvocationStore) (k : ActionKey) (item : ActionInvocation)
    → IsValid s
    → Occupied s k item
    → Occupied (purge now s) k item
unfolding is_expired
purge-Occupied now s k item v o = record {
  held = ground (arith, lookup-purge k now s v);
  fenced = o.fenced;
}

evict-Occupied :
    (victim : ActionKey) (s : ActionInvocationStore) (k : ActionKey) (item : ActionInvocation)
    → IsVictim s victim
    → Occupied s k item
    → Occupied (discard victim s) k item
unfolding discard is_evictable
evict-Occupied victim s k item v o = record {
  held = ground (
    arith,
    lookup-erase victim k s.items,
    key_eq.beq_iff victim k,
    v.held,
    v.closed,
    o.fenced,
    o.held,
  );
  fenced = o.fenced;
}

-- A rule for `create`: its four ways to end.
module _ {ℓ} (P : Result (Unit {0}) × ActionInvocationStore → Type ℓ) (new : ActionInvocation)
    (now : ℕ) (limit : Option ℕ) (s : ActionInvocationStore) (v : IsValid s)
    (known : P (err value_error, purge now s)) (full : P (err capacity_error, purge now s))
    (spare : lookup (key new) (purge now s).items ≡ none → P (admit new limit (purge now s)))
    (evicted : (k : ActionKey)
      → IsVictim (purge now s) k
      → lookup (key new) (discard k (purge now s)).items ≡ none
      → P (admit new limit (discard k (purge now s)))) where
  in_room :
      lookup (key new) (purge now s).items ≡ none
      → Room (purge now s)
      → P (admit_in_room new limit (purge now s))
  unfolding admit_in_room discard
  in_room free (Room.spare below e) = rw e (spare free)
  in_room free (Room.evicted k at victim e) =
      rw e (evicted k victim (ground (arith, lookup-erase k (key new) (purge now s).items)))
  in_room free (Room.full at stay e) = rw e full

  pub create_cases : P (create new now limit s)
  unfolding create
  create_cases = elim (Option-cases (lookup (key new) (purge now s).items)) [
    | inl free ↦
        rw (free, create)
          (in_room free (make_total_capacity-Room (purge now s) (purge-IsValid s v now).distinct))
    | inr (old, held) ↦ rw (held, create) known
  ]

insert-held :
    (j k : ActionKey) (new item : ActionInvocation) (d : Dict ActionKey ActionInvocation)
    → lookup j d ≡ none
    → lookup k d ≡ some item
    → lookup k (insert j new d) ≡ some item
insert-held j k new item d free held = ground (arith, lookup-insert j k new d, key_eq.beq_iff j k)

admit-Occupied :
    (new : ActionInvocation) (limit : Option ℕ) (s : ActionInvocationStore) (k : ActionKey)
    (item : ActionInvocation)
    → lookup (key new) s.items ≡ none
    → Occupied s k item
    → Occupied (admit new limit s).1 k item
unfolding admit
admit-Occupied new limit s k item free o =
    elim (Bool-cases (is_exhausted limit (operation_active new.endpoint_id new.operation s))) [
      | inl e ↦ rw (e, admit) o
      | inr e ↦
          rw (e, admit)
            (record {
              held = insert-held (key new) k (stored s new) item s.items free o.held;
              fenced = o.fenced;
            })
    ]

-- Whether `create` returns or raises, no invocation that holds its permit is purged, evicted,
-- overwritten or changed by it.
pub create-Occupied :
    (new : ActionInvocation) (now : ℕ) (limit : Option ℕ) (s : ActionInvocationStore)
    (k : ActionKey) (item : ActionInvocation)
    → IsValid s
    → Occupied s k item
    → Occupied (create new now limit s).1 k item
create-Occupied new now limit s k item v o =
    let p = purge-Occupied now s k item v o in
    create_cases (λ r. Occupied r.1 k item) new now limit s v p p
      (λ free. admit-Occupied new limit (purge now s) k item free p)
      (λ j victim free.
        admit-Occupied new limit (discard j (purge now s)) k item free
          (evict-Occupied j (purge now s) k item victim p))

-- What a `create` under an operation limit promises of its result.
abbrev Within : ActionInvocation → ℕ → Result (Unit {0}) × ActionInvocationStore → Type 0
Within item limit r =
    r.0 ≡ ok tt
    → (operation_active item.endpoint_id item.operation r.1 ≤ limit)
      × (lookup (key item) r.1.items ≡ some (stored r.1 item))

admit-Within :
    (item : ActionInvocation) (limit : ℕ) (s : ActionInvocationStore)
    → lookup (key item) s.items ≡ none
    → Within item limit (admit item (some limit) s)
unfolding admit operation_active
admit-Within item limit s free done = ground (
  arith,
  count-insert_new (is_active item.endpoint_id item.operation) (key item) (stored s item) s.items
      free,
  lookup-insert_self (key item) (stored s item) s.items,
)

create-Within :
    (item : ActionInvocation) (now limit : ℕ) (s : ActionInvocationStore)
    → IsValid s
    → Within item limit (create item now (some limit) s)
create-Within item now limit s v =
    create_cases (Within item limit) item now (some limit) s v (λ done. absurd (cc))
      (λ done. absurd (cc)) (admit-Within item limit (purge now s))
      (λ k victim free. admit-Within item limit (discard k (purge now s)) free)

-- When `create` under an operation limit returns, the new invocation is stored under its key with an
-- empty deque of events, and the operation's active invocations, it included, are within the limit.
pub create_within_limit :
    (item : ActionInvocation) (now limit : ℕ) (s : ActionInvocationStore)
    → IsValid s
    → (create item now (some limit) s).0 ≡ ok tt
    → let t = (create item now (some limit) s).1 in
      (operation_active item.endpoint_id item.operation t ≤ limit)
      × (lookup (key item) t.items ≡ some (stored t item))
create_within_limit item now limit s v done = create-Within item now limit s v done
