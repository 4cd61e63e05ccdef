-- ===== src/Invocations/Store.antt =====
-- `ActionInvocationStore` of src/forge_gateway/domain/action_invocations.py. A method runs under the
-- store's lock, so it is one step. The condition variable only wakes waiters, and is left out.
use Prim.Native.Nat.{Ordering}
use Prim.Native.String.{compare}
use adapter_forge_gateway.Prelude.{
  ℕ, ◌+◌, ◌&&◌, ◌||◌, not, String, Bool, true, false, Option, none, some, List, [], ◌∷◌, ◌==◌, leb,
  ltb, length, if◌then◌else◌, nat_eq, string_eq,
}
use adapter_forge_gateway.Prelude.Int.{ℤ}
use adapter_forge_gateway.Raise.{Result, ok, err, value_error, capacity_error, Action}
use adapter_forge_gateway.Dict.{Dict, lookup, insert, erase, erase_each, keys_where, count_values}
use adapter_forge_gateway.Endpoint.Values.{ToolError, ToolResult, ToolEvent}
use adapter_forge_gateway.Invocations.Item.{
  ActionPhase, ActionKey, key_eq, ActionInvocation, is_terminal, key, is_active,
}
use adapter_forge_gateway.Invocations.Changes.{
  Change, establish_accepted_item, set_phase_item, set_terminal_status_hint_item,
  set_observation_error_item, set_cancel_status_item, set_stop_status_item, append_event_item,
}

pub record ActionInvocationStore : Type 0 where
  pub capacity : ℕ
  pub event_capacity : ℕ
  pub retention : ℕ
  pub items : Dict ActionKey ActionInvocation

-- `__init__`; a retention is not negative here.
unfoldable pub init : ℕ → ℕ → ℕ → Result ActionInvocationStore
init capacity event_capacity retention =
    if ltb capacity 1 || ltb event_capacity 1
    then err value_error
    else ok (record {
      capacity = capacity;
      event_capacity = event_capacity;
      retention = retention;
      items = [];
    })

-- The test of `_purge_locked`.
unfoldable pub is_expired : ℕ → ℕ → ActionInvocation → Bool
is_expired retention now item = elim item.terminal_at [
  | none ↦ false
  | some t ↦ not item.occupies_concurrency && leb (t + retention) now
]

unfoldable pub purge : ℕ → ActionInvocationStore → ActionInvocationStore
purge now s = record s {
  items = erase_each (keys_where (is_expired s.retention now) s.items) s.items;
}

-- The test and the sort key of `_make_total_capacity_locked`.
unfoldable pub is_evictable : ActionInvocation → Bool
is_evictable item = is_terminal item.phase && not item.occupies_concurrency

-- `item.terminal_at or item.created_at`: Python's `or` skips a zero as it does `None`.
unfoldable pub age : ActionInvocation → ℕ
age item = elim item.terminal_at [
  | none ↦ item.created_at
  | some t ↦ if t == 0 then item.created_at else t
]

abbrev text_ltb : String → String → Bool
text_ltb a b = elim (compare a b) [ Ordering.lt ↦ true | _ ↦ false ]

-- Python compares tuples in order, and texts by code points.
unfoldable pub older : ℕ × ActionKey → ℕ × ActionKey → Bool
older (t, (i, a)) (u, (j, b)) = ltb t u || (t == u && (text_ltb i j || (i == j && text_ltb a b)))

-- `min`: the first of the least entries.
unfoldable pub oldest_from : ℕ × ActionKey → List (ℕ × ActionKey) → ℕ × ActionKey
oldest_from best [] = best
oldest_from best (x ∷ xs) = oldest_from (if older x best then x else best) xs

unfoldable pub evictable : Dict ActionKey ActionInvocation → List (ℕ × ActionKey)
evictable [] = []
evictable ((k, item) ∷ d) =
    let rest = evictable d in if is_evictable item then (age item, k) ∷ rest else rest

unfoldable pub discard : ActionKey → ActionInvocationStore → ActionInvocationStore
discard k s = record s { items = erase k s.items }

unfoldable pub make_total_capacity : Action ActionInvocationStore (Unit {0})
make_total_capacity s =
    if ltb (length s.items) s.capacity then (ok tt, s) else elim (evictable s.items) [
      | [] ↦ (err capacity_error, s)
      | x ∷ xs ↦ (ok tt, discard (oldest_from x xs).1 s)
    ]

-- `active_count` without its purge.
unfoldable pub operation_active : String → String → ActionInvocationStore → ℕ
operation_active endpoint operation s = count_values (is_active endpoint operation) s.items

-- `operation_capacity is not None and operation_active >= operation_capacity`
abbrev pub is_exhausted : Option ℕ → ℕ → Bool
is_exhausted none active = false
is_exhausted (some limit) active = leb limit active

-- The last part of `create`: the concurrency test, and the insertion.
unfoldable pub admit : ActionInvocation → Option ℕ → Action ActionInvocationStore (Unit {0})
unfolding key
admit invocation operation_capacity s =
    if is_exhausted operation_capacity
      (operation_active invocation.endpoint_id invocation.operation s)
    then (err capacity_error, s)
    else (
      ok tt,
      record s {
        items =
            insert (key invocation)
              (record invocation { events = []; event_limit = some s.event_capacity }) s.items;
      },
    )

-- `create` from `_make_total_capacity_locked` on: a raise there ends it.
abbrev pub after_room :
    ActionInvocation
    → Option ℕ
    → Result (Unit {0}) × ActionInvocationStore
    → Result (Unit {0}) × ActionInvocationStore
after_room invocation operation_capacity (err x, s) = (err x, s)
after_room invocation operation_capacity (ok _, s) = admit invocation operation_capacity s

unfoldable pub admit_in_room : ActionInvocation → Option ℕ → Action ActionInvocationStore (Unit {0})
admit_in_room invocation operation_capacity s =
    after_room invocation operation_capacity (make_total_capacity s)

unfoldable pub create : ActionInvocation → ℕ → Option ℕ → Action ActionInvocationStore (Unit {0})
unfolding key
create invocation now operation_capacity s =
    let purged = purge now s in
    elim (lookup (key invocation) purged.items) [
      | some _ ↦ (err value_error, purged)
      | none ↦ admit_in_room invocation operation_capacity purged
    ]

unfoldable pub get : ActionKey → ℕ → Action ActionInvocationStore (Option ActionInvocation)
get k now s = let purged = purge now s in (ok (lookup k purged.items), purged)

-- `[key for key in self._items if key[0] == invocation_id]`
unfoldable pub keys_of : String → Dict ActionKey ActionInvocation → List ActionKey
keys_of invocation_id [] = []
keys_of invocation_id ((k, item) ∷ d) =
    let rest = keys_of invocation_id d in if k.0 == invocation_id then k ∷ rest else rest

-- `matches[0] if len(matches) == 1 else None`
abbrev pub only : List ActionKey → Option ActionKey
only (k ∷ []) = some k
only _ = none

unfoldable pub resolve_http_key : String → ℕ → Action ActionInvocationStore (Option ActionKey)
resolve_http_key invocation_id now s =
    let purged = purge now s in (ok (only (keys_of invocation_id purged.items)), purged)

unfoldable pub active_count : String → String → ℕ → Action ActionInvocationStore ℕ
active_count endpoint operation now s =
    let purged = purge now s in (ok (operation_active endpoint operation purged), purged)

-- A method on the invocation at a key: false if there is none.
unfoldable pub update : ActionKey → Change → Action ActionInvocationStore Bool
update k change s = elim (lookup k s.items) [
  | none ↦ (ok false, s)
  | some item ↦ elim (change item) [
    | err x ↦ (err x, s)
    | ok none ↦ (ok false, s)
    | ok (some item') ↦ (ok true, record s { items = insert k item' s.items })
  ]
]

unfoldable pub establish_accepted : ActionKey → Action ActionInvocationStore Bool
establish_accepted k = update k establish_accepted_item

unfoldable pub set_phase :
    ActionKey
    → ActionPhase
    → ℕ
    → Option ToolResult
    → Option ToolError
    → Bool
    → Action ActionInvocationStore Bool
set_phase k phase now result error release =
    update k (set_phase_item phase now result error release)

unfoldable pub set_terminal_status_hint :
    ActionKey → ActionPhase → Option ToolError → Action ActionInvocationStore Bool
set_terminal_status_hint k phase error s =
    if not (is_terminal phase)
    then (err value_error, s)
    else update k (set_terminal_status_hint_item phase error) s

unfoldable pub set_observation_error : ActionKey → ToolError → Action ActionInvocationStore Bool
set_observation_error k error = update k (set_observation_error_item error)

unfoldable pub set_cancel_status : ActionKey → String → Action ActionInvocationStore Bool
set_cancel_status k status = update k (set_cancel_status_item status)

unfoldable pub set_stop_status : ActionKey → String → Action ActionInvocationStore Bool
set_stop_status k status = update k (set_stop_status_item status)

unfoldable pub append_event : ActionKey → ToolEvent → ℤ → Action ActionInvocationStore Bool
append_event k event provider_sequence = update k (append_event_item event provider_sequence)
