-- ===== src/Invocations/Reading.antt =====
-- What a reader of events sees, and how an HTTP caller's ID is resolved.
use Prim.Native.Nat.{min}
use adapter_forge_gateway.Prelude.{
  refl, ltb, ℕ, suc, ◌-◌, ◌≡◌, subst, ◌⊎◌, String, true, false, Option, some, List, [], ◌∷◌, arith,
  length, keep, All, is_some, Bool-cases, inl, inr, string_eq, Option-cases,
}
use adapter_forge_gateway.Prelude.Int.{ℤ, pos, ltb_ℤ}
use adapter_forge_gateway.Raise.{ok}
use adapter_forge_gateway.Dict.{Dict, lookup}
use adapter_forge_gateway.Endpoint.Values.{ToolResult}
use adapter_forge_gateway.Invocations.Item.{
  ActionKey, key_eq, ActionInvocation, ActionInvocationEvent, is_terminal_event,
}
use adapter_forge_gateway.Invocations.Store.{
  ActionInvocationStore, purge, keys_of, only, resolve_http_key,
}
use adapter_forge_gateway.Invocations.Observe.{events_after, visible_events, is_visible}
use adapter_forge_gateway.Invocations.Events.{Consecutive}
use adapter_forge_gateway.Invocations.Invariant.{IsEntry}

-- No event at or before the cursor, and no terminal event without a result.
abbrev pub MayShow : ℤ → Option ToolResult → ActionInvocationEvent → Type 0
MayShow cursor result e =
    (ltb_ℤ cursor (pos e.sequence) ≡ true)
    × ((is_terminal_event e.type ≡ false) ⊎ (is_some result ≡ true))

keep-MayShow :
    (cursor : ℤ) (result : Option ToolResult) (es : List ActionInvocationEvent)
    → All (MayShow cursor result) (keep (is_visible cursor result) es)
unfolding is_visible
keep-MayShow cursor result [] = tt
keep-MayShow cursor result (e ∷ es) = ground (arith, keep-MayShow cursor result es)

keep-Consecutive :
    (c next : ℕ) (r : ToolResult) (es : List ActionInvocationEvent)
    → Consecutive es next
    → Consecutive (keep (is_visible (pos c) (some r)) es) next
      × (length (keep (is_visible (pos c) (some r)) es) ≡ min (length es) (next - suc c))
unfolding is_visible
keep-Consecutive c next r [] h = (tt, omega arith)
keep-Consecutive c next r (e ∷ es) h =
    let (run, size) = keep-Consecutive c next r es h.1 in ground (arith, h.0, run, size)

keep-past :
    (c : ℕ) (r : ToolResult) (es : List ActionInvocationEvent)
    → keep (is_visible (pos c) (some r)) es ≡ keep (λ e. ltb c e.sequence) es
unfolding is_visible
keep-past c r [] = refl
keep-past c r (e ∷ es) = ground (arith, keep-past c r es)

-- A reader that resumes after number `c` gets, of an accepted invocation with a result, exactly the
-- retained events whose number is past `c`, in their order and as they are retained: consecutive
-- ones up to the next number, and as many as are retained or as there are past `c`, whichever is less.
pub events_after_resume :
    (k : ActionKey) (c limit now : ℕ) (s : ActionInvocationStore) (item : ActionInvocation)
    (r : ToolResult)
    → lookup k (purge now s).items ≡ some item
    → IsEntry limit k item
    → item.accepted_established ≡ true
    → item.result ≡ some r
    → (es : List ActionInvocationEvent) × ((events_after k (pos c) now s).0 ≡ ok (some es))
      × (es ≡ keep (λ e. ltb c e.sequence) item.events)
      × Consecutive es item.next_event_sequence
      × (length es ≡ min (length item.events) (item.next_event_sequence - suc c))
unfolding events_after visible_events
events_after_resume k c limit now s item r held v accepted result =
    let (run, size) = keep-Consecutive c item.next_event_sequence r item.events v.consecutive in
    (
      keep (is_visible (pos c) (some r)) item.events,
      ground (arith, held, accepted, result),
      keep-past c r item.events,
      run,
      size,
    )

visible_events-MayShow :
    (cursor : ℤ) (item : ActionInvocation)
    → All (MayShow cursor item.result) (visible_events cursor item)
unfolding visible_events
visible_events-MayShow cursor item = elim (Bool-cases item.accepted_established) [
  | inl e ↦ rw e (keep-MayShow cursor item.result item.events)
  | inr e ↦ rw e tt
]

-- Every event that `events_after` returns lies past the cursor, and is no terminal event while the
-- invocation has no result; before acceptance there is none.
pub events_after_hides :
    (k : ActionKey) (cursor : ℤ) (now : ℕ) (s : ActionInvocationStore)
    (es : List ActionInvocationEvent)
    → (events_after k cursor now s).0 ≡ ok (some es)
    → (item : ActionInvocation) × (lookup k (purge now s).items ≡ some item)
      × All (MayShow cursor item.result) es
      × ((item.accepted_established ≡ true) ⊎ (es ≡ []))
unfolding events_after
events_after_hides k cursor now s es h = elim (Option-cases (lookup k (purge now s).items)) [
  | inl e ↦ absurd (ground (arith, e, h))
  | inr (item, e) ↦
      let shown : visible_events cursor item ≡ es = ground (arith, e, h) in
      (
        item,
        e,
        subst (All (MayShow cursor item.result)) shown (visible_events-MayShow cursor item),
        unfold visible_events in ground (arith, shown),
      )
]

-- Every held key of an invocation ID is among the matches.
keys_of-All :
    (m : ActionKey) (i : String) (j : ActionKey) (item : ActionInvocation)
    (d : Dict ActionKey ActionInvocation)
    → All (λ x. x ≡ m) (keys_of i d)
    → lookup j d ≡ some item
    → j.0 ≡ i
    → j ≡ m
unfolding keys_of lookup
keys_of-All m i j item [] h held e = absurd (ground (arith, held))
keys_of-All m i j item ((k, other) ∷ d) h held e =
    ground (arith, key_eq.beq_iff k j, string_eq.beq_iff k.0 i, keys_of-All m i j item d)

only-All : (ks : List ActionKey) (k : ActionKey) → only ks ≡ some k → All (λ x. x ≡ k) ks
only-All [] k h = tt
only-All (x ∷ []) k h = (cc, tt)
only-All (x ∷ y ∷ ks) k h = absurd (cc)

-- When `resolve_http_key` returns a key, every retained invocation of that ID is the one at that key.
pub resolve_http_key_unique :
    (i : String) (now : ℕ) (s : ActionInvocationStore) (k j : ActionKey) (item : ActionInvocation)
    → (resolve_http_key i now s).0 ≡ ok (some k)
    → lookup j (purge now s).items ≡ some item
    → j.0 ≡ i
    → j ≡ k
unfolding resolve_http_key
resolve_http_key_unique i now s k j item h held e =
    keys_of-All k i j item (purge now s).items
      (only-All (keys_of i (purge now s).items) k (ground (arith, h))) held e
