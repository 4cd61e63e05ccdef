-- ===== src/Invocations/Methods.antt =====
-- Each method of the store is a sequence of elementary steps.
use adapter_forge_gateway.Prelude.{
  ℕ, ◌≤◌, ◌<◌, ◌≡◌, refl, Option, none, some, arith, length, inl, inr, Option-cases, Bool-cases,
}
use adapter_forge_gateway.Raise.{Result, ok, err}
use adapter_forge_gateway.Dict.{lookup, lookup-erase}
use adapter_forge_gateway.Dict.Size.{length-erase-lt}
use adapter_forge_gateway.Endpoint.Values.{ToolError}
use adapter_forge_gateway.Invocations.Item.{
  ActionPhase, ActionKey, key_eq, ActionInvocation, is_terminal, key,
}
use adapter_forge_gateway.Invocations.Changes.{Change}
use adapter_forge_gateway.Invocations.Store.{
  ActionInvocationStore, purge, discard, admit, admit_in_room, create, update, is_exhausted,
  operation_active, establish_accepted, set_phase, set_terminal_status_hint, set_observation_error,
  set_cancel_status, set_stop_status, append_event, get, resolve_http_key, active_count,
}
use adapter_forge_gateway.Invocations.Observe.{
  snapshot, result_snapshot, event_window, events_after, mark_instance_ambiguous,
  mark_deadlines_ambiguous,
}
use adapter_forge_gateway.Invocations.Invariant.{
  establish_accepted-Keeps, set_phase-Keeps, set_terminal_status_hint-Keeps,
  set_observation_error-Keeps, set_cancel_status-Keeps, set_stop_status-Keeps, append_event-Keeps,
  mark_instance-IsEntry, mark_deadline-IsEntry,
}
use adapter_forge_gateway.Invocations.Evolution.{
  establish_accepted-Advances, set_phase-Advances, set_terminal_status_hint-Advances,
  set_observation_error-Advances, set_cancel_status-Advances, set_stop_status-Advances,
  append_event-Advances, mark_instance-Evolves, mark_deadline-Evolves,
}
use adapter_forge_gateway.Invocations.Eviction.{Room, IsVictim, make_total_capacity-Room}
use adapter_forge_gateway.Invocations.Steps.{IsValid, IsProper, Step, Steps, purge-IsValid}
use adapter_forge_gateway.Invocations.Calls.{Call, perform}

-- What a call may create and discard.
abbrev pub Admits : (ActionInvocation → Type 0) → (ActionKey → Type 0) → Call → Type 0
Admits Made Dropped (Call.create item _ _) = Made item
Admits Made Dropped (Call.discard k) = Dropped k
Admits Made Dropped _ = Unit

module _ (Made : ActionInvocation → Type 0) (Dropped : ActionKey → Type 0) where
  one : {s t : ActionInvocationStore} → Step Made Dropped s t → Steps Made Dropped s t
  one st = Steps.next Steps.here st

  update_outcome :
      (k : ActionKey) (change : Change) (s : ActionInvocationStore) (item : ActionInvocation)
      (r : Result (Option ActionInvocation))
      → IsProper change
      → lookup k s.items ≡ some item
      → change item ≡ r
      → Steps Made Dropped s (update k change s).1
  unfolding update
  update_outcome k change s item (err x) p e h = rw (e, h, update) Steps.here
  update_outcome k change s item (ok none) p e h = rw (e, h, update) Steps.here
  update_outcome k change s item (ok (some item')) p e h =
      rw (e, h, update) (one (Step.changed k change item item' p e h))

  update-Steps :
      (k : ActionKey) (change : Change) (s : ActionInvocationStore)
      → IsProper change
      → Steps Made Dropped s (update k change s).1
  unfolding update
  update-Steps k change s p = elim (Option-cases (lookup k s.items)) [
    | inl e ↦ rw (e, update) Steps.here
    | inr (item, e) ↦ update_outcome k change s item (change item) p e refl
  ]

  -- The last part of `create`, once there is room.
  admit-Steps :
      (item : ActionInvocation) (limit : Option ℕ) (s t : ActionInvocationStore)
      → Made item
      → lookup (key item) t.items ≡ none
      → length t.items < t.capacity
      → Steps Made Dropped s t
      → Steps Made Dropped s (admit item limit t).1
  unfolding admit
  admit-Steps item limit s t m new room r =
      elim (Bool-cases (is_exhausted limit (operation_active item.endpoint_id item.operation t))) [
        | inl e ↦ rw (e, admit) r
        | inr e ↦ rw (e, admit) (Steps.next r (Step.created item m new room))
      ]

  lookup-discard-none :
      (j k : ActionKey) (t : ActionInvocationStore)
      → lookup j t.items ≡ none
      → lookup j (discard k t).items ≡ none
  unfolding discard
  lookup-discard-none j k t new = ground (arith, lookup-erase k j t.items)

  length-discard_victim :
      (k : ActionKey) (t : ActionInvocationStore)
      → IsVictim t k
      → length t.items ≤ t.capacity
      → length (discard k t).items < t.capacity
  unfolding discard
  length-discard_victim k t v h = omega (arith, length-erase-lt k v.item t.items v.held)

  capacity-discard :
      (k : ActionKey) (t : ActionInvocationStore) → (discard k t).capacity ≡ t.capacity
  unfolding discard
  capacity-discard k t = refl

  make_room-Steps :
      (item : ActionInvocation) (limit : Option ℕ) (s t : ActionInvocationStore)
      → Made item
      → lookup (key item) t.items ≡ none
      → IsValid t
      → Steps Made Dropped s t
      → Room t
      → Steps Made Dropped s (admit_in_room item limit t).1
  unfolding admit_in_room
  make_room-Steps item limit s t m new v r (Room.spare below e) =
      rw e (admit-Steps item limit s t m new below r)
  make_room-Steps item limit s t m new v r (Room.evicted k at victim e) = rw e (
      admit-Steps item limit s (discard k t) m (lookup-discard-none (key item) k t new)
        (rw capacity-discard (length-discard_victim k t victim v.size))
        (Steps.next r (Step.evicted k victim)))
  make_room-Steps item limit s t m new v r (Room.full at stay e) = rw e r

  create-Steps :
      (item : ActionInvocation) (now : ℕ) (limit : Option ℕ) (s : ActionInvocationStore)
      → IsValid s
      → Made item
      → Steps Made Dropped s (create item now limit s).1
  unfolding create
  create-Steps item now limit s v m = elim (Option-cases (lookup (key item) (purge now s).items)) [
    | inl e ↦
        let pv = purge-IsValid s v now in
        rw (e, create)
          (make_room-Steps item limit s (purge now s) m e pv (one (Step.purged now))
            (make_total_capacity-Room (purge now s) pv.distinct))
    | inr (old, e) ↦ rw (e, create) (one (Step.purged now))
  ]

  hint-Steps :
      (k : ActionKey) (phase : ActionPhase) (error : Option ToolError) (s : ActionInvocationStore)
      → Steps Made Dropped s (set_terminal_status_hint k phase error s).1
  unfolding set_terminal_status_hint
  hint-Steps k phase error s = elim (Bool-cases (is_terminal phase)) [
    | inl e ↦
        rw (e, set_terminal_status_hint)
          (update-Steps k _ s (record {
            keeps = λ limit j. set_terminal_status_hint-Keeps limit j phase error;
            advances = set_terminal_status_hint-Advances phase error;
          }))
    | inr e ↦ rw (e, set_terminal_status_hint) Steps.here
  ]

  -- From a valid store, every method is a sequence of elementary steps.
  pub perform-Steps :
      (c : Call) (s : ActionInvocationStore)
      → IsValid s
      → Admits Made Dropped c
      → Steps Made Dropped s (perform c s)
  unfolding perform get resolve_http_key active_count snapshot result_snapshot event_window
      events_after establish_accepted set_phase set_observation_error set_cancel_status
      set_stop_status append_event mark_instance_ambiguous mark_deadlines_ambiguous
  perform-Steps (Call.create item now limit) s v m = create-Steps item now limit s v m
  perform-Steps (Call.get k now) s v m = one (Step.purged now)
  perform-Steps (Call.resolve_http_key i now) s v m = one (Step.purged now)
  perform-Steps (Call.active_count e o now) s v m = one (Step.purged now)
  perform-Steps (Call.discard k) s v m = one (Step.discarded k m)
  perform-Steps (Call.snapshot k now) s v m = one (Step.purged now)
  perform-Steps (Call.result_snapshot k now) s v m = one (Step.purged now)
  perform-Steps (Call.event_window k now) s v m = one (Step.purged now)
  perform-Steps (Call.events_after k q now) s v m = one (Step.purged now)
  perform-Steps (Call.establish_accepted k) s v m =
      update-Steps k _ s
        (record { keeps = establish_accepted-Keeps; advances = establish_accepted-Advances })
  perform-Steps (Call.set_phase k phase now r e release) s v m = update-Steps k _ s (record {
    keeps = λ limit j. set_phase-Keeps limit j phase now r e release;
    advances = set_phase-Advances phase now r e release;
  })
  perform-Steps (Call.set_terminal_status_hint k phase e) s v m = hint-Steps k phase e s
  perform-Steps (Call.set_observation_error k e) s v m = update-Steps k _ s (record {
    keeps = λ limit j. set_observation_error-Keeps limit j e;
    advances = set_observation_error-Advances e;
  })
  perform-Steps (Call.set_cancel_status k status) s v m = update-Steps k _ s (record {
    keeps = λ limit j. set_cancel_status-Keeps limit j status;
    advances = set_cancel_status-Advances status;
  })
  perform-Steps (Call.set_stop_status k status) s v m = update-Steps k _ s (record {
    keeps = λ limit j. set_stop_status-Keeps limit j status;
    advances = set_stop_status-Advances status;
  })
  perform-Steps (Call.append_event k event q) s v m = update-Steps k _ s (record {
    keeps = λ limit j. append_event-Keeps limit j event q;
    advances = append_event-Advances event q;
  })
  perform-Steps (Call.mark_instance_ambiguous e i now reason) s v m = one (
      Step.swept _ (record {
        keeps = λ limit j. mark_instance-IsEntry limit j e i now _;
        evolves = mark_instance-Evolves e i now _;
      }))
  perform-Steps (Call.mark_deadlines_ambiguous now epoch) s v m = one (
      Step.swept _ (record {
        keeps = λ limit j. mark_deadline-IsEntry limit j now epoch _;
        evolves = mark_deadline-Evolves now epoch _;
      }))
