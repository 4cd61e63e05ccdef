-- ===== src/Invocations/Tests.antt =====
-- The theorems on `ActionInvocationStore` at concrete stores.
use adapter_forge_gateway.Prelude.{
  leb, ltb, keep, ℕ, ◌-◌, ◌≤◌, ◌≡◌, refl, subst, String, true, false, none, some, List, [], ◌∷◌,
  arith, ◌⊎◌, string_eq, if◌then◌else◌, length, All,
}
use Prim.Native.Nat.{min}
use adapter_forge_gateway.Prelude.Int.{pos, negsuc}
use adapter_forge_gateway.Raise.{ok}
use adapter_forge_gateway.Dict.{
  lookup, insert, erase_each, keys_where, count_values, map_values, erase,
}
use adapter_forge_gateway.Endpoint.Json.{end}
use adapter_forge_gateway.Endpoint.Values.{ToolEvent, ToolEventType, ToolResult, ToolResultStatus}
use adapter_forge_gateway.Invocations.Item.{
  ActionPhase, ActionKey, key_eq, ActionInvocation, ActionInvocationEvent, key, is_active,
  append_bounded,
}
use adapter_forge_gateway.Invocations.Changes.{
  establish_accepted_item, set_phase_item, append_event_item, record_event,
}
use adapter_forge_gateway.Invocations.Store.{
  ActionInvocationStore, init, purge, is_expired, create, admit, admit_in_room, make_total_capacity,
  evictable, is_evictable, operation_active, update, establish_accepted, set_phase, append_event,
  resolve_http_key, keys_of, discard, oldest_from, older, age,
}
use adapter_forge_gateway.Invocations.Observe.{
  events_after, visible_events, is_visible, mark_instance_ambiguous, mark_deadlines_ambiguous,
}
use adapter_forge_gateway.Invocations.Events.{Consecutive}
use adapter_forge_gateway.Invocations.Invariant.{IsEntry}
use adapter_forge_gateway.Invocations.Evolution.{Evolves}
use adapter_forge_gateway.Invocations.Eviction.{Room, make_total_capacity-Room}
use adapter_forge_gateway.Invocations.Steps.{IsValid}
use adapter_forge_gateway.Invocations.Calls.{Call, perform, perform_all}
use adapter_forge_gateway.Invocations.History.{
  init-perform_all-IsValid, perform_all-Evolves, CreatesFresh,
}
use adapter_forge_gateway.Invocations.Fence.{
  Occupied, lookup-purge, create-Occupied, create_within_limit,
}
use adapter_forge_gateway.Invocations.Reading.{
  MayShow, events_after_resume, events_after_hides, resolve_http_key_unique,
}
use adapter_forge_gateway.Invocations.Sweeps.{
  SweptInstance, SweptDeadline, mark_instance_fence, mark_instance_again, mark_deadlines_fence,
}

abbrev new_item : String → ActionInvocation
new_item i = record {
  invocation_id = i;
  attempt_id = "1";
  tool_id = "grasp";
  implementation_id = "arm";
  endpoint_id = "arm";
  endpoint_instance_id = "boot";
  operation = "move";
  caller_id = none;
  deadline_ms = some 50;
  created_at = 1;
  phase = ActionPhase.dispatching;
  result = none;
  error = none;
  observation_error = none;
  cancel_status = none;
  stop_status = none;
  terminal_at = none;
  accepted_established = false;
  occupies_concurrency = true;
  terminal_status_hint = none;
  events = [];
  event_limit = none;
  next_event_sequence = 0;
  last_provider_sequence = negsuc 0;
  terminal_event_seen = false;
}

abbrev empty : ActionInvocationStore
empty = record { capacity = 1; event_capacity = 2; retention = 10; items = [] }

abbrev done : ToolResult
done = record { status = ToolResultStatus.succeeded; outputs = end; error = none }

abbrev tick : ToolEvent
tick = record { type = ToolEventType.progress; payload = end }

-- A move that is accepted, reports three times and completes.
abbrev script : List Call
script =
    Call.create (new_item "a") 1 (some 1)
    ∷ Call.establish_accepted ("a", "1")
    ∷ Call.append_event ("a", "1") tick (pos 0)
    ∷ Call.append_event ("a", "1") tick (pos 1)
    ∷ Call.append_event ("a", "1") tick (pos 2)
    ∷ Call.set_phase ("a", "1") ActionPhase.completed 5 (some done) none true
    ∷ []

abbrev tick_at : ℕ → ActionInvocationEvent
tick_at n = record { sequence = n; type = ToolEventType.progress; payload = end }

abbrev completed_item : ActionInvocation
completed_item =
    let i = new_item "a" in
    record i {
      phase = ActionPhase.completed;
      result = some done;
      terminal_at = some 5;
      accepted_established = true;
      occupies_concurrency = false;
      events = tick_at 1 ∷ tick_at 2 ∷ [];
      event_limit = some 2;
      next_event_sequence = 3;
      last_provider_sequence = pos 2;
    }

abbrev completed : ActionInvocationStore
completed = record empty { items = (("a", "1"), completed_item) ∷ [] }

abbrev busy_item : ActionInvocation
busy_item = let i = new_item "a" in record i { event_limit = some 2 }

abbrev busy : ActionInvocationStore
busy = record empty { items = (("a", "1"), busy_item) ∷ [] }

init-empty : init 1 2 10 ≡ ok empty
unfolding init
init-empty = refl

script-CreatesFresh : CreatesFresh script
script-CreatesFresh = ground arith

script-completed : perform_all script empty ≡ completed
unfolding perform_all perform create admit_in_room make_total_capacity admit purge is_expired
    keys_where erase_each lookup insert operation_active count_values key update establish_accepted
    establish_accepted_item append_event append_event_item record_event append_bounded set_phase
    set_phase_item
script-completed = refl

script-busy : perform_all (Call.create (new_item "a") 1 (some 1) ∷ []) empty ≡ busy
unfolding perform_all perform create admit_in_room make_total_capacity admit purge is_expired
    keys_where erase_each lookup insert operation_active count_values key
script-busy = refl

completed-IsValid : IsValid completed
completed-IsValid =
    subst IsValid script-completed
      (init-perform_all-IsValid 1 2 10 script empty init-empty script-CreatesFresh)

busy-IsValid : IsValid busy
busy-IsValid = subst IsValid script-busy (
    init-perform_all-IsValid 1 2 10 (Call.create (new_item "a") 1 (some 1) ∷ []) empty init-empty
      (ground arith))

init-perform_all-IsValid_example : IsValid (perform_all script empty)
init-perform_all-IsValid_example =
    init-perform_all-IsValid 1 2 10 script empty init-empty script-CreatesFresh

abbrev late_calls : List Call
late_calls =
    Call.set_phase ("a", "1") ActionPhase.failed 7 (some done) none true
    ∷ Call.mark_instance_ambiguous "arm" "boot" 8 "gone"
    ∷ []

late_lookup : lookup ("a", "1") (perform_all late_calls completed).items ≡ some completed_item
unfolding perform_all perform set_phase update set_phase_item lookup mark_instance_ambiguous
    map_values
late_lookup = refl

perform_all-Evolves_example :
    (a : ActionInvocation) × (lookup ("a", "1") completed.items ≡ some a) × Evolves a completed_item
perform_all-Evolves_example =
    perform_all-Evolves ("a", "1") late_calls completed completed_item completed-IsValid
      (tt, (tt, tt)) late_lookup

busy-Occupied : Occupied busy ("a", "1") busy_item
unfolding lookup
busy-Occupied = record { held = refl; fenced = refl }

create-Occupied_example : Occupied (create (new_item "b") 99 none busy).1 ("a", "1") busy_item
create-Occupied_example =
    create-Occupied (new_item "b") 99 none busy ("a", "1") busy_item busy-IsValid busy-Occupied

create_evicts : (create (new_item "b") 6 (some 1) completed).0 ≡ ok tt
unfolding create admit_in_room make_total_capacity admit purge is_expired keys_where erase_each
    lookup insert operation_active count_values key evictable is_evictable is_active discard erase
    oldest_from older age
create_evicts = refl

create_within_limit_example :
    operation_active "arm" "move" (create (new_item "b") 6 (some 1) completed).1 ≤ 1
create_within_limit_example =
    (create_within_limit (new_item "b") 6 1 completed completed-IsValid create_evicts).0

make_total_capacity-Room_example : Room completed
make_total_capacity-Room_example = make_total_capacity-Room completed completed-IsValid.distinct

lookup-purge_example :
    lookup ("a", "1") (purge 20 completed).items ≡ (if leb 16 20 then none else some completed_item)
unfolding lookup
lookup-purge_example = lookup-purge ("a", "1") 20 completed completed-IsValid

completed_held : lookup ("a", "1") (purge 6 completed).items ≡ some completed_item
unfolding purge is_expired keys_where erase_each lookup
completed_held = refl

completed-IsEntry : IsEntry 2 ("a", "1") completed_item
unfolding lookup
completed-IsEntry = completed-IsValid.entries ("a", "1") completed_item refl

events_after_resume_example :
    (es : List ActionInvocationEvent) × ((events_after ("a", "1") (pos 1) 6 completed).0
      ≡ ok (some es))
    × (es ≡ keep (λ e. ltb 1 e.sequence) completed_item.events)
    × Consecutive es 3
    × (length es ≡ min 2 (3 - 2))
events_after_resume_example =
    events_after_resume ("a", "1") 1 2 6 completed completed_item done completed_held
      completed-IsEntry refl refl

resumed : (events_after ("a", "1") (pos 1) 6 completed).0 ≡ ok (some (tick_at 2 ∷ []))
unfolding events_after visible_events is_visible purge is_expired keys_where erase_each lookup
resumed = refl

events_after_hides_example :
    (item : ActionInvocation) × (lookup ("a", "1") (purge 6 completed).items ≡ some item)
    × All (MayShow (pos 1) item.result) (tick_at 2 ∷ [])
    × ((item.accepted_established ≡ true) ⊎ (tick_at 2 ∷ [] ≡ []))
events_after_hides_example =
    events_after_hides ("a", "1") (pos 1) 6 completed (tick_at 2 ∷ []) resumed

resolved : (resolve_http_key "a" 6 completed).0 ≡ ok (some ("a", "1"))
unfolding resolve_http_key keys_of purge is_expired keys_where erase_each lookup
resolved = refl

resolve_http_key_unique_example : ◌≡◌ {A = ActionKey} ("a", "1") ("a", "1")
resolve_http_key_unique_example =
    resolve_http_key_unique "a" 6 completed ("a", "1") ("a", "1") completed_item resolved
      completed_held refl

swept :
    lookup ("a", "1") (mark_instance_ambiguous "arm" "boot" 8 "gone" completed).1.items
    ≡ some completed_item
unfolding mark_instance_ambiguous map_values lookup
swept = refl

mark_instance_fence_example :
    (a : ActionInvocation) × (lookup ("a", "1") completed.items ≡ some a)
    × SweptInstance "arm" "boot" 8 a completed_item
mark_instance_fence_example =
    mark_instance_fence "arm" "boot" 8 "gone" completed ("a", "1") completed_item swept

mark_instance_again_example :
    (mark_instance_ambiguous "arm" "boot" 9 "late"
      (mark_instance_ambiguous "arm" "boot" 8 "gone" busy).1).0
    ≡ ok 0
mark_instance_again_example = mark_instance_again "arm" "boot" 8 9 "gone" "late" busy

mark_deadlines_fence_example :
    (b : ActionInvocation) × (lookup ("a", "1") (mark_deadlines_ambiguous 60 60 busy).1.items
      ≡ some b)
    × SweptDeadline 60 60 busy_item b
unfolding lookup
mark_deadlines_fence_example = mark_deadlines_fence 60 60 busy ("a", "1") busy_item refl
