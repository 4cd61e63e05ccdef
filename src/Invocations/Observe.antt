-- ===== src/Invocations/Observe.antt =====
-- The readings of `ActionInvocationStore`, and its two sweeps over every invocation, in
-- src/forge_gateway/domain/action_invocations.py.
use adapter_forge_gateway.Prelude.{
  ℕ, ◌&&◌, ◌||◌, not, String, Bool, false, Option, none, some, List, [], ◌∷◌, ◌==◌, keep,
  if◌then◌else◌, is_some, string_eq,
}
use adapter_forge_gateway.Prelude.Int.{ℤ, pos, ltb_ℤ}
use adapter_forge_gateway.Raise.{ok, Action}
use adapter_forge_gateway.Dict.{lookup, map_values, count_values}
use adapter_forge_gateway.Endpoint.Json.{end}
use adapter_forge_gateway.Endpoint.Values.{ToolError, ToolResult}
use adapter_forge_gateway.Invocations.Item.{
  ActionPhase, ActionKey, key_eq, ActionInvocation, ActionInvocationEvent, is_terminal,
  is_terminal_event,
}
use adapter_forge_gateway.Invocations.Changes.{mark_instance_item, mark_deadline_item, is_overdue}
use adapter_forge_gateway.Invocations.Store.{ActionInvocationStore, purge}

-- `{"status": "pending"}`, or the available result.
pub data ResultSnapshot : Type 0 where
  pending : ResultSnapshot
  available : ToolResult → ResultSnapshot

abbrev pub result_view : Option ToolResult → ResultSnapshot
result_view none = pending
result_view (some result) = available result

-- The dict of `_snapshot_locked`: an optional field is a key that may be missing.
pub record Snapshot : Type 0 where
  pub invocation_id : String
  pub attempt_id : String
  pub tool_id : String
  pub implementation_id : String
  pub endpoint_id : String
  pub operation : String
  pub phase : ActionPhase
  pub accepted : Bool
  pub occupies_concurrency : Bool
  pub cancel_status : Option String
  pub stop_status : Option String
  pub created_at : ℕ
  pub deadline_ms : Option ℕ
  pub result : Option ToolResult
  pub error : Option ToolError
  pub observation_error : Option ToolError
  pub terminal_status_hint : Option ActionPhase

unfoldable pub snapshot_of : ActionInvocation → Snapshot
snapshot_of item = record {
  invocation_id = item.invocation_id;
  attempt_id = item.attempt_id;
  tool_id = item.tool_id;
  implementation_id = item.implementation_id;
  endpoint_id = item.endpoint_id;
  operation = item.operation;
  phase = item.phase;
  accepted = item.accepted_established;
  occupies_concurrency = item.occupies_concurrency;
  cancel_status = item.cancel_status;
  stop_status = item.stop_status;
  created_at = item.created_at;
  deadline_ms = item.deadline_ms;
  result = item.result;
  error = item.error;
  observation_error = item.observation_error;
  terminal_status_hint = item.terminal_status_hint;
}

-- A reading of the invocation at a key, after the purge.
abbrev pub reading :
    {A : Type 0} → ActionKey → ℕ → (ActionInvocation → A) → Action ActionInvocationStore (Option A)
reading k now view s =
    let purged = purge now s in
    (ok (elim (lookup k purged.items) [ none ↦ none | some item ↦ some (view item) ]), purged)

unfoldable pub snapshot : ActionKey → ℕ → Action ActionInvocationStore (Option Snapshot)
snapshot k now = reading k now snapshot_of

unfoldable pub result_snapshot :
    ActionKey → ℕ → Action ActionInvocationStore (Option ResultSnapshot)
result_snapshot k now = reading k now (λ item. result_view item.result)

-- An event is shown past the cursor, and a terminal event only beside the result.
unfoldable pub is_visible : ℤ → Option ToolResult → ActionInvocationEvent → Bool
is_visible sequence result event =
    ltb_ℤ sequence (pos event.sequence) && (not (is_terminal_event event.type) || is_some result)

unfoldable pub visible_events : ℤ → ActionInvocation → List ActionInvocationEvent
unfolding is_visible
visible_events sequence item =
    if item.accepted_established then keep (is_visible sequence item.result) item.events else []

unfoldable pub events_after :
    ActionKey → ℤ → ℕ → Action ActionInvocationStore (Option (List ActionInvocationEvent))
events_after k sequence now = reading k now (visible_events sequence)

unfoldable pub window : ActionInvocation → ℕ × ℕ
window item = elim item.events [
  | [] ↦ (item.next_event_sequence, item.next_event_sequence)
  | event ∷ _ ↦ (event.sequence, item.next_event_sequence)
]

unfoldable pub event_window : ActionKey → ℕ → Action ActionInvocationStore (Option (ℕ × ℕ))
event_window k now = reading k now window

-- The test under which `mark_instance_ambiguous` counts a change.
unfoldable pub is_interrupted : String → String → ActionInvocation → Bool
is_interrupted endpoint instance_id item =
    item.endpoint_id == endpoint
    && item.endpoint_instance_id == instance_id
    && not (is_terminal item.phase)

unfoldable pub outcome_unknown : String → ToolError
outcome_unknown reason = record {
  code = "FORGE_TOOL_EXECUTION_OUTCOME_UNKNOWN";
  message = reason;
  retryable = false;
  details = end;
}

unfoldable pub mark_instance_ambiguous :
    String → String → ℕ → String → Action ActionInvocationStore ℕ
unfolding outcome_unknown mark_instance_item is_interrupted
mark_instance_ambiguous endpoint instance_id now reason s = (
  ok (count_values (is_interrupted endpoint instance_id) s.items),
  record s {
    items =
        map_values (mark_instance_item endpoint instance_id now (outcome_unknown reason)) s.items;
  },
)

unfoldable pub deadline_exceeded : ToolError
deadline_exceeded = record {
  code = "FORGE_TOOL_DEADLINE_EXCEEDED_OUTCOME_UNKNOWN";
  message =
      "Action deadline elapsed; deadline does not stop provider execution and the final outcome is unknown";
  retryable = false;
  details = end;
}

unfoldable pub mark_deadlines_ambiguous : ℕ → ℕ → Action ActionInvocationStore ℕ
unfolding deadline_exceeded mark_deadline_item is_overdue
mark_deadlines_ambiguous now epoch s = (
  ok (count_values (is_overdue epoch) s.items),
  record s { items = map_values (mark_deadline_item now epoch deadline_exceeded) s.items },
)
