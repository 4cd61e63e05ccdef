-- ===== src/Invocations/Changes.antt =====
-- What each method of `ActionInvocationStore` does to the one invocation that it names. `ok none` is
-- a method that returns false and writes nothing.
use adapter_forge_gateway.Prelude.{
  ℕ, ◌+◌, ◌&&◌, ◌||◌, not, String, Bool, true, false, Option, none, some, ◌==◌, leb, ltb, is_some,
  if◌then◌else◌, string_eq,
}
use adapter_forge_gateway.Prelude.Int.{ℤ, succ_ℤ, int_eq}
use adapter_forge_gateway.Raise.{Result, ok, err, value_error, key_error, ◌>>=◌}
use adapter_forge_gateway.Endpoint.Values.{ToolError, ToolResult, ToolEvent}
use adapter_forge_gateway.Invocations.Item.{
  ActionPhase, ActionInvocation, is_terminal, is_unknown, is_terminal_event, nonterminal_order,
  append_bounded, close_unknown,
}

abbrev pub Change : Type 0
Change = ActionInvocation → Result (Option ActionInvocation)

-- `_NONTERMINAL_ORDER[phase]`
abbrev pub order_of : ActionPhase → Result ℕ
order_of phase = elim (nonterminal_order phase) [ none ↦ err key_error | some n ↦ ok n ]

unfoldable pub establish_accepted_item : Change
establish_accepted_item item = if is_terminal item.phase then ok none else (do
  at ← order_of item.phase
  goal ← order_of ActionPhase.accepted
  ok (
      some (record item {
        accepted_established = true;
        phase = if ltb at goal then ActionPhase.accepted else item.phase;
        observation_error = none;
      })))

-- The branch of `set_phase` for a terminal phase.
unfoldable pub close_item : ActionPhase → ℕ → Option ToolResult → Option ToolError → Bool → Change
close_item phase now none error release item = err value_error
close_item phase now (some result) error release item = ok (
    some (record item {
      phase = phase;
      result = some result;
      error = error;
      observation_error = none;
      terminal_at = some now;
      occupies_concurrency = not release;
    }))

-- The branch of `set_phase` for a nonterminal phase.
unfoldable pub advance_item : ActionPhase → Option ToolResult → Option ToolError → Change
advance_item phase result error item = if is_some result then err value_error else (do
  to ← order_of phase
  at ← order_of item.phase
  ok (
      if leb to at
      then none
      else some (record item { phase = phase; error = error; observation_error = none })))

unfoldable pub set_phase_item :
    ActionPhase → ℕ → Option ToolResult → Option ToolError → Bool → Change
unfolding close_item advance_item
set_phase_item phase now result error release item =
    if is_terminal item.phase && not (is_unknown item.phase)
    then ok none
    else if is_unknown item.phase && not (is_terminal phase)
    then ok none
    else if is_terminal phase
    then close_item phase now result error release item
    else advance_item phase result error item

unfoldable pub set_terminal_status_hint_item : ActionPhase → Option ToolError → Change
set_terminal_status_hint_item phase error item =
    if is_terminal item.phase
    then ok none
    else ok (
        some (record item {
          error = error;
          observation_error = none;
          terminal_status_hint = some phase;
        }))

unfoldable pub set_observation_error_item : ToolError → Change
set_observation_error_item error item = ok (some (record item { observation_error = some error }))

unfoldable pub set_cancel_status_item : String → Change
set_cancel_status_item status item = ok (some (record item { cancel_status = some status }))

unfoldable pub set_stop_status_item : String → Change
set_stop_status_item status item = ok (some (record item { stop_status = some status }))

-- The writes of `append_event`, after its guards.
unfoldable pub record_event : ToolEvent → ℤ → ActionInvocation → ActionInvocation
unfolding append_bounded
record_event event provider_sequence item =
    let ends = is_terminal_event event.type in
    record item {
      occupies_concurrency =
          if ends && is_unknown item.phase then false else item.occupies_concurrency;
      events = append_bounded item.event_limit item.events (record {
        sequence = item.next_event_sequence;
        type = event.type;
        payload = event.payload;
      });
      next_event_sequence = item.next_event_sequence + 1;
      last_provider_sequence = provider_sequence;
      terminal_event_seen = ends || item.terminal_event_seen;
    }

unfoldable pub append_event_item : ToolEvent → ℤ → Change
append_event_item event provider_sequence item =
    if is_terminal item.phase && not (is_unknown item.phase)
    then ok none
    else if item.terminal_event_seen
    then err value_error
    else if not (provider_sequence == succ_ℤ item.last_provider_sequence)
    then err value_error
    else ok (some (record_event event provider_sequence item))

-- One turn of the loop of `mark_instance_ambiguous`.
unfoldable pub mark_instance_item :
    String → String → ℕ → ToolError → ActionInvocation → ActionInvocation
unfolding close_unknown
mark_instance_item endpoint instance_id now error item =
    if item.endpoint_id == endpoint && item.endpoint_instance_id == instance_id
    then (if is_terminal item.phase
        then record item { occupies_concurrency = false }
        else record (close_unknown now error item) { occupies_concurrency = false })
    else item

-- `item.deadline_ms is not None and item.deadline_ms <= epoch_ms`
abbrev pub is_due : ℕ → Option ℕ → Bool
is_due epoch none = false
is_due epoch (some deadline) = leb deadline epoch

-- The test and the turn of the loop of `mark_deadlines_ambiguous`.
unfoldable pub is_overdue : ℕ → ActionInvocation → Bool
is_overdue epoch item = is_due epoch item.deadline_ms && not (is_terminal item.phase)

unfoldable pub mark_deadline_item : ℕ → ℕ → ToolError → ActionInvocation → ActionInvocation
unfolding close_unknown is_overdue
mark_deadline_item now epoch error item =
    if is_overdue epoch item
    then record (close_unknown now error item) { occupies_concurrency = true }
    else item
