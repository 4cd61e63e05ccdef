-- ===== src/Invocations/Invariant.antt =====
-- What holds of every retained invocation, and that each change of one keeps it.
use adapter_forge_gateway.Prelude.{
  ℕ, ◌≤◌, ◌≡◌, String, Bool, true, false, Option, some, arith, is_some, length,
}
use adapter_forge_gateway.Prelude.Int.{ℤ, pos, succ_ℤ, int_eqb_iff}
use adapter_forge_gateway.Raise.{ok}
use adapter_forge_gateway.Endpoint.Values.{ToolError, ToolResult, ToolEvent}
use adapter_forge_gateway.Invocations.Item.{
  ActionPhase, ActionKey, ActionInvocation, is_terminal, key, close_unknown,
}
use adapter_forge_gateway.Invocations.Changes.{
  Change, establish_accepted_item, set_phase_item, set_terminal_status_hint_item,
  set_observation_error_item, set_cancel_status_item, set_stop_status_item, record_event,
  append_event_item, mark_instance_item, mark_deadline_item,
}
use adapter_forge_gateway.Invocations.Events.{
  Consecutive, append_bounded-Consecutive, length-append_bounded-le,
}

-- Exactly the terminal invocations have a result and a closing time, an open one holds its permit,
-- and the events are the last ones, numbered without a gap as the provider numbered them.
pub record IsEntry (limit : ℕ) (k : ActionKey) (item : ActionInvocation) : Type 0 where
  pub keyed : key item ≡ k
  pub has_result : is_some item.result ≡ is_terminal item.phase
  pub has_closing : is_some item.terminal_at ≡ is_terminal item.phase
  pub holds_permit : is_terminal item.phase ≡ false → item.occupies_concurrency ≡ true
  pub limited : item.event_limit ≡ some limit
  pub bounded : length item.events ≤ limit
  pub consecutive : Consecutive item.events item.next_event_sequence
  pub in_step : succ_ℤ item.last_provider_sequence ≡ pos item.next_event_sequence

-- A change keeps the invariant whenever it writes.
abbrev pub Keeps : ℕ → ActionKey → Change → Type 0
Keeps limit k change =
    (item item' : ActionInvocation)
    → IsEntry limit k item
    → change item ≡ ok (some item')
    → IsEntry limit k item'

module _ (limit : ℕ) (k : ActionKey) where
  pub establish_accepted-Keeps : Keeps limit k establish_accepted_item
  unfolding establish_accepted_item key
  establish_accepted-Keeps item item' v h = ground arith

  pub set_phase-Keeps :
      (phase : ActionPhase) (now : ℕ) (result : Option ToolResult) (error : Option ToolError)
      (release : Bool)
      → Keeps limit k (set_phase_item phase now result error release)
  unfolding set_phase_item key
  set_phase-Keeps phase now result error release item item' v h = ground arith

  pub set_terminal_status_hint-Keeps :
      (phase : ActionPhase) (error : Option ToolError)
      → Keeps limit k (set_terminal_status_hint_item phase error)
  unfolding set_terminal_status_hint_item key
  set_terminal_status_hint-Keeps phase error item item' v h = ground arith

  pub set_observation_error-Keeps :
      (error : ToolError) → Keeps limit k (set_observation_error_item error)
  unfolding set_observation_error_item key
  set_observation_error-Keeps error item item' v h = ground arith

  pub set_cancel_status-Keeps : (status : String) → Keeps limit k (set_cancel_status_item status)
  unfolding set_cancel_status_item key
  set_cancel_status-Keeps status item item' v h = ground arith

  pub set_stop_status-Keeps : (status : String) → Keeps limit k (set_stop_status_item status)
  unfolding set_stop_status_item key
  set_stop_status-Keeps status item item' v h = ground arith

  record_event-IsEntry :
      (event : ToolEvent) (sequence : ℤ) (item : ActionInvocation)
      → sequence ≡ succ_ℤ item.last_provider_sequence
      → IsEntry limit k item
      → IsEntry limit k (record_event event sequence item)
  unfolding record_event key
  record_event-IsEntry event sequence item e v = record {
    keyed = v.keyed;
    has_result = v.has_result;
    has_closing = v.has_closing;
    holds_permit = λ h. ground (arith, v.holds_permit h);
    limited = v.limited;
    bounded = rw v.limited (length-append_bounded-le limit item.events _);
    consecutive = rw v.limited (append_bounded-Consecutive limit item.events _ v.consecutive);
    in_step = ground (arith, v.in_step);
  }

  pub append_event-Keeps :
      (event : ToolEvent) (sequence : ℤ) → Keeps limit k (append_event_item event sequence)
  unfolding append_event_item
  append_event-Keeps event sequence item item' v h = ground (
    arith,
    int_eqb_iff sequence (succ_ℤ item.last_provider_sequence),
    record_event-IsEntry event sequence item,
  )

  pub mark_instance-IsEntry :
      (endpoint instance_id : String) (now : ℕ) (error : ToolError) (item : ActionInvocation)
      → IsEntry limit k item
      → IsEntry limit k (mark_instance_item endpoint instance_id now error item)
  unfolding mark_instance_item close_unknown key
  mark_instance-IsEntry endpoint instance_id now error item v = ground arith

  pub mark_deadline-IsEntry :
      (now epoch : ℕ) (error : ToolError) (item : ActionInvocation)
      → IsEntry limit k item
      → IsEntry limit k (mark_deadline_item now epoch error item)
  unfolding mark_deadline_item close_unknown key
  mark_deadline-IsEntry now epoch error item v = ground arith
