-- ===== src/Invocations/Calls.antt =====
-- The store's methods as calls, and what each leaves of the invocation at a key.
use adapter_forge_gateway.Prelude.{ℕ, String, Bool, Option, List, [], ◌∷◌}
use adapter_forge_gateway.Prelude.Int.{ℤ}
use adapter_forge_gateway.Endpoint.Values.{ToolError, ToolResult, ToolEvent}
use adapter_forge_gateway.Invocations.Item.{ActionPhase, ActionKey, ActionInvocation}
use adapter_forge_gateway.Invocations.Store.{ActionInvocationStore}
use adapter_forge_gateway.Invocations.Store
use adapter_forge_gateway.Invocations.Observe

-- Every method but the constructor, with its arguments. `get`, `resolve_http_key`, `active_count`
-- and the readings change the store only by their purge.
pub data Call : Type 0 where
  create : ActionInvocation → ℕ → Option ℕ → Call
  get : ActionKey → ℕ → Call
  resolve_http_key : String → ℕ → Call
  active_count : String → String → ℕ → Call
  discard : ActionKey → Call
  snapshot result_snapshot event_window : ActionKey → ℕ → Call
  events_after : ActionKey → ℤ → ℕ → Call
  establish_accepted : ActionKey → Call
  set_phase : ActionKey → ActionPhase → ℕ → Option ToolResult → Option ToolError → Bool → Call
  set_terminal_status_hint : ActionKey → ActionPhase → Option ToolError → Call
  set_observation_error : ActionKey → ToolError → Call
  set_cancel_status set_stop_status : ActionKey → String → Call
  append_event : ActionKey → ToolEvent → ℤ → Call
  mark_instance_ambiguous : String → String → ℕ → String → Call
  mark_deadlines_ambiguous : ℕ → ℕ → Call

-- The store after a call, whether it returned or raised.
unfoldable pub perform : Call → ActionInvocationStore → ActionInvocationStore
perform (create i now limit) s = (Store.create i now limit s).1
perform (get k now) s = (Store.get k now s).1
perform (resolve_http_key i now) s = (Store.resolve_http_key i now s).1
perform (active_count e o now) s = (Store.active_count e o now s).1
perform (discard k) s = Store.discard k s
perform (snapshot k now) s = (Observe.snapshot k now s).1
perform (result_snapshot k now) s = (Observe.result_snapshot k now s).1
perform (event_window k now) s = (Observe.event_window k now s).1
perform (events_after k sequence now) s = (Observe.events_after k sequence now s).1
perform (establish_accepted k) s = (Store.establish_accepted k s).1
perform (set_phase k phase now result error release) s =
    (Store.set_phase k phase now result error release s).1
perform (set_terminal_status_hint k phase error) s =
    (Store.set_terminal_status_hint k phase error s).1
perform (set_observation_error k error) s = (Store.set_observation_error k error s).1
perform (set_cancel_status k status) s = (Store.set_cancel_status k status s).1
perform (set_stop_status k status) s = (Store.set_stop_status k status s).1
perform (append_event k event sequence) s = (Store.append_event k event sequence s).1
perform (mark_instance_ambiguous e i now reason) s =
    (Observe.mark_instance_ambiguous e i now reason s).1
perform (mark_deadlines_ambiguous now epoch) s = (Observe.mark_deadlines_ambiguous now epoch s).1

unfoldable pub perform_all : List Call → ActionInvocationStore → ActionInvocationStore
perform_all [] s = s
perform_all (c ∷ cs) s = perform_all cs (perform c s)
