-- ===== src/Invocations/Soundness.antt =====
-- That every method of the store keeps it sound, in the form in which a user of the store applies it.
use adapter_forge_gateway.Prelude.{ℕ, String, Bool, Option}
use adapter_forge_gateway.Prelude.Int.{ℤ}
use adapter_forge_gateway.Raise.{ok, Action}
use adapter_forge_gateway.Endpoint.Values.{ToolError, ToolResult, ToolEvent}
use adapter_forge_gateway.Invocations.Item.{ActionPhase, ActionKey, ActionInvocation}
use adapter_forge_gateway.Invocations.Store.{
  ActionInvocationStore, create, get, resolve_http_key, discard, establish_accepted, set_phase,
  set_terminal_status_hint, set_observation_error, set_cancel_status, set_stop_status, append_event,
}
use adapter_forge_gateway.Invocations.Observe.{
  snapshot, result_snapshot, event_window, events_after, mark_instance_ambiguous,
  mark_deadlines_ambiguous,
}
use adapter_forge_gateway.Invocations.Calls.{Call, perform}
use adapter_forge_gateway.Invocations.Steps.{IsValid, IsFresh, Steps-IsValid}
use adapter_forge_gateway.Invocations.Methods.{Admits, perform-Steps}
use adapter_forge_gateway.Invocations.History.{Always}

pub record IsSafe {A : Type 0} (m : Action ActionInvocationStore A) : Type 0 where
  pub at : (s : ActionInvocationStore) → IsValid s → IsValid (m s).1

call-IsValid :
    (c : Call)
    → Admits IsFresh Always c
    → (s : ActionInvocationStore) → IsValid s
    → IsValid (perform c s)
call-IsValid c f s v =
    Steps-IsValid IsFresh Always (λ _ m. m) v (perform-Steps IsFresh Always c s v f)

pub create-IsSafe :
    (item : ActionInvocation) (now : ℕ) (limit : Option ℕ)
    → IsFresh item
    → IsSafe (create item now limit)
unfolding perform
create-IsSafe item now limit f = record { at = call-IsValid (Call.create item now limit) f }

pub get-IsSafe : (k : ActionKey) (now : ℕ) → IsSafe (get k now)
unfolding perform
get-IsSafe k now = record { at = call-IsValid (Call.get k now) tt }

pub resolve-IsSafe :
    (invocation_id : String) (now : ℕ) → IsSafe (resolve_http_key invocation_id now)
unfolding perform
resolve-IsSafe invocation_id now = record {
  at = call-IsValid (Call.resolve_http_key invocation_id now) tt;
}

pub discard-IsSafe : (k : ActionKey) → IsSafe {A = Unit {0}} (λ s. (ok tt, discard k s))
unfolding perform
discard-IsSafe k = record { at = call-IsValid (Call.discard k) tt }

pub establish-IsSafe : (k : ActionKey) → IsSafe (establish_accepted k)
unfolding perform
establish-IsSafe k = record { at = call-IsValid (Call.establish_accepted k) tt }

pub set_phase-IsSafe :
    (k : ActionKey) (phase : ActionPhase) (now : ℕ) (result : Option ToolResult)
    (error : Option ToolError) (release : Bool)
    → IsSafe (set_phase k phase now result error release)
unfolding perform
set_phase-IsSafe k phase now result error release = record {
  at = call-IsValid (Call.set_phase k phase now result error release) tt;
}

pub hint-IsSafe :
    (k : ActionKey) (phase : ActionPhase) (error : Option ToolError)
    → IsSafe (set_terminal_status_hint k phase error)
unfolding perform
hint-IsSafe k phase error = record {
  at = call-IsValid (Call.set_terminal_status_hint k phase error) tt;
}

pub error-IsSafe : (k : ActionKey) (error : ToolError) → IsSafe (set_observation_error k error)
unfolding perform
error-IsSafe k error = record { at = call-IsValid (Call.set_observation_error k error) tt }

pub cancel-IsSafe : (k : ActionKey) (status : String) → IsSafe (set_cancel_status k status)
unfolding perform
cancel-IsSafe k status = record { at = call-IsValid (Call.set_cancel_status k status) tt }

pub stop-IsSafe : (k : ActionKey) (status : String) → IsSafe (set_stop_status k status)
unfolding perform
stop-IsSafe k status = record { at = call-IsValid (Call.set_stop_status k status) tt }

pub append_event-IsSafe :
    (k : ActionKey) (event : ToolEvent) (q : ℤ) → IsSafe (append_event k event q)
unfolding perform
append_event-IsSafe k event q = record { at = call-IsValid (Call.append_event k event q) tt }

pub events_after-IsSafe :
    (k : ActionKey) (cursor : ℤ) (now : ℕ) → IsSafe (events_after k cursor now)
unfolding perform
events_after-IsSafe k cursor now = record { at = call-IsValid (Call.events_after k cursor now) tt }

pub mark_instance-IsSafe :
    (endpoint instance_id : String) (now : ℕ) (reason : String)
    → IsSafe (mark_instance_ambiguous endpoint instance_id now reason)
unfolding perform
mark_instance-IsSafe endpoint instance_id now reason = record {
  at = call-IsValid (Call.mark_instance_ambiguous endpoint instance_id now reason) tt;
}

pub mark_deadlines-IsSafe : (now epoch : ℕ) → IsSafe (mark_deadlines_ambiguous now epoch)
unfolding perform
mark_deadlines-IsSafe now epoch = record {
  at = call-IsValid (Call.mark_deadlines_ambiguous now epoch) tt;
}

pub snapshot-IsSafe : (k : ActionKey) (now : ℕ) → IsSafe (snapshot k now)
unfolding perform
snapshot-IsSafe k now = record { at = call-IsValid (Call.snapshot k now) tt }

pub result_snapshot-IsSafe : (k : ActionKey) (now : ℕ) → IsSafe (result_snapshot k now)
unfolding perform
result_snapshot-IsSafe k now = record { at = call-IsValid (Call.result_snapshot k now) tt }

pub event_window-IsSafe : (k : ActionKey) (now : ℕ) → IsSafe (event_window k now)
unfolding perform
event_window-IsSafe k now = record { at = call-IsValid (Call.event_window k now) tt }

pub ruleset safe_store = (
  snapshot-IsSafe, result_snapshot-IsSafe, event_window-IsSafe, get-IsSafe, resolve-IsSafe,
  discard-IsSafe, establish-IsSafe, set_phase-IsSafe, hint-IsSafe, error-IsSafe, cancel-IsSafe,
  stop-IsSafe, append_event-IsSafe, events_after-IsSafe, mark_instance-IsSafe,
  mark_deadlines-IsSafe,
)
