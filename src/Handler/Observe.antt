-- ===== src/Handler/Observe.antt =====
-- The locked sections of src/forge_tool/handler.py that record what a provider reports. `==` on
-- statuses and on results, which compares the JSON values in them, is a parameter of the section.
use adapter_forge_gateway.Prelude.{
  String, List, [], ◌∷◌, Bool, true, false, not, Option, none, some, ◌==◌, string_eq, if◌then◌else◌,
}
use adapter_forge_gateway.Raise.{Result, ok, err, protocol_error, Action, raise_if}
use adapter_forge_gateway.Raise.State.{◌>>=◌, ◌>>◌, pure, raise, lift, modify}
use adapter_forge_gateway.Dict.{lookup}
use adapter_forge_gateway.Endpoint.Json.{Fields}
use adapter_forge_gateway.Endpoint.Values.{ToolError, ToolResult, ToolExecutionStatus}
use adapter_forge_gateway.Handler.State.{
  ToolExecutionKey, execution_key_eq, InvokeOutcome, ExecutionRecord, Handler, observed, make_room,
  release_permit, is_terminal, is_allowed, matches_result,
}
use adapter_forge_gateway.Handler.Steps.{
  at_end, put, begin_start, finish_accepted, finish_refused, finish_unknown,
}

-- `_observation_record_locked`
unfoldable pub observation_record : ToolExecutionKey → String → Action Handler ExecutionRecord
observation_record k operation h = elim (lookup k h.executions) [
  | some r ↦
      if not (r.operation == operation)
      then (err (protocol_error "FORGE_PROTOCOL_EXECUTION_CONFLICT"), h)
      else (ok r, at_end k r h)
  | none ↦
      (do
        room ← make_room
        if room
            then (do modify (put k (observed operation)); pure (observed operation))
            else raise (protocol_error "FORGE_ENDPOINT_RETENTION_FULL"))
        h
]

-- What `_record_terminal` writes of a status and a result.
unfoldable pub concluded : ToolExecutionStatus → ToolResult → ExecutionRecord → ExecutionRecord
concluded status result r =
    if r.invoke_started then record r { status = some status; result = some result } else record r {
      status = some status;
      result = some result;
      outcome = some (InvokeOutcome.finished result);
      ready = true;
    }

-- The end of `_record_terminal`: the writing, the release and the move to the end.
unfoldable pub conclude :
    ToolExecutionKey
    → ToolExecutionStatus
    → ToolResult
    → ExecutionRecord
    → Action Handler (Unit {0})
conclude k status result r = do
  modify (put k (concluded status result r))
  r' ← release_permit k (concluded status result r)
  modify (at_end k r')

module _ (same_status : ToolExecutionStatus → ToolExecutionStatus → Bool)
    (same_result : ToolResult → ToolResult → Bool) where
  -- `_validate_phase_transition`
  unfoldable pub validate_phase_transition :
      Option ToolExecutionStatus → ToolExecutionStatus → Result (Unit {0})
  validate_phase_transition none current = ok tt
  validate_phase_transition (some previous) current =
      if is_terminal previous.phase
      then raise_if (not (same_status previous current))
          (protocol_error "FORGE_ENDPOINT_TERMINAL_CHANGED")
      else raise_if (not (is_allowed previous.phase current.phase))
          (protocol_error "FORGE_ENDPOINT_INVALID_TRANSITION")

  -- `record.result is not None and record.result != result`
  abbrev pub is_changed : Option ToolResult → ToolResult → Bool
  is_changed none result = false
  is_changed (some old) result = not (same_result old result)

  -- `_record_status`
  unfoldable pub record_status :
      ToolExecutionKey → String → ToolExecutionStatus → Action Handler (Unit {0})
  record_status k operation status = do
    r ← observation_record k operation
    lift (validate_phase_transition r.status status)
    modify (at_end k (record r { status = some status }))

  -- `_record_terminal` up to the closing of the emitter.
  unfoldable pub record_terminal :
      ToolExecutionKey → String → ToolExecutionStatus → ToolResult → Action Handler (Unit {0})
  record_terminal k operation status result =
      if not (matches_result status result)
      then raise (protocol_error "FORGE_ENDPOINT_TERMINAL_MISMATCH")
      else (do
        r ← observation_record k operation
        lift (validate_phase_transition r.status status)
        lift (
            raise_if (is_changed r.result result)
              (protocol_error "FORGE_ENDPOINT_TERMINAL_CHANGED"))
        conclude k status result r)

-- One locked section, with its arguments.
pub data Section : Type 0 where
  start : ToolExecutionKey → String → Section
  accepted : ToolExecutionKey → Fields → Section
  refused : ToolExecutionKey → ToolError → Section
  lost : ToolExecutionKey → Section
  status : ToolExecutionKey → String → ToolExecutionStatus → Section
  terminal : ToolExecutionKey → String → ToolExecutionStatus → ToolResult → Section

-- The handler after a section, whether it raised or not.
abbrev pub run :
    (ToolExecutionStatus → ToolExecutionStatus → Bool)
    → (ToolResult → ToolResult → Bool)
    → Section
    → Handler
    → Handler
run same_status same_result (Section.start k operation) h = (begin_start k operation h).1
run same_status same_result (Section.accepted k details) h = (finish_accepted k details h).1
run same_status same_result (Section.refused k error) h = (finish_refused k error h).1
run same_status same_result (Section.lost k) h = (finish_unknown k h).1
run same_status same_result (Section.status k operation s) h =
    (record_status same_status same_result k operation s h).1
run same_status same_result (Section.terminal k operation s r) h =
    (record_terminal same_status same_result k operation s r h).1

unfoldable pub run_all :
    (ToolExecutionStatus → ToolExecutionStatus → Bool)
    → (ToolResult → ToolResult → Bool)
    → List Section
    → Handler
    → Handler
run_all same_status same_result [] h = h
run_all same_status same_result (a ∷ sections) h =
    run_all same_status same_result sections (run same_status same_result a h)
