-- ===== src/Handler/Steps.antt =====
-- The locked sections of src/forge_tool/handler.py that bind an execution to one start of the
-- provider.
use adapter_forge_gateway.Prelude.{
  suc, String, true, false, not, ◌||◌, none, some, ◌==◌, leb, string_eq, if◌then◌else◌, is_some,
}
use adapter_forge_gateway.Raise.{ok, err, key_error, protocol_error, Action}
use adapter_forge_gateway.Raise.State.{◌>>=◌, ◌>>◌, pure, modify}
use adapter_forge_gateway.Dict.{lookup, insert}
use adapter_forge_gateway.Endpoint.Json.{Fields, end}
use adapter_forge_gateway.Endpoint.Values.{
  ExecutionPhase, ToolError, ToolResult, ToolResultStatus, ToolExecutionStatus,
}
use adapter_forge_gateway.Handler.State.{
  ToolExecutionKey, execution_key_eq, InvokeOutcome, ExecutionRecord, Handler, started, make_room,
  move_to_end, count_of, release_permit,
}

-- What the first locked section of `_handle_start_invoke` decides.
pub data Admission : Type 0 where
  replay already_observed at_max_concurrency retention_full start : Admission

abbrev pub at_end : ToolExecutionKey → ExecutionRecord → Handler → Handler
at_end k r h = record h { executions = move_to_end k r h.executions }

-- The section for a key that has a record.
unfoldable pub admit_known : ToolExecutionKey → String → ExecutionRecord → Action Handler Admission
admit_known k operation r h =
    if not (r.operation == operation)
    then (err (protocol_error "FORGE_PROTOCOL_EXECUTION_CONFLICT"), h)
    else if r.invoke_started || is_some r.outcome
    then (ok Admission.replay, at_end k r h)
    else (ok Admission.already_observed, at_end k r h)

-- The section for a new key. `max_concurrency` is the operation's, which the route check has found.
unfoldable pub admit_new : ToolExecutionKey → String → Action Handler Admission
admit_new k operation h =
    if leb (count_of operation h.max_concurrency) (count_of operation h.active)
    then (ok Admission.at_max_concurrency, h)
    else ((do
      room ← make_room
      if room
          then (do
            modify (λ s. record s {
              active = insert operation (suc (count_of operation s.active)) s.active;
              executions = insert k (started operation) s.executions;
            })
            pure Admission.start)
          else pure Admission.retention_full)
        h)

unfoldable pub begin_start : ToolExecutionKey → String → Action Handler Admission
begin_start k operation h = elim (lookup k h.executions) [
  | none ↦ admit_new k operation h
  | some r ↦ admit_known k operation r h
]

abbrev pub put : ToolExecutionKey → ExecutionRecord → Handler → Handler
put k r h = record h { executions = insert k r h.executions }

-- The section after `endpoint.start` has returned an acceptance.
unfoldable pub finish_accepted : ToolExecutionKey → Fields → Action Handler InvokeOutcome
finish_accepted k details h = elim (lookup k h.executions) [
  | none ↦ (err key_error, h)
  | some r ↦ elim r.result [
    | some result ↦ (
      ok (InvokeOutcome.finished result),
      put k (record r { outcome = some (InvokeOutcome.finished result); ready = true }) h,
    )
    | none ↦ (
      ok (InvokeOutcome.accepted details),
      put k
          (record r {
            outcome = some (InvokeOutcome.accepted details);
            ready = true;
            status = elim r.status [
              | none ↦
                  some (record { phase = ExecutionPhase.accepted; error = none; details = details })
              | some status ↦ some status
            ];
          })
          h,
    )
  ]
]

-- The section after `endpoint.start` has raised a `ToolEndpointError`.
unfoldable pub finish_refused : ToolExecutionKey → ToolError → Action Handler InvokeOutcome
finish_refused k error h = elim (lookup k h.executions) [
  | none ↦ (err key_error, h)
  | some r ↦ elim r.result [
    | some result ↦ (
      ok (InvokeOutcome.finished result),
      put k (record r { outcome = some (InvokeOutcome.finished result); ready = true }) h,
    )
    | none ↦
        (do
          r' ← release_permit k r
          modify (put k (record r' { outcome = some (InvokeOutcome.failed error); ready = true }))
          pure (InvokeOutcome.failed error))
          h
  ]
]

abbrev pub unknown_error : ToolError
unknown_error = record {
  code = "FORGE_ENDPOINT_OUTCOME_UNKNOWN";
  message = "Start failed after dispatch; the execution outcome cannot be recovered";
  retryable = false;
  details = end;
}

abbrev pub unknown_result : ToolResult
unknown_result = record {
  status = ToolResultStatus.unknown;
  outputs = end;
  error = some unknown_error;
}

abbrev pub unknown_status : ToolExecutionStatus
unknown_status = record {
  phase = ExecutionPhase.unknown;
  error = some unknown_error;
  details = end;
}

abbrev pub closed_unknown : ExecutionRecord → ExecutionRecord
closed_unknown r = record r {
  outcome = some (InvokeOutcome.finished unknown_result);
  status = some unknown_status;
  result = some unknown_result;
}

-- The locked section of `_finish_unknown`.
unfoldable pub finish_unknown : ToolExecutionKey → Action Handler ToolResult
finish_unknown k h = elim (lookup k h.executions) [
  | none ↦ (err key_error, h)
  | some r ↦ elim r.result [
    | some result ↦ (
      ok result,
      put k (record r { outcome = some (InvokeOutcome.finished result); ready = true }) h,
    )
    | none ↦
        (do
          r' ← release_permit k (closed_unknown r)
          modify (put k (record r' { ready = true }))
          pure unknown_result)
          h
  ]
]
