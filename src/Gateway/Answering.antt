-- ===== src/Gateway/Answering.antt =====
-- That a provider's reports on Actions keep the mailbox's accounting.
use adapter_forge_gateway.Prelude.{refl, ℕ, false, Option, none, some}
use adapter_forge_gateway.Raise.{Exception}
use adapter_forge_gateway.Raise.Ensures.{Keeps, Keeps-then, Ensures-pure, Ensures-try}
use adapter_forge_gateway.Endpoint.Values.{ToolError, ToolResult, ToolExecutionStatus}
use adapter_forge_gateway.Endpoint.Responses.{
  ToolControlCommand, ToolControlStatus, ResultResponseStatus,
}
use adapter_forge_gateway.Handler.State.{InvokeOutcome}
use adapter_forge_gateway.Invocations.Item.{ActionKey}
use adapter_forge_gateway.Gateway.Envelope.{Payload, correlation_eq}
use adapter_forge_gateway.Gateway.State.{Purpose, Ambient}
use adapter_forge_gateway.Gateway.Slots.{part_rules, Holds}
use adapter_forge_gateway.Gateway.Exchanging.{refresh_action_key-Holds}
use adapter_forge_gateway.Gateway.Answers.{
  lookup_failed, look_up_result, close_action, record_error, record_outcome, record_status,
  record_result, record_control, record_response,
}

module _ {capacity n : ℕ} where
  lookup_failed-Holds :
      (w : Ambient) (key : ActionKey) (x : Exception)
      → Keeps (Holds capacity n) (lookup_failed w key x)
  unfolding lookup_failed
  lookup_failed-Holds w key x = search part_rules

  pub look_up_result-Holds :
      (w : Ambient) (key : ActionKey) (at : ℕ) → Keeps (Holds capacity n) (look_up_result w key at)
  unfolding look_up_result
  look_up_result-Holds w key at =
      Ensures-try _ _
        (Keeps-then _ _ (refresh_action_key-Holds w key _ at none false refl) (Ensures-pure tt))
        (lookup_failed-Holds w key)

  close_action-Holds :
      (key : ActionKey) (result : ToolResult) (at : ℕ)
      → Keeps (Holds capacity n) (close_action key result at)
  unfolding close_action
  close_action-Holds key result at = search part_rules

  record_error-Holds :
      (key : ActionKey) (purpose : Purpose) (error : ToolError) (at : ℕ)
      → Keeps (Holds capacity n) (record_error key purpose error at)
  unfolding record_error
  record_error-Holds key Purpose.invoke error at = search part_rules
  record_error-Holds key (Purpose.control ToolControlCommand.cancel) error at = search part_rules
  record_error-Holds key _ error at = search part_rules

  record_outcome-Holds :
      (key : ActionKey) (outcome : InvokeOutcome) (at : ℕ)
      → Keeps (Holds capacity n) (record_outcome key outcome at)
  unfolding record_outcome
  record_outcome-Holds key (InvokeOutcome.accepted d) at = search part_rules
  record_outcome-Holds key (InvokeOutcome.failed error) at = search part_rules
  record_outcome-Holds key (InvokeOutcome.finished result) at = close_action-Holds key result at

  record_status-Holds :
      (w : Ambient) (key : ActionKey) (status : ToolExecutionStatus) (at : ℕ)
      → Keeps (Holds capacity n) (record_status w key status at)
  unfolding record_status
  record_status-Holds w key status at = search (part_rules, look_up_result-Holds)

  record_result-Holds :
      (key : ActionKey) (status : ResultResponseStatus) (result : Option ToolResult) (at : ℕ)
      → Keeps (Holds capacity n) (record_result key status result at)
  unfolding record_result
  record_result-Holds key ResultResponseStatus.available none at = search part_rules
  record_result-Holds key ResultResponseStatus.available (some result) at =
      close_action-Holds key result at
  record_result-Holds key ResultResponseStatus.not_found result at = search part_rules
  record_result-Holds key ResultResponseStatus.pending result at = search part_rules

  record_control-Holds :
      (key : ActionKey) (command : ToolControlCommand) (status : ToolControlStatus)
      → Keeps (Holds capacity n) (record_control key command status)
  unfolding record_control
  record_control-Holds key ToolControlCommand.cancel status = search part_rules
  record_control-Holds key ToolControlCommand.stop status = search part_rules

  pub record_response-Holds :
      (w : Ambient) (key : ActionKey) (purpose : Purpose) (payload : Payload) (at : ℕ)
      → Keeps (Holds capacity n) (record_response w key purpose payload at)
  unfolding record_response
  record_response-Holds w key purpose (Payload.tool_error error) at =
      record_error-Holds key purpose error at
  record_response-Holds w key purpose (Payload.invoke_response outcome) at =
      record_outcome-Holds key outcome at
  record_response-Holds w key purpose (Payload.status_response status) at =
      record_status-Holds w key status at
  record_response-Holds w key purpose (Payload.result_response response) at =
      record_result-Holds key response.status response.result at
  record_response-Holds w key purpose (Payload.control_response control) at =
      record_control-Holds key control.command control.status
  record_response-Holds w key purpose _ at = Ensures-pure tt
