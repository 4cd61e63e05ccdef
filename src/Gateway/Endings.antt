-- ===== src/Gateway/Endings.antt =====
-- The methods of `ToolGatewayService` in src/forge_gateway/services/tool_gateway_service.py that end
-- what is under way: `cancel_http_invoke`, `output_failed`, `sweep` and `begin_close`.
use adapter_forge_gateway.Prelude.{
  ℕ, ◌+◌, String, Bool, true, false, not, Option, none, some, List, [], ◌∷◌, leb, ◌==◌, nat_eq,
  if◌then◌else◌,
}
use adapter_forge_gateway.Raise.{Exception, Action}
use adapter_forge_gateway.Raise.Method.{
  pure, lift, gets, ◌>>=◌, ◌>>◌, choose, branch, modify, for_each,
}
use adapter_forge_gateway.Dict.{lookup, keys_where}
use adapter_forge_gateway.Endpoint.Values.{ToolError}
use adapter_forge_gateway.Endpoint.Responses.{ToolControlCommand}
use adapter_forge_gateway.Invocations.Observe.{mark_deadlines_ambiguous}
use adapter_forge_gateway.Directory.State.{RegisteredEndpoint, expire}
use adapter_forge_gateway.Gateway.Text.{text}
use adapter_forge_gateway.Gateway.Envelope.{
  ToolEnvelope, CorrelationKey, correlation_eq, option_beq, logical_error_response,
}
use adapter_forge_gateway.Gateway.State.{
  OutboundKind, OutboundMessage, PendingInvocation, Purpose, ActionExchange, Gateway, Ambient,
  on_directory, on_invocations, make_error,
}
use adapter_forge_gateway.Gateway.Finish.{
  invoke_timeout, finish_pending, finish_action_exchange_error, finish_unclaimed_for_removed,
  is_invoke, is_claimed_invoke,
}

-- `ToolInvocationTicket`
pub record Ticket : Type 0 where
  pub request : ToolEnvelope
  pub future : ℕ
  pub pending_key : Option CorrelationKey
  pub deadline : ℕ

-- `pending.future is ticket.future`
abbrev pub is_future : Option ℕ → ℕ → Bool
is_future none id = false
is_future (some f) id = f == id

abbrev pub wait_error : Bool → ToolError
wait_error timed_out =
    if timed_out
    then invoke_timeout
    else make_error "FORGE_TOOL_CALLER_CANCELLED"
        "HTTP caller stopped waiting for Tool Query invocation" false

-- A response to the pending invocation under a key ends it.
unfoldable pub end_pending :
    CorrelationKey → PendingInvocation → ToolError → ℕ → Bool → Action Gateway Bool
end_pending key pending error now timed_out =
    lift (logical_error_response error pending.logical_request) >>= λ response.
    finish_pending key response now timed_out

abbrev pub end_wait : ℕ → Bool → ℕ → CorrelationKey → PendingInvocation → Action Gateway Bool
end_wait future timed_out now key pending =
    branch (not (is_future pending.future future)) (pure false)
      (end_pending key pending (wait_error timed_out) now timed_out)

unfoldable pub cancel_http_invoke : Ticket → Bool → ℕ → Action Gateway Bool
cancel_http_invoke ticket timed_out now = choose ticket.pending_key (pure false) (λ key. do
  held ← gets (λ g. lookup key g.pending_by_provider_key)
  choose held (pure false) (end_wait ticket.future timed_out now key))

abbrev pub dispatch_failed : Ambient → Exception → ToolError
dispatch_failed w error =
    make_error "FORGE_TOOL_TRANSPORT_UNAVAILABLE"
      (text ("provider request dispatch failed: " ∷ w.text_of error ∷ [])) true

abbrev pub fail_dispatched :
    Ambient
    → Exception
    → Option String
    → ℕ
    → CorrelationKey
    → PendingInvocation
    → Action Gateway Bool
fail_dispatched w error token now key pending =
    branch (not (option_beq (some pending.pending_token) token)) (pure false)
      (end_pending key pending (dispatch_failed w error) now false)

abbrev pub fail_output :
    Ambient
    → Exception
    → ℕ
    → OutboundKind
    → Option CorrelationKey
    → Option String
    → Action Gateway Bool
fail_output w error now OutboundKind.provider_action_request (some key) token = do
  held ← gets (λ g. lookup key g.action_exchanges)
  choose held (pure false) (λ exchange.
      finish_action_exchange_error exchange.provider_key (λ _. dispatch_failed w error) now
        is_claimed_invoke)
fail_output w error now OutboundKind.provider_invoke_request (some key) token = do
  held ← gets (λ g. lookup key g.pending_by_provider_key)
  choose held (pure false) (fail_dispatched w error token now key)
fail_output w error now _ key token = pure false

unfoldable pub output_failed : Ambient → OutboundMessage → Exception → ℕ → Action Gateway Bool
output_failed w message error now =
    fail_output w error now message.kind message.pending_key message.pending_token

-- `exchange.purpose` in a message.
abbrev pub purpose_text : Purpose → String
purpose_text Purpose.invoke = "invoke"
purpose_text Purpose.status = "status"
purpose_text Purpose.result = "result"
purpose_text Purpose.cancel = "cancel"
purpose_text Purpose.stop = "stop"
purpose_text (Purpose.control ToolControlCommand.cancel) = "control:cancel"
purpose_text (Purpose.control ToolControlCommand.stop) = "control:stop"

abbrev pub exchange_timeout : ActionExchange → ToolError
exchange_timeout exchange =
    make_error "FORGE_TOOL_EXCHANGE_TIMEOUT"
      (text ("Action " ∷ purpose_text exchange.purpose ∷ " exchange timed out" ∷ []))
      (not (is_invoke exchange))

abbrev pub is_late_pending : ℕ → PendingInvocation → Bool
is_late_pending now pending = leb pending.deadline now

abbrev pub is_late_exchange : ℕ → ActionExchange → Bool
is_late_exchange now exchange = leb exchange.deadline now

-- A loop that ends each pending invocation of a snapshot: how many were ended.
unfoldable pub end_each : ToolError → ℕ → List CorrelationKey → Action Gateway ℕ
end_each error now [] = pure 0
end_each error now (key ∷ keys) = do
  held ← gets (λ g. lookup key g.pending_by_provider_key)
  ended ← choose held (pure false) (λ pending. end_pending key pending error now false)
  rest ← end_each error now keys
  pure (if ended then rest + 1 else rest)

-- `ToolGatewaySweep`
pub record Sweep : Type 0 where
  pub expired_registrations : List RegisteredEndpoint
  pub timed_out_invocations : ℕ

unfoldable pub sweep : Ambient → ℕ → Action Gateway Sweep
sweep w now = do
  expired ← on_directory (expire now)
  counts ← finish_unclaimed_for_removed w expired now
  timed_out ← gets (λ g. keys_where (is_late_pending now) g.pending_by_provider_key)
  action_timeouts ← gets (λ g. keys_where (is_late_exchange now) g.action_exchanges)
  for_each action_timeouts
      (λ key. finish_action_exchange_error key exchange_timeout now is_claimed_invoke >> pure tt)
  on_invocations (mark_deadlines_ambiguous now w.epoch_ms)
  ended ← end_each invoke_timeout now timed_out
  pure (record { expired_registrations = expired; timed_out_invocations = counts.1 + ended })

abbrev pub gateway_closing : ToolError
gateway_closing = make_error "FORGE_TOOL_GATEWAY_UNAVAILABLE" "Tool Gateway is closing" true

-- `begin_close`, which is `close`.
unfoldable pub begin_close : ℕ → Action Gateway (Unit {0})
begin_close now = do
  modify (λ g. record g { accepting = false })
  exchanges ← gets (λ g. keys_where (λ _. true) g.action_exchanges)
  for_each exchanges (λ key.
      finish_action_exchange_error key (λ _. gateway_closing) now is_claimed_invoke >> pure tt)
  pendings ← gets (λ g. keys_where (λ _. true) g.pending_by_provider_key)
  end_each gateway_closing now pendings
  pure tt
