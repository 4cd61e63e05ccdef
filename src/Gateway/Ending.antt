-- ===== src/Gateway/Ending.antt =====
-- That the methods that end what is under way keep the mailbox's accounting.
use adapter_forge_gateway.Prelude.{ℕ, String, Bool, false, Option, none, some, List, [], ◌∷◌}
use adapter_forge_gateway.Raise.{Exception}
use adapter_forge_gateway.Raise.Ensures.{
  Keeps, keeps_rules, Keeps-bind, Keeps-then, Keeps-modify, Ensures-gets, Ensures-choose,
  Ensures-pure,
}
use adapter_forge_gateway.Gateway.Envelope.{CorrelationKey}
use adapter_forge_gateway.Endpoint.Values.{ToolError}
use adapter_forge_gateway.Gateway.State.{OutboundKind, OutboundMessage, PendingInvocation, Ambient}
use adapter_forge_gateway.Gateway.Slots.{part_rules, Holds}
use adapter_forge_gateway.Gateway.Finishing.{finish_action_exchange_error-Holds}
use adapter_forge_gateway.Gateway.Removing.{
  finish_pending-Holds, finish_unclaimed_for_removed-Holds,
}
use adapter_forge_gateway.Gateway.Endings.{
  Ticket, end_pending, cancel_http_invoke, fail_output, output_failed, end_each, sweep, begin_close,
}

module _ {capacity n : ℕ} where
  end_pending-Holds :
      (key : CorrelationKey) (pending : PendingInvocation) (error : ToolError) (now : ℕ)
      (timed_out : Bool)
      → Keeps (Holds capacity n) (end_pending key pending error now timed_out)
  unfolding end_pending
  end_pending-Holds key pending error now timed_out = search (keeps_rules, finish_pending-Holds)

  pub cancel_http_invoke-Holds :
      (ticket : Ticket) (timed_out : Bool) (now : ℕ)
      → Keeps (Holds capacity n) (cancel_http_invoke ticket timed_out now)
  unfolding cancel_http_invoke
  cancel_http_invoke-Holds ticket timed_out now = search (keeps_rules, end_pending-Holds)

  fail_output-Holds :
      (w : Ambient) (error : Exception) (now : ℕ) (kind : OutboundKind)
      (key : Option CorrelationKey) (token : Option String)
      → Keeps (Holds capacity n) (fail_output w error now kind key token)
  fail_output-Holds w error now OutboundKind.provider_action_request (some key) token =
      search (keeps_rules, finish_action_exchange_error-Holds)
  fail_output-Holds w error now OutboundKind.provider_action_request none token = search keeps_rules
  fail_output-Holds w error now OutboundKind.provider_invoke_request (some key) token =
      search (keeps_rules, end_pending-Holds)
  fail_output-Holds w error now OutboundKind.provider_invoke_request none token = search keeps_rules
  fail_output-Holds w error now OutboundKind.registry_response key token = search keeps_rules
  fail_output-Holds w error now OutboundKind.caller_invoke_response key token = search keeps_rules
  fail_output-Holds w error now OutboundKind.caller_action_response key token = search keeps_rules

  pub output_failed-Holds :
      (w : Ambient) (message : OutboundMessage) (error : Exception) (now : ℕ)
      → Keeps (Holds capacity n) (output_failed w message error now)
  unfolding output_failed
  output_failed-Holds w message error now =
      fail_output-Holds w error now message.kind message.pending_key message.pending_token

  end_each-Holds :
      (error : ToolError) (now : ℕ) (keys : List CorrelationKey)
      → Keeps (Holds capacity n) (end_each error now keys)
  unfolding end_each
  end_each-Holds error now [] = search keeps_rules
  end_each-Holds error now (key ∷ keys) = Keeps-bind _ _ (Ensures-gets _) (λ held.
      Keeps-bind _ _
        (Ensures-choose held _ _ (Ensures-pure false)
          (λ pending. end_pending-Holds key pending error now false))
        (λ ended. Keeps-bind _ _ (end_each-Holds error now keys) (λ rest. Ensures-pure _)))

  pub sweep-Holds : (w : Ambient) (now : ℕ) → Keeps (Holds capacity n) (sweep w now)
  unfolding sweep
  sweep-Holds w now =
      search
        (
          part_rules, finish_unclaimed_for_removed-Holds, finish_action_exchange_error-Holds,
          end_each-Holds,
        )
        depth 12

  pub begin_close-Holds : (now : ℕ) → Keeps (Holds capacity n) (begin_close now)
  unfolding begin_close
  begin_close-Holds now =
      Keeps-then _ _
        (Keeps-modify _ (λ g h. record {
          fixed = h.fixed;
          room = h.room;
          covered = h.covered;
          tables = h.tables;
          parts = h.parts;
        }))
        (search (keeps_rules, finish_action_exchange_error-Holds, end_each-Holds))
