-- ===== src/Gateway/Dispatch.antt =====
-- `take_outbound` of src/forge_gateway/services/tool_gateway_service.py: the one-shot claim of what is
-- sent to a provider.
use adapter_forge_gateway.Prelude.{
  String, true, not, ◌||◌, Option, none, some, List, [], ◌∷◌, if◌then◌else◌,
}
use adapter_forge_gateway.Raise.{Result, ok, Action}
use adapter_forge_gateway.Dict.{lookup, insert}
use adapter_forge_gateway.Gateway.Envelope.{CorrelationKey, correlation_eq, option_beq}
use adapter_forge_gateway.Gateway.State.{
  OutboundKind, OutboundMessage, PendingInvocation, ActionExchange, Gateway,
}

-- `pending.dispatch_claimed = True`, of a pending invocation, and of an exchange.
unfoldable pub claim_pending : CorrelationKey → PendingInvocation → Gateway → Gateway
claim_pending key pending g = record g {
  pending_by_provider_key =
      insert key (record pending { dispatch_claimed = true }) g.pending_by_provider_key;
}

unfoldable pub claim_exchange : CorrelationKey → ActionExchange → Gateway → Gateway
claim_exchange key exchange g = record g {
  action_exchanges = insert key (record exchange { dispatch_claimed = true }) g.action_exchanges;
}

-- The tests behind `continue`: the service with the claim made, or nothing if the message is stale.
abbrev pub claim_invoke :
    CorrelationKey → Option String → Option PendingInvocation → Gateway → Option Gateway
claim_invoke key token none g = none
claim_invoke key token (some pending) g =
    if not (option_beq (some pending.pending_token) token) || pending.dispatch_claimed
    then none
    else some (claim_pending key pending g)

abbrev pub claim_action : CorrelationKey → Option ActionExchange → Gateway → Option Gateway
claim_action key none g = none
claim_action key (some exchange) g =
    if exchange.dispatch_claimed then none else some (claim_exchange key exchange g)

abbrev pub claim_by :
    OutboundKind → Option CorrelationKey → Option String → Gateway → Option Gateway
claim_by OutboundKind.provider_invoke_request none token g = none
claim_by OutboundKind.provider_invoke_request (some key) token g =
    claim_invoke key token (lookup key g.pending_by_provider_key) g
claim_by OutboundKind.provider_action_request none token g = none
claim_by OutboundKind.provider_action_request (some key) token g =
    claim_action key (lookup key g.action_exchanges) g
claim_by _ key token g = some g

unfoldable pub claim : OutboundMessage → Gateway → Option Gateway
claim message g = claim_by message.kind message.pending_key message.pending_token g

abbrev pub take_or :
    OutboundMessage
    → List OutboundMessage
    → Option Gateway
    → Result (Option OutboundMessage) × Gateway
    → Result (Option OutboundMessage) × Gateway
take_or message rest none next = next
take_or message rest (some g) next = (ok (some message), record g { outbound = rest })

-- `while self._outbound: message = self._outbound.popleft() …`
unfoldable pub take_from : List OutboundMessage → Action Gateway (Option OutboundMessage)
take_from [] g = (ok none, record g { outbound = [] })
take_from (message ∷ rest) g = take_or message rest (claim message g) (take_from rest g)

unfoldable pub take_outbound : Action Gateway (Option OutboundMessage)
take_outbound g = take_from g.outbound g
