-- ===== src/Gateway/Taking.antt =====
-- What `take_outbound` hands out: the first message that can still be claimed, once.
use adapter_forge_gateway.Prelude.{
  ◌==◌, string_eq, sym, ◌∙◌, ◌||◌, Bool-cases, String, inr, inl, ap, Option-cases, ◌≡◌, refl, Bool,
  true, false, not, Option, none, some, List, [], ◌∷◌, ◌++◌, all, is_some, arith,
}
use adapter_forge_gateway.Raise.{Result, ok, err}
use adapter_forge_gateway.Dict.{Dict, lookup, insert, lookup-insert}
use adapter_forge_gateway.Gateway.Envelope.{option_beq, CorrelationKey, correlation_eq}
use adapter_forge_gateway.Gateway.State.{
  ActionExchange, PendingInvocation, OutboundKind, OutboundMessage, Gateway,
}
use adapter_forge_gateway.Gateway.Dispatch.{
  claim_action, claim_invoke, claim_pending, claim_exchange, claim_action, claim_by, claim,
  take_from, take_outbound,
}

-- A message that starts work at a provider.
abbrev pub is_to_provider : OutboundKind → Bool
is_to_provider OutboundKind.provider_invoke_request = true
is_to_provider OutboundKind.provider_action_request = true
is_to_provider _ = false

-- A message for a Query that is not pending any more, that waits under another token, or that was
-- handed out before.
abbrev pub is_stale_invoke : Option String → Option PendingInvocation → Bool
is_stale_invoke token none = true
is_stale_invoke none (some pending) = true
is_stale_invoke (some token) (some pending) =
    pending.dispatch_claimed || not (pending.pending_token == token)

-- A message for an exchange that has ended, or that was handed out before.
abbrev pub is_stale_action : Option ActionExchange → Bool
is_stale_action none = true
is_stale_action (some exchange) = exchange.dispatch_claimed

-- What a message to a provider asks for has ended, or was handed out before.
abbrev pub is_stale_by : OutboundKind → Option CorrelationKey → Option String → Gateway → Bool
is_stale_by OutboundKind.provider_invoke_request none token g = true
is_stale_by OutboundKind.provider_invoke_request (some key) token g =
    is_stale_invoke token (lookup key g.pending_by_provider_key)
is_stale_by OutboundKind.provider_action_request none token g = true
is_stale_by OutboundKind.provider_action_request (some key) token g =
    is_stale_action (lookup key g.action_exchanges)
is_stale_by _ key token g = false

abbrev pub is_stale : Gateway → OutboundMessage → Bool
is_stale g message = is_stale_by message.kind message.pending_key message.pending_token g

-- The messages before the one taken are stale and dropped, the one taken is not, those behind it stay,
-- and the same message could not be taken again if it starts work at a provider.
pub record Taken (messages : List OutboundMessage) (g : Gateway) (message : OutboundMessage)
    (g' : Gateway) : Type 0 where
  pub dropped : List OutboundMessage
  pub order : messages ≡ dropped ++ message ∷ g'.outbound
  pub fresh : is_stale g message ≡ false
  pub stale : all (is_stale g) dropped ≡ true
  pub once : is_stale g' message ≡ is_to_provider message.kind

abbrev pub Outcome :
    List OutboundMessage → Gateway → Result (Option OutboundMessage) × Gateway → Type 0
Outcome messages g (err x, g') = ⊥
Outcome messages g (ok none, g') =
    (all (is_stale g) messages ≡ true) × (g' ≡ record g { outbound = [] })
Outcome messages g (ok (some message), g') = Taken messages g message g'

claim_invoke-is_stale :
    (key : CorrelationKey) (token : Option String) (held : Option PendingInvocation) (g : Gateway)
    → not (is_some (claim_invoke key token held g)) ≡ is_stale_invoke token held
claim_invoke-is_stale key token none g = refl
claim_invoke-is_stale key none (some pending) g = ground arith
claim_invoke-is_stale key (some token) (some pending) g = ground arith

claim_action-is_stale :
    (key : CorrelationKey) (held : Option ActionExchange) (g : Gateway)
    → not (is_some (claim_action key held g)) ≡ is_stale_action held
claim_action-is_stale key none g = refl
claim_action-is_stale key (some exchange) g = ground arith

claim_by-is_stale :
    (kind : OutboundKind) (key : Option CorrelationKey) (token : Option String) (g : Gateway)
    → not (is_some (claim_by kind key token g)) ≡ is_stale_by kind key token g
claim_by-is_stale OutboundKind.provider_invoke_request none token g = refl
claim_by-is_stale OutboundKind.provider_invoke_request (some key) token g =
    claim_invoke-is_stale key token (lookup key g.pending_by_provider_key) g
claim_by-is_stale OutboundKind.provider_action_request none token g = refl
claim_by-is_stale OutboundKind.provider_action_request (some key) token g =
    claim_action-is_stale key (lookup key g.action_exchanges) g
claim_by-is_stale OutboundKind.registry_response key token g = refl
claim_by-is_stale OutboundKind.caller_invoke_response key token g = refl
claim_by-is_stale OutboundKind.caller_action_response key token g = refl

-- A message is passed over where it is stale.
unclaimed-is_stale :
    (message : OutboundMessage) (g : Gateway) → not (is_some (claim message g)) ≡ is_stale g message
unfolding claim
unclaimed-is_stale message g =
    claim_by-is_stale message.kind message.pending_key message.pending_token g

lookup-insert_same :
    {V : Type 0} (key : CorrelationKey) (v : V) (d : Dict CorrelationKey V)
    → lookup key (insert key v d) ≡ some v
lookup-insert_same key v d =
    ground (arith, lookup-insert key key v d, correlation_eq.beq_iff key key)

-- A claim that was made is not made again.
claim_invoke-again :
    (key : CorrelationKey) (token : Option String) (rest : List OutboundMessage)
    (held : Option PendingInvocation) (g g' : Gateway)
    → claim_invoke key token held g ≡ some g'
    → claim_invoke key token (lookup key g'.pending_by_provider_key) (record g' { outbound = rest })
      ≡ none
unfolding claim_pending
claim_invoke-again key token rest none g g' h = absurd (cc)
claim_invoke-again key token rest (some pending) g g' h =
    elim (Bool-cases
      (not (option_beq (some pending.pending_token) token) || pending.dispatch_claimed)) [
        | inl e ↦ absurd (ground (arith, e, h))
        | inr e ↦
            let same : claim_pending key pending g ≡ g' = ground (arith, e, h) in
            rw
              (
                ← same,
                lookup-insert_same key (record pending { dispatch_claimed = true })
                    g.pending_by_provider_key,
              )
              (ground arith)
      ]

claim_action-again :
    (key : CorrelationKey) (rest : List OutboundMessage) (held : Option ActionExchange)
    (g g' : Gateway)
    → claim_action key held g ≡ some g'
    → claim_action key (lookup key g'.action_exchanges) (record g' { outbound = rest }) ≡ none
unfolding claim_exchange
claim_action-again key rest none g g' h = absurd (cc)
claim_action-again key rest (some exchange) g g' h = elim (Bool-cases exchange.dispatch_claimed) [
  | inl e ↦ absurd (ground (arith, e, h))
  | inr e ↦
      let same : claim_exchange key exchange g ≡ g' = ground (arith, e, h) in
      rw
        (
          ← same,
          lookup-insert_same key (record exchange { dispatch_claimed = true }) g.action_exchanges,
        )
        refl
]

claim_by-again :
    (kind : OutboundKind) (key : Option CorrelationKey) (token : Option String)
    (rest : List OutboundMessage) (g g' : Gateway)
    → claim_by kind key token g ≡ some g'
    → not (is_some (claim_by kind key token (record g' { outbound = rest }))) ≡ is_to_provider kind
claim_by-again OutboundKind.provider_invoke_request none token rest g g' h = absurd (cc)
claim_by-again OutboundKind.provider_action_request none token rest g g' h = absurd (cc)
claim_by-again OutboundKind.provider_invoke_request (some key) token rest g g' h =
    rw (claim_invoke-again key token rest (lookup key g.pending_by_provider_key) g g' h) refl
claim_by-again OutboundKind.provider_action_request (some key) token rest g g' h =
    rw (claim_action-again key rest (lookup key g.action_exchanges) g g' h) refl
claim_by-again OutboundKind.registry_response key token rest g g' h = refl
claim_by-again OutboundKind.caller_invoke_response key token rest g g' h = refl
claim_by-again OutboundKind.caller_action_response key token rest g g' h = refl

claim-is_stale :
    (message : OutboundMessage) (rest : List OutboundMessage) (g g' : Gateway)
    → claim message g ≡ some g'
    → is_stale (record g' { outbound = rest }) message ≡ is_to_provider message.kind
unfolding claim
claim-is_stale message rest g g' h =
    sym (unclaimed-is_stale message (record g' { outbound = rest }))
    ∙ claim_by-again message.kind message.pending_key message.pending_token rest g g' h

Outcome-skip :
    (message : OutboundMessage) (rest : List OutboundMessage) (g : Gateway)
    (r : Result (Option OutboundMessage) × Gateway)
    → claim message g ≡ none
    → Outcome rest g r
    → Outcome (message ∷ rest) g r
Outcome-skip message rest g (err x, g') e h = h
Outcome-skip message rest g (ok none, g') e h =
    (ground (arith, e, h.0, unclaimed-is_stale message g), h.1)
Outcome-skip message rest g (ok (some taken), g') e h = record {
  dropped = message ∷ h.dropped;
  order = ap (λ ms. message ∷ ms) h.order;
  fresh = h.fresh;
  stale = ground (arith, e, h.stale, unclaimed-is_stale message g);
  once = h.once;
}

take_from-Outcome :
    (messages : List OutboundMessage) (g : Gateway) → Outcome messages g (take_from messages g)
unfolding take_from
take_from-Outcome [] g = (refl, refl)
take_from-Outcome (message ∷ rest) g = elim (Option-cases (claim message g)) [
  | inl e ↦
      rw (take_from, e)
        (Outcome-skip message rest g (take_from rest g) e (take_from-Outcome rest g))
  | inr (g', e) ↦
      rw (take_from, e)
        (record {
          dropped = [];
          order = refl;
          fresh = ground (arith, e, unclaimed-is_stale message g);
          stale = refl;
          once = claim-is_stale message rest g g' e;
        })
]

-- `take_outbound` returns the first message of the mailbox that is not stale when it is called, drops
-- those before it and leaves those behind it. A message to a provider is stale from then on, so that
-- it is handed out once, and one to a caller is never stale. It returns none only when every message
-- is stale, and then empties the mailbox and changes nothing else. It never raises.
pub take_outbound-Outcome : (g : Gateway) → Outcome g.outbound g (take_outbound g)
unfolding take_outbound
take_outbound-Outcome g = take_from-Outcome g.outbound g
