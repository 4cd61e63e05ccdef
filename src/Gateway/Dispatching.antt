-- ===== src/Gateway/Dispatching.antt =====
-- That the claim of an outbound message keeps the mailbox's accounting, and is made once.
use adapter_forge_gateway.Prelude.{
  ℕ, ◌≤◌, ◌≡◌, refl, String, true, not, ◌||◌, Option, none, some, List, [], ◌∷◌, length, arith,
  Bool-cases, inl, inr,
}
use adapter_forge_gateway.Raise.{Result}
use adapter_forge_gateway.Raise.Ensures.{Ends, Keeps}
use adapter_forge_gateway.Dict.{lookup}
use adapter_forge_gateway.Dict.Size.{count-insert_old, length-insert_old}
use adapter_forge_gateway.Dict.Distinct.{insert-IsDistinct}
use adapter_forge_gateway.Gateway.Envelope.{CorrelationKey, correlation_eq, option_beq}
use adapter_forge_gateway.Gateway.State.{
  OutboundKind, OutboundMessage, PendingInvocation, ActionExchange, Gateway,
}
use adapter_forge_gateway.Gateway.Slots.{
  is_stuck, is_stuck_exchange, is_owed_terminal, is_owed_answer, Holds,
}
use adapter_forge_gateway.Gateway.Dispatch.{
  claim_pending, claim_exchange, claim_invoke, claim_action, claim_by, claim, take_or, take_from,
  take_outbound,
}

-- What a successful claim leaves, if there was one.
abbrev Claimed : (Gateway → Type 0) → Option Gateway → Type 0
Claimed P none = Unit
Claimed P (some g) = P g

claim_pending-outbound :
    (key : CorrelationKey) (pending : PendingInvocation) (g : Gateway)
    → (claim_pending key pending g).outbound ≡ g.outbound
unfolding claim_pending
claim_pending-outbound key pending g = refl

claim_exchange-outbound :
    (key : CorrelationKey) (exchange : ActionExchange) (g : Gateway)
    → (claim_exchange key exchange g).outbound ≡ g.outbound
unfolding claim_exchange
claim_exchange-outbound key exchange g = refl

-- The accounting, with the mailbox as it was.
abbrev Ready : ℕ → ℕ → Gateway → Gateway → Type 0
Ready capacity n g g' = Holds capacity n g' × (g'.outbound ≡ g.outbound)

module _ {capacity n : ℕ} where
  claim_pending-Holds :
      (key : CorrelationKey) (pending : PendingInvocation) (g : Gateway)
      → lookup key g.pending_by_provider_key ≡ some pending
      → Holds capacity n g
      → Holds capacity n (claim_pending key pending g)
  unfolding claim_pending
  claim_pending-Holds key pending g held h =
      let claimed : PendingInvocation = record pending { dispatch_claimed = true } in
      record {
        fixed = h.fixed;
        room = h.room;
        covered = omega (
          arith,
          h.covered,
          count-insert_old is_owed_terminal key claimed pending g.pending_by_provider_key held,
        );
        parts = h.parts;
        tables = record {
          pending_keys =
              insert-IsDistinct key claimed g.pending_by_provider_key h.tables.pending_keys;
          exchange_keys = h.tables.exchange_keys;
          exchange_bound = h.tables.exchange_bound;
          pendings_answerable = omega (
            arith,
            h.tables.pendings_answerable,
            count-insert_old is_stuck key claimed pending g.pending_by_provider_key held,
          );
          exchanges_answerable = h.tables.exchanges_answerable;
        };
      }

  claim_exchange-Holds :
      (key : CorrelationKey) (exchange : ActionExchange) (g : Gateway)
      → lookup key g.action_exchanges ≡ some exchange
      → Holds capacity n g
      → Holds capacity n (claim_exchange key exchange g)
  unfolding claim_exchange
  claim_exchange-Holds key exchange g held h =
      let claimed : ActionExchange = record exchange { dispatch_claimed = true } in
      record {
        fixed = h.fixed;
        room = h.room;
        covered = omega (
          arith,
          h.covered,
          count-insert_old is_owed_answer key claimed exchange g.action_exchanges held,
        );
        parts = h.parts;
        tables = record {
          pending_keys = h.tables.pending_keys;
          exchange_keys = insert-IsDistinct key claimed g.action_exchanges h.tables.exchange_keys;
          exchange_bound = omega (
            arith,
            h.tables.exchange_bound,
            length-insert_old key claimed exchange g.action_exchanges held,
          );
          pendings_answerable = h.tables.pendings_answerable;
          exchanges_answerable = omega (
            arith,
            h.tables.exchanges_answerable,
            count-insert_old is_stuck_exchange key claimed exchange g.action_exchanges held,
          );
        };
      }

  claim_invoke-Claimed :
      (key : CorrelationKey) (token : Option String) (held : Option PendingInvocation) (g : Gateway)
      → lookup key g.pending_by_provider_key ≡ held
      → Holds capacity n g
      → Claimed (Ready capacity n g) (claim_invoke key token held g)
  claim_invoke-Claimed key token none g e h = tt
  claim_invoke-Claimed key token (some pending) g e h =
      elim (Bool-cases
        (not (option_beq (some pending.pending_token) token) || pending.dispatch_claimed)) [
          | inl t ↦ rw t tt
          | inr t ↦
              simp t (claim_pending-Holds key pending g e h, claim_pending-outbound key pending g)
        ]

  claim_action-Claimed :
      (key : CorrelationKey) (held : Option ActionExchange) (g : Gateway)
      → lookup key g.action_exchanges ≡ held
      → Holds capacity n g
      → Claimed (Ready capacity n g) (claim_action key held g)
  claim_action-Claimed key none g e h = tt
  claim_action-Claimed key (some exchange) g e h = elim (Bool-cases exchange.dispatch_claimed) [
    | inl t ↦ rw t tt
    | inr t ↦
        simp t (claim_exchange-Holds key exchange g e h, claim_exchange-outbound key exchange g)
  ]

  claim_by-Claimed :
      (kind : OutboundKind) (key : Option CorrelationKey) (token : Option String) (g : Gateway)
      → Holds capacity n g
      → Claimed (Ready capacity n g) (claim_by kind key token g)
  claim_by-Claimed OutboundKind.provider_invoke_request none token g h = tt
  claim_by-Claimed OutboundKind.provider_invoke_request (some key) token g h =
      claim_invoke-Claimed key token (lookup key g.pending_by_provider_key) g refl h
  claim_by-Claimed OutboundKind.provider_action_request none token g h = tt
  claim_by-Claimed OutboundKind.provider_action_request (some key) token g h =
      claim_action-Claimed key (lookup key g.action_exchanges) g refl h
  claim_by-Claimed OutboundKind.registry_response key token g h = (h, refl)
  claim_by-Claimed OutboundKind.caller_invoke_response key token g h = (h, refl)
  claim_by-Claimed OutboundKind.caller_action_response key token g h = (h, refl)

  shorten-Holds :
      (rest : List OutboundMessage) (g : Gateway)
      → length rest ≤ length g.outbound
      → Holds capacity n g
      → Holds capacity n (record g { outbound = rest })
  shorten-Holds rest g shorter h = record {
    fixed = h.fixed;
    room = omega (arith, h.room);
    covered = h.covered;
    tables = h.tables;
    parts = h.parts;
  }

module _ (capacity n : ℕ) where
  take_or-Holds :
      (message : OutboundMessage) (rest : List OutboundMessage) (g : Gateway)
      (claimed : Option Gateway) (next : Result (Option OutboundMessage) × Gateway)
      → length rest ≤ length g.outbound
      → Claimed (Ready capacity n g) claimed
      → Ends (Holds capacity n) (Holds capacity n) next
      → Ends (Holds capacity n) (Holds capacity n) (take_or message rest claimed next)
  take_or-Holds message rest g none next shorter c h = h
  take_or-Holds message rest g (some g') next shorter c h =
      shorten-Holds rest g' (rw c.1 shorter) c.0

  take_from-Holds :
      (messages : List OutboundMessage) (g : Gateway)
      → length messages ≤ length g.outbound
      → Holds capacity n g
      → Ends (Holds capacity n) (Holds capacity n) (take_from messages g)
  unfolding take_from claim
  take_from-Holds [] g shorter h = shorten-Holds [] g shorter h
  take_from-Holds (message ∷ rest) g shorter h =
      let less : length rest ≤ length g.outbound = omega arith in
      take_or-Holds message rest g _ _ less
        (claim_by-Claimed message.kind message.pending_key message.pending_token g h)
        (take_from-Holds rest g less h)

pub take_outbound-Holds : {capacity n : ℕ} → Keeps (Holds capacity n) take_outbound
unfolding take_outbound
take_outbound-Holds {capacity} {n} = record {
  at = λ g h. take_from-Holds capacity n g.outbound g (omega arith) h;
}
