-- ===== src/Gateway/Closed.antt =====
-- What each step of `begin_close` leaves: an exchange that fails, a pending invocation that is answered.
use adapter_forge_gateway.Prelude.{
  nat_eq, length-append, ap, ℕ, ◌+◌, ◌≡◌, Bool, true, false, Option, none, some, [], ◌∷◌, arith,
}
use adapter_forge_gateway.Raise.Ensures.{
  Ensures, Ensures-then, Ensures-pure, Ensures-modify, Ensures-weaken,
}
use adapter_forge_gateway.Raise.Reading.{Ensures-cases}
use adapter_forge_gateway.Dict.{Dict, lookup, erase, count_values}
use adapter_forge_gateway.Dict.Size.{weight, count-zero, count-erase, erase-none}
use adapter_forge_gateway.Endpoint.Values.{ToolError}
use adapter_forge_gateway.Gateway.Envelope.{ToolEnvelope, CorrelationKey, correlation_eq}
use adapter_forge_gateway.Gateway.State.{PendingInvocation, ActionExchange, Gateway}
use adapter_forge_gateway.Gateway.Finish.{
  remove_pending, delete_exchange, fail_exchange, finish_action_exchange_error,
}
use adapter_forge_gateway.Gateway.Slots.{Holds-less, is_owed_answer, is_stuck_exchange, Holds}
use adapter_forge_gateway.Gateway.Finishing.{delete_exchange-Holds}
use adapter_forge_gateway.Gateway.Answered.{answered, message_to_caller}
use adapter_forge_gateway.Gateway.Closing.{is_dora, Left, fail_action-Left, answer_failed-Left}

module _ {accepts : Bool} {capacity n total : ℕ} {exchanges : Dict CorrelationKey ActionExchange}
    {pendings : Dict CorrelationKey PendingInvocation} where
  delete_exchange-Left :
      (key : CorrelationKey) (exchange : ActionExchange) (g : Gateway)
      → Left accepts capacity n total 0 exchanges pendings g
        × (lookup key g.action_exchanges ≡ some exchange)
      → Left accepts capacity n total
          (weight is_owed_answer exchange)
          (erase key exchanges)
          pendings
          (delete_exchange key g)
  unfolding delete_exchange
  delete_exchange-Left key exchange g (h, held) = record {
    holds = delete_exchange-Holds key exchange g (Holds-less g (omega arith) h.holds, held);
    accepting = h.accepting;
    action_exchanges = ap (erase key) h.action_exchanges;
    pending_by_provider_key = h.pending_by_provider_key;
    answers = omega (
      arith,
      h.answers,
      count-erase is_owed_answer key exchange g.action_exchanges h.holds.tables.exchange_keys held,
      ap (count_values is_owed_answer) h.action_exchanges,
      ap (λ d. count_values is_owed_answer (erase key d)) h.action_exchanges,
    );
  }

  exchange_gone-Left :
      (key : CorrelationKey) (g : Gateway)
      → Left accepts capacity n total 0 exchanges pendings g
        × (lookup key g.action_exchanges ≡ none)
      → Left accepts capacity n total 0 (erase key exchanges) pendings g
  exchange_gone-Left key g (h, gone) =
      let same : erase key exchanges ≡ exchanges =
        erase-none key exchanges (rw (← h.action_exchanges) gone) in
      rw same h

  pub pending_gone-Left :
      (key : CorrelationKey) (g : Gateway)
      → Left accepts capacity n total 0 exchanges pendings g
        × (lookup key g.pending_by_provider_key ≡ none)
      → Left accepts capacity n total 0 exchanges (erase key pendings) g
  pending_gone-Left key g (h, gone) =
      let same : erase key pendings ≡ pendings =
        erase-none key pendings (rw (← h.pending_by_provider_key) gone) in
      rw same h

  -- A removed invocation leaves one Dora caller less to answer, or is not a Dora caller's.
  erase-is_dora :
      (key : CorrelationKey) (pending : PendingInvocation) (g : Gateway)
      → Left accepts capacity n total 0 exchanges pendings g
      → lookup key pendings ≡ some pending
      → count_values is_dora (erase key pendings) + weight is_dora pending
        ≡ count_values is_dora pendings
  erase-is_dora key pending g h held =
      count-erase is_dora key pending pendings
        (rw (← h.pending_by_provider_key) h.holds.tables.pending_keys) held

  pub answered-Left :
      (future : Option ℕ) (key : CorrelationKey) (pending : PendingInvocation)
      (response : ToolEnvelope) (g : Gateway)
      → pending.future ≡ future
      → Left accepts capacity n total 0 exchanges pendings g
      → lookup key pendings ≡ some pending
      → Holds capacity (0 + n) (answered future key pending response g)
      → Left accepts capacity n total 0 exchanges
          (erase key pendings)
          (answered future key pending response g)
  unfolding remove_pending
  answered-Left none key pending response g e h held kept = record {
    holds = kept;
    accepting = h.accepting;
    action_exchanges = h.action_exchanges;
    pending_by_provider_key = ap (erase key) h.pending_by_provider_key;
    answers = ground (
      arith,
      e,
      h.answers,
      erase-is_dora key pending g h held,
      length-append g.outbound (message_to_caller response g ∷ []),
    );
  }
  answered-Left (some id) key pending response g e h held kept = record {
    holds = kept;
    accepting = h.accepting;
    action_exchanges = h.action_exchanges;
    pending_by_provider_key = ap (erase key) h.pending_by_provider_key;
    answers = ground (arith, e, h.answers, erase-is_dora key pending g h held);
  }

module _ {accepts : Bool} {capacity n total : ℕ} {exchanges : Dict CorrelationKey ActionExchange}
    {pendings : Dict CorrelationKey PendingInvocation} {E : Gateway → Type 0} where
  fail_exchange-Left :
      (key : CorrelationKey) (exchange : ActionExchange) (error : ToolError) (at : ℕ)
      (ambiguous : Bool)
      → Ensures
          (λ g.
            Left accepts capacity n total 0 exchanges pendings g
            × (lookup key g.action_exchanges ≡ some exchange))
          (fail_exchange key exchange error at ambiguous)
          (Left accepts capacity n total 0 (erase key exchanges) pendings)
          E
  unfolding fail_exchange
  fail_exchange-Left key exchange error at ambiguous = record {
    at = λ g (h, held).
        (Ensures-then _ _ (Ensures-modify _ (delete_exchange-Left key exchange)) (
            Ensures-then _ _
              (fail_action-Left exchange.purpose exchange.execution_key error at ambiguous)
              (answer_failed-Left exchange error (
                count-zero is_stuck_exchange key exchange g.action_exchanges
                  h.holds.tables.exchanges_answerable held)))).at
          g (h, held);
  }

  pub finish_action_exchange_error-Left :
      (key : CorrelationKey) (error_of : ActionExchange → ToolError) (at : ℕ)
      (is_ambiguous : ActionExchange → Bool)
      → Ensures
          (Left accepts capacity n total 0 exchanges pendings)
          (finish_action_exchange_error key error_of at is_ambiguous)
          (Left accepts capacity n total 0 (erase key exchanges) pendings)
          E
  unfolding finish_action_exchange_error
  finish_action_exchange_error-Left key error_of at is_ambiguous =
      Ensures-cases _ _ _
        (Ensures-weaken {E = E} {F = E} _ (exchange_gone-Left key) (Ensures-pure false) (λ g h. h)
          (λ g e. e))
        (λ exchange.
          Ensures-then _ _
            (fail_exchange-Left key exchange (error_of exchange) at (is_ambiguous exchange))
            (Ensures-pure true))
