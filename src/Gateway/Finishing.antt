-- ===== src/Gateway/Finishing.antt =====
-- What the ways to end an Action exchange leave of the mailbox's accounting.
use adapter_forge_gateway.Prelude.{
  ℕ, ◌+◌, ◌≡◌, Bool, true, false, some, arith, Bool-cases, nat_eq, inl, inr, is_some,
}
use adapter_forge_gateway.Raise.Ensures.{
  Ensures, Keeps, Ensures-then, Ensures-modify, Ensures-if_so, Ensures-pure, Ensures-weaken,
  Ensures-choose, Ensures-raise,
}
use adapter_forge_gateway.Raise.Reading.{Ensures-find}
use adapter_forge_gateway.Dict.{lookup}
use adapter_forge_gateway.Dict.Size.{weight, count-erase, count-erase-le, length-erase-le}
use adapter_forge_gateway.Dict.Distinct.{erase-IsDistinct}
use adapter_forge_gateway.Endpoint.Values.{ToolError}
use adapter_forge_gateway.Endpoint.Responses.{ToolControlCommand}
use adapter_forge_gateway.Invocations.Item.{ActionKey}
use adapter_forge_gateway.Gateway.Envelope.{ToolEnvelope, CorrelationKey, correlation_eq}
use adapter_forge_gateway.Gateway.State.{OutboundKind, Purpose, ActionExchange, Gateway}
use adapter_forge_gateway.Gateway.Slots.{
  part_rules, is_stuck_exchange, is_owed_answer, Holds, Holds-less, respond-Holds,
}
use adapter_forge_gateway.Gateway.Finish.{
  settle, delete_exchange, fail_action, answer_failed, fail_exchange, finish_action_exchange_error,
}

module _ {capacity n : ℕ} where
  pub settle-Holds :
      (future : ℕ) (response : ToolEnvelope) (g : Gateway)
      → Holds capacity n g
      → Holds capacity n (settle future response g)
  unfolding settle
  settle-Holds future response g h = elim (Bool-cases (is_some (lookup future g.settled))) [
    | inl e ↦ rw (e, settle) h
    | inr e ↦
        rw (e, settle)
          (record {
            fixed = h.fixed;
            room = h.room;
            covered = h.covered;
            tables = h.tables;
            parts = h.parts;
          })
  ]

  -- A held exchange gives its slot back when it is removed.
  pub delete_exchange-Holds :
      (key : CorrelationKey) (exchange : ActionExchange) (g : Gateway)
      → Holds capacity n g × (lookup key g.action_exchanges ≡ some exchange)
      → Holds capacity (weight is_owed_answer exchange + n) (delete_exchange key g)
  unfolding delete_exchange
  delete_exchange-Holds key exchange g (h, held) = record {
    fixed = h.fixed;
    room = h.room;
    covered = omega (
      arith,
      h.covered,
      count-erase is_owed_answer key exchange g.action_exchanges h.tables.exchange_keys held,
    );
    parts = h.parts;
    tables = record {
      pending_keys = h.tables.pending_keys;
      exchange_keys = erase-IsDistinct key g.action_exchanges h.tables.exchange_keys;
      exchange_bound =
          omega (arith, h.tables.exchange_bound, length-erase-le key g.action_exchanges);
      pendings_answerable = h.tables.pendings_answerable;
      exchanges_answerable = omega (
        arith,
        h.tables.exchanges_answerable,
        count-erase-le is_stuck_exchange key g.action_exchanges,
      );
    };
  }

  fail_action-Holds :
      (purpose : Purpose) (key : ActionKey) (error : ToolError) (at : ℕ) (ambiguous : Bool)
      → Keeps (Holds capacity n) (fail_action purpose key error at ambiguous)
  unfolding fail_action
  fail_action-Holds Purpose.invoke key error at ambiguous = search part_rules
  fail_action-Holds (Purpose.control ToolControlCommand.cancel) key error at ambiguous =
      search part_rules
  fail_action-Holds _ key error at ambiguous = search part_rules

module _ {capacity n : ℕ} where
  -- The slot of a removed exchange is taken by its answer, or there was none.
  answer_failed-Holds :
      (exchange : ActionExchange) (error : ToolError)
      → Ensures
          (Holds capacity (weight is_owed_answer exchange + n))
          (answer_failed exchange error)
          (Holds capacity n)
          (Holds capacity n)
  unfolding answer_failed
  answer_failed-Holds exchange error =
      Ensures-if_so exchange.caller_response_reserved _
        (λ reserved.
          Ensures-choose exchange.logical_request _ _
            (Ensures-weaken _ (λ g h. Holds-less g (omega arith) h) (Ensures-raise _) (λ g h. h)
              (λ g h. h))
            (λ request.
              Ensures-weaken _ (λ g h. Holds-less g (ground (arith, reserved)) h)
                (respond-Holds OutboundKind.caller_action_response error request) (λ g h. h)
                (λ g h. Holds-less g (omega arith) h)))
        (λ g none_reserved h. Holds-less g (omega arith) h)

  fail_exchange-Holds :
      (key : CorrelationKey) (exchange : ActionExchange) (error : ToolError) (at : ℕ)
      (ambiguous : Bool)
      → Ensures
          (λ g. Holds capacity n g × (lookup key g.action_exchanges ≡ some exchange))
          (fail_exchange key exchange error at ambiguous)
          (Holds capacity n)
          (Holds capacity n)
  unfolding fail_exchange
  fail_exchange-Holds key exchange error at ambiguous =
      Ensures-then _ _ (Ensures-modify _ (delete_exchange-Holds key exchange)) (
        Ensures-then _ _
          (Ensures-weaken _ (λ g h. h)
            (fail_action-Holds exchange.purpose exchange.execution_key error at ambiguous)
            (λ g h. h) (λ g h. Holds-less g (omega arith) h))
          (answer_failed-Holds exchange error))

  pub finish_action_exchange_error-Holds :
      (key : CorrelationKey) (error_of : ActionExchange → ToolError) (at : ℕ)
      (is_ambiguous : ActionExchange → Bool)
      → Keeps (Holds capacity n) (finish_action_exchange_error key error_of at is_ambiguous)
  unfolding finish_action_exchange_error
  finish_action_exchange_error-Holds key error_of at is_ambiguous =
      Ensures-find _ _ _ (Ensures-pure false) (λ exchange.
        Ensures-then _ _
          (fail_exchange-Holds key exchange (error_of exchange) at (is_ambiguous exchange))
          (Ensures-pure true))
