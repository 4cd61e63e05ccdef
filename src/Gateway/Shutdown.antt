-- ===== src/Gateway/Shutdown.antt =====
-- That `begin_close` returns in every state the service can reach, and what it leaves.
use adapter_forge_gateway.Prelude.{Bool, false, ℕ, ◌+◌, ◌≡◌, refl, true, List, [], arith, length}
use adapter_forge_gateway.Raise.{ok}
use adapter_forge_gateway.Raise.Method.{for_each, pure, gets, ◌>>=◌, ◌>>◌, modify}
use adapter_forge_gateway.Raise.Ensures.{Ensures, Ends, Ensures-then, Ensures-pure, Ensures-weaken}
use adapter_forge_gateway.Raise.Reading.{Ensures-read}
use adapter_forge_gateway.Dict.{IsDistinct, Dict, erase_each, keys_where, count_values}
use adapter_forge_gateway.Dict.Size.{erase_each-keys}
use adapter_forge_gateway.Gateway.Envelope.{CorrelationKey, correlation_eq}
use adapter_forge_gateway.Gateway.Endings.{end_each, begin_close, gateway_closing}
use adapter_forge_gateway.Gateway.Finish.{finish_action_exchange_error, is_claimed_invoke}
use adapter_forge_gateway.Gateway.State.{
  PendingInvocation, ActionExchange, Gateway, ToolGatewayConfig,
}
use adapter_forge_gateway.Gateway.Start.{start}
use adapter_forge_gateway.Gateway.Slots.{Holds}
use adapter_forge_gateway.Gateway.Closing.{Left}
use adapter_forge_gateway.Gateway.Counted.{owed}
use adapter_forge_gateway.Gateway.Drained.{end_each-Left, fail_each-Left}
use adapter_forge_gateway.Gateway.Calls.{Call, perform_all, start-perform_all-Holds}

-- Nothing is under way, and `sent` messages wait in the mailbox.
pub record Closed (sent : ℕ) (g : Gateway) : Type 0 where
  pub refuses : g.accepting ≡ false
  pub no_exchanges : g.action_exchanges ≡ []
  pub no_pendings : g.pending_by_provider_key ≡ []
  pub sent_all : length g.outbound ≡ sent

-- Erasing every key of a snapshot of the table.
erase_each-listed :
    {V : Type 0} {held d : Dict CorrelationKey V} (ks : List CorrelationKey)
    → IsDistinct held
    → held ≡ d
    → keys_where (λ _. true) held ≡ ks
    → erase_each ks d ≡ []
erase_each-listed {held = held} ks distinct same listed =
    rw (← listed, ← same) (erase_each-keys held distinct)

module _ {accepts : Bool} {capacity n total : ℕ} {exchanges : Dict CorrelationKey ActionExchange}
    {pendings : Dict CorrelationKey PendingInvocation} where
  end_all-Left :
      (now : ℕ)
      → Ensures
          (Left accepts capacity n total 0 exchanges pendings)
          (gets (λ g. keys_where (λ _. true) g.pending_by_provider_key) >>= λ keys.
            end_each gateway_closing now keys >> pure tt)
          (Left accepts capacity n total 0 exchanges [])
          (λ _. ⊥)
  end_all-Left now = Ensures-read _ _ (λ keys. record {
    at = λ g (h, listed).
        let same : erase_each keys pendings ≡ [] =
          erase_each-listed keys h.holds.tables.pending_keys h.pending_by_provider_key listed in
        rw same at (
          (Ensures-then _ _ (end_each-Left gateway_closing now keys pendings) (Ensures-pure tt)).at
            g h);
  })

module _ {accepts : Bool} {capacity n total : ℕ} {exchanges : Dict CorrelationKey ActionExchange}
    {pendings : Dict CorrelationKey PendingInvocation} where
  fail_all-Left :
      (now : ℕ)
      → Ensures
          (Left accepts capacity n total 0 exchanges pendings)
          (gets (λ g. keys_where (λ _. true) g.action_exchanges) >>= λ keys.
            for_each keys (λ key.
              finish_action_exchange_error key (λ _. gateway_closing) now is_claimed_invoke
              >> pure tt)
            >> (gets (λ g. keys_where (λ _. true) g.pending_by_provider_key) >>= λ keys.
                end_each gateway_closing now keys >> pure tt))
          (Left accepts capacity n total 0 [] [])
          (λ _. ⊥)
  fail_all-Left now = Ensures-read _ _ (λ keys. record {
    at = λ g (h, listed).
        let same : erase_each keys exchanges ≡ [] =
          erase_each-listed keys h.holds.tables.exchange_keys h.action_exchanges listed in
        (Ensures-then _ _
            (rw same at (
              fail_each-Left {accepts = accepts} {capacity = capacity} {n = n} {total = total}
                {pendings = pendings} (λ _. gateway_closing) now is_claimed_invoke keys exchanges))
            (end_all-Left now)).at
          g h;
  })

Left-Closed :
    {capacity n total : ℕ} (g : Gateway) → Left false capacity n total 0 [] [] g → Closed total g
unfolding count_values
Left-Closed g left = record {
  refuses = left.accepting;
  no_exchanges = left.action_exchanges;
  no_pendings = left.pending_by_provider_key;
  sent_all = omega (arith, left.answers);
}

-- Closing a service whose accounting holds returns, and ends everything.
pub begin_close-Closed :
    {capacity n : ℕ} (now : ℕ) (g : Gateway)
    → Holds capacity n g
    → Ends (Closed (length g.outbound + owed g)) (λ _. ⊥) (begin_close now g)
unfolding begin_close modify ◌>>◌ ◌>>=◌
begin_close-Closed {capacity} {n} now g h =
    (Ensures-weaken {E = λ _. ⊥} {F = λ _. ⊥}
        {N = Left false capacity n (length g.outbound + owed g) 0 [] []} _ (λ s left. left)
        (fail_all-Left now) Left-Closed (λ s e. e)).at
      (record g { accepting = false })
      (record {
        holds = record {
          fixed = h.fixed;
          room = h.room;
          covered = omega (arith, h.covered);
          tables = h.tables;
          parts = h.parts;
        };
        accepting = refl;
        action_exchanges = refl;
        pending_by_provider_key = refl;
        answers = omega arith;
      })

-- After any calls on a new service, in any order and whether they returned or raised, `begin_close`
-- returns. It leaves a service that accepts nothing, with no pending invocation and no Action
-- exchange, and the mailbox has then exactly one message more for each Dora caller that waited for a
-- Query and for each exchange that kept a slot for its caller.
pub start-perform_all-begin_close-Closed :
    (config : ToolGatewayConfig) (capacity : ℕ) (calls : List Call) (now : ℕ) {g : Gateway}
    → start config capacity ≡ ok g
    → Ends
        (Closed (length (perform_all calls g).outbound + owed (perform_all calls g)))
        (λ _. ⊥)
        (begin_close now (perform_all calls g))
start-perform_all-begin_close-Closed config capacity calls now {g} e =
    begin_close-Closed now (perform_all calls g) (start-perform_all-Holds config capacity calls e)
