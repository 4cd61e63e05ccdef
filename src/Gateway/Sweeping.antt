-- ===== src/Gateway/Sweeping.antt =====
-- That `sweep` returns in every state the service can reach, and what it leaves.
use adapter_forge_gateway.Prelude.{leb, sym, ◌∙◌, ap, ℕ, ◌+◌, ◌≤◌, ◌≡◌, refl, Bool, List, length}
use adapter_forge_gateway.Dict.{Dict, IsDistinct, count_values, erase_each, keys_where}
use adapter_forge_gateway.Endpoint.Values.{ToolError}
use adapter_forge_gateway.Gateway.Envelope.{CorrelationKey, correlation_eq}
use adapter_forge_gateway.Gateway.State.{
  PendingInvocation, ActionExchange, Gateway, Ambient, ToolGatewayConfig, on_directory,
  on_invocations,
}
use adapter_forge_gateway.Gateway.Closing.{Left}
use adapter_forge_gateway.Raise.{ok}
use adapter_forge_gateway.Raise.Method.{◌>>=◌, ◌>>◌, pure, on_part, for_each}
use adapter_forge_gateway.Raise.Ensures.{
  Ends, Ensures, Ensures-then, Ensures-bind, Ensures-pure, Ensures-weaken,
}
use adapter_forge_gateway.Raise.Reading.{Ensures-read, Ensures-on_part_ok}
use adapter_forge_gateway.Dict.Size.{erase_each-found}
use adapter_forge_gateway.Directory.State.{max_safe_integer, expired, expire}
use adapter_forge_gateway.Directory.Resolving.{expire-ok}
use adapter_forge_gateway.Directory.Expiry.{without-IsValid}
use adapter_forge_gateway.Invocations.Soundness.{mark_deadlines-IsSafe}
use adapter_forge_gateway.Invocations.Observe.{mark_deadlines_ambiguous}
use adapter_forge_gateway.Gateway.Finish.{
  finish_action_exchange_error, is_claimed_invoke, invoke_timeout,
}
use adapter_forge_gateway.Gateway.Endings.{
  is_late_pending, is_late_exchange, exchange_timeout, end_each, sweep,
}
use adapter_forge_gateway.Gateway.Start.{start}
use adapter_forge_gateway.Gateway.Drained.{fail_each-Left, end_each-Left}
use adapter_forge_gateway.Gateway.Counted.{
  owed, Counted, Counted-Left, Left-Counted, finish_unclaimed_for_removed-Counted,
}
use adapter_forge_gateway.Gateway.Calls.{Call, perform_all, start-perform_all-Holds}

-- Nothing is under way past its deadline, and the messages in the mailbox and the answers that are to
-- come make `total`.
pub record Swept (now total : ℕ) (g : Gateway) : Type 0 where
  pub no_late_pending :
      count_values (λ pending. leb pending.deadline now) g.pending_by_provider_key ≡ 0
  pub no_late_exchange : count_values (λ exchange. leb exchange.deadline now) g.action_exchanges ≡ 0
  pub answers : length g.outbound + owed g ≡ total

-- The expiry has the revisions that it takes.
abbrev pub HasRevisions : ℕ → Gateway → Type 0
HasRevisions now g = g.directory.revision + length (expired now g.directory) ≤ max_safe_integer

module _ {capacity n total : ℕ} where
  expire-Counted :
      (now : ℕ)
      → Ensures
          (λ g. Counted capacity n total g × HasRevisions now g)
          (on_directory (expire now))
          (Counted capacity n total)
          (λ _. ⊥)
  unfolding on_directory on_part
  expire-Counted now = record {
    at = λ g (h, room).
        rw (on_directory, expire-ok now g.directory h.holds.parts.directory_valid room)
          (record {
            holds = record {
              fixed = h.holds.fixed;
              room = h.holds.room;
              covered = h.holds.covered;
              tables = h.holds.tables;
              parts = record {
                directory_valid =
                    without-IsValid g.directory h.holds.parts.directory_valid now room;
                store_valid = h.holds.parts.store_valid;
              };
            };
            answers = h.answers;
          });
  }

module _ {accepts : Bool} {capacity n total : ℕ} {exchanges : Dict CorrelationKey ActionExchange}
    {pendings : Dict CorrelationKey PendingInvocation} where
  mark_deadlines-Left :
      (now epoch : ℕ)
      → Ensures
          (Left accepts capacity n total 0 exchanges pendings)
          (on_invocations (mark_deadlines_ambiguous now epoch))
          (Left accepts capacity n total 0 exchanges pendings)
          (λ _. ⊥)
  unfolding on_invocations mark_deadlines_ambiguous
  mark_deadlines-Left now epoch =
      Ensures-on_part_ok _ _ _ (λ s. tt)
        (λ g h. record {
          holds = record {
            fixed = h.holds.fixed;
            room = h.holds.room;
            covered = h.holds.covered;
            tables = h.holds.tables;
            parts = record {
              directory_valid = h.holds.parts.directory_valid;
              store_valid =
                  (mark_deadlines-IsSafe now epoch).at g.action_invocations
                    h.holds.parts.store_valid;
            };
          };
          accepting = h.accepting;
          action_exchanges = h.action_exchanges;
          pending_by_provider_key = h.pending_by_provider_key;
          answers = h.answers;
        })

module _ {accepts : Bool} {capacity n total : ℕ} where
  time_out-Left :
      {B : Type 0} (now epoch : ℕ) (error_of : ActionExchange → ToolError)
      (is_ambiguous : ActionExchange → Bool) (error : ToolError) (late late' : List CorrelationKey)
      (exchanges : Dict CorrelationKey ActionExchange)
      (pendings : Dict CorrelationKey PendingInvocation) (result : ℕ → B)
      → Ensures
          (Left accepts capacity n total 0 exchanges pendings)
          (for_each late
              (λ key. finish_action_exchange_error key error_of now is_ambiguous >> pure tt)
            >> (on_invocations (mark_deadlines_ambiguous now epoch)
                >> (end_each error now late' >>= λ ended. pure (result ended))))
          (Left accepts capacity n total 0 (erase_each late exchanges) (erase_each late' pendings))
          (λ _. ⊥)
  time_out-Left now epoch error_of is_ambiguous error late late' exchanges pendings result =
      Ensures-then _ _ (fail_each-Left error_of now is_ambiguous late exchanges) (
        Ensures-then _ _ (mark_deadlines-Left now epoch)
          (Ensures-bind _ _ (end_each-Left error now late' pendings) (λ ended. Ensures-pure _)))

Left-Swept :
    {accepts : Bool} {capacity n total : ℕ} (exchanges : Dict CorrelationKey ActionExchange)
    (pendings : Dict CorrelationKey PendingInvocation) {late late' : List CorrelationKey} (now : ℕ)
    → IsDistinct exchanges
    → IsDistinct pendings
    → keys_where (is_late_exchange now) exchanges ≡ late
    → keys_where (is_late_pending now) pendings ≡ late'
    → (g : Gateway)
    → Left accepts capacity n total 0 (erase_each late exchanges) (erase_each late' pendings) g
    → Swept now total g
Left-Swept exchanges pendings now distinct distinct' found found' g h = record {
  no_late_pending =
      ap (count_values (is_late_pending now)) h.pending_by_provider_key
      ∙ ap (λ ks. count_values (is_late_pending now) (erase_each ks pendings)) (sym found')
      ∙ erase_each-found (is_late_pending now) pendings distinct';
  no_late_exchange =
      ap (count_values (is_late_exchange now)) h.action_exchanges
      ∙ ap (λ ks. count_values (is_late_exchange now) (erase_each ks exchanges)) (sym found)
      ∙ erase_each-found (is_late_exchange now) exchanges distinct;
  answers = (Left-Counted g h).answers;
}

-- Sweeping a service whose accounting holds.
pub sweep-Swept :
    {capacity n total : ℕ} (w : Ambient) (now : ℕ)
    → Ensures
        (λ g. Counted capacity n total g × HasRevisions now g)
        (sweep w now)
        (Swept now total)
        (λ _. ⊥)
unfolding sweep
sweep-Swept w now = Ensures-bind _ _ (expire-Counted now) (λ expired.
    Ensures-bind _ _ (finish_unclaimed_for_removed-Counted w expired now) (λ counts.
      Ensures-read _ _ (λ timed_out. Ensures-read _ _ (λ action_timeouts. record {
        at = λ g ((h, found'), found).
            (Ensures-weaken {E = λ _. ⊥} {F = λ _. ⊥} _ (λ s l. l)
                (time_out-Left now w.epoch_ms exchange_timeout is_claimed_invoke invoke_timeout
                  action_timeouts timed_out g.action_exchanges g.pending_by_provider_key _)
                (Left-Swept g.action_exchanges g.pending_by_provider_key now
                  h.holds.tables.exchange_keys h.holds.tables.pending_keys found found')
                (λ s e. e)).at
              g (Counted-Left g h);
      }))))

-- After any calls on a new service, in any order and whether they returned or raised, and with as
-- many registry revisions to spare as there are leases that have run out, `sweep` returns. It leaves
-- no pending invocation and no Action exchange whose deadline has passed, and the messages in the
-- mailbox together with the answers that are still owed to Dora callers are as many as before.
pub start-perform_all-sweep-Swept :
    (config : ToolGatewayConfig) (capacity : ℕ) (calls : List Call) (w : Ambient) (now : ℕ)
    {g : Gateway}
    → start config capacity ≡ ok g
    → HasRevisions now (perform_all calls g)
    → Ends
        (Swept now (length (perform_all calls g).outbound + owed (perform_all calls g)))
        (λ _. ⊥)
        (sweep w now (perform_all calls g))
start-perform_all-sweep-Swept config capacity calls w now {g} e room =
    (sweep-Swept w now).at (perform_all calls g)
      (record { holds = start-perform_all-Holds config capacity calls e; answers = refl }, room)
