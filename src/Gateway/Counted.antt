-- ===== src/Gateway/Counted.antt =====
-- That the loops over removed routes, of `_finish_unclaimed_for_removed_locked`, raise nothing, and
-- lose no answer.
use adapter_forge_gateway.Prelude.{
  ℕ, ◌+◌, ◌≡◌, refl, Bool, true, false, is_some, some, List, [], ◌∷◌, length, arith,
}
use adapter_forge_gateway.Dict.{Dict, lookup, count_values}
use adapter_forge_gateway.Endpoint.Values.{ToolError}
use adapter_forge_gateway.Invocations.Store.{ActionInvocationStore}
use adapter_forge_gateway.Gateway.Envelope.{CorrelationKey, correlation_eq}
use adapter_forge_gateway.Gateway.State.{
  PendingInvocation, ActionExchange, Gateway, Ambient, on_invocations,
}
use adapter_forge_gateway.Gateway.Closing.{is_dora, Left}
use adapter_forge_gateway.Raise.{Action}
use adapter_forge_gateway.Raise.Method.{lift, ◌>>=◌, ◌>>◌, choose, when}
use adapter_forge_gateway.Raise.Ensures.{
  Ensures, Ensures-then, Ensures-bind, Ensures-pure, Ensures-gets, Ensures-modify, Ensures-weaken,
  Ensures-for_each,
}
use adapter_forge_gateway.Raise.Reading.{Returns, Ensures-gets_cases, Ensures-on_part_ok}
use adapter_forge_gateway.Dict.Size.{count-zero}
use adapter_forge_gateway.Invocations.Soundness.{IsSafe as StoreIsSafe, mark_instance-IsSafe}
use adapter_forge_gateway.Invocations.Observe.{mark_instance_ambiguous}
use adapter_forge_gateway.Directory.State.{RegisteredEndpoint}
use adapter_forge_gateway.Gateway.Finish.{
  finish_action_exchange_error, forget_registration, finish_removed, finish_each_removed,
  finish_unclaimed_for_removed, unavailable_before_dispatch,
}
use adapter_forge_gateway.Gateway.Slots.{Holds, Holds-less, is_stuck, is_owed_answer}
use adapter_forge_gateway.Gateway.Answered.{logical_error_response-ok, pending-logical}
use adapter_forge_gateway.Gateway.Closed.{finish_action_exchange_error-Left}
use adapter_forge_gateway.Gateway.Drained.{finish_held-Left}

-- The answers that the mailbox still owes: to each Dora caller of a Query, and for each exchange that
-- keeps a slot for its caller.
abbrev pub owed : Gateway → ℕ
owed g =
    count_values is_dora g.pending_by_provider_key + count_values is_owed_answer g.action_exchanges

-- The accounting holds, and the messages in the mailbox and the answers that are to come make `total`.
pub record Counted (capacity n total : ℕ) (g : Gateway) : Type 0 where
  pub holds : Holds capacity n g
  pub answers : length g.outbound + owed g ≡ total

module _ {capacity n total : ℕ} where
  pub Counted-Left :
      (g : Gateway)
      → Counted capacity n total g
      → Left g.accepting capacity n total 0 g.action_exchanges g.pending_by_provider_key g
  Counted-Left g h = record {
    holds = Holds-less g (omega arith) h.holds;
    accepting = refl;
    action_exchanges = refl;
    pending_by_provider_key = refl;
    answers = omega (arith, h.answers);
  }

  pub Left-Counted :
      {accepts : Bool} {exchanges : Dict CorrelationKey ActionExchange}
      {pendings : Dict CorrelationKey PendingInvocation} (g : Gateway)
      → Left accepts capacity n total 0 exchanges pendings g
      → Counted capacity n total g
  Left-Counted g h = record {
    holds = Holds-less g (omega arith) h.holds;
    answers = ground (arith, h.answers, h.action_exchanges, h.pending_by_provider_key);
  }

  finish_action_exchange_error-Counted :
      (key : CorrelationKey) (error_of : ActionExchange → ToolError) (at : ℕ)
      (is_ambiguous : ActionExchange → Bool)
      → Ensures
          (Counted capacity n total)
          (finish_action_exchange_error key error_of at is_ambiguous)
          (Counted capacity n total)
          (λ _. ⊥)
  finish_action_exchange_error-Counted key error_of at is_ambiguous = record {
    at = λ g h.
        (Ensures-weaken {E = λ _. ⊥} {F = λ _. ⊥} _ (λ s l. l)
            (finish_action_exchange_error-Left key error_of at is_ambiguous) Left-Counted
            (λ s e. e)).at
          g (Counted-Left g h);
  }

  pub on_invocations-Counted :
      {A : Type 0} (m : Action ActionInvocationStore A)
      → ((s : ActionInvocationStore) → Returns (m s))
      → StoreIsSafe m
      → Ensures (Counted capacity n total) (on_invocations m) (Counted capacity n total) (λ _. ⊥)
  unfolding on_invocations
  on_invocations-Counted m returns safe = Ensures-on_part_ok _ _ m returns (λ g h. record {
    holds = record {
      fixed = h.holds.fixed;
      room = h.holds.room;
      covered = h.holds.covered;
      tables = h.holds.tables;
      parts = record {
        directory_valid = h.holds.parts.directory_valid;
        store_valid = safe.at g.action_invocations h.holds.parts.store_valid;
      };
    };
    answers = h.answers;
  })

  forget_registration-Counted :
      (at : ℕ) (r : RegisteredEndpoint)
      → Ensures
          (Counted capacity n total)
          (forget_registration at r)
          (Counted capacity n total)
          (λ _. ⊥)
  unfolding forget_registration mark_instance_ambiguous
  forget_registration-Counted at r =
      Ensures-then _ _
        (Ensures-modify _ (λ g h. record {
          holds = record {
            fixed = h.holds.fixed;
            room = h.holds.room;
            covered = h.holds.covered;
            tables = h.holds.tables;
            parts = h.holds.parts;
          };
          answers = h.answers;
        }))
        (Ensures-then _ _ (on_invocations-Counted _ (λ s. tt) (mark_instance-IsSafe _ _ at _))
          (Ensures-pure tt))

  finish_removed-Counted :
      (w : Ambient) (at : ℕ) (key : CorrelationKey) (pending : PendingInvocation)
      → Ensures
          (λ g. Counted capacity n total g × (lookup key g.pending_by_provider_key ≡ some pending))
          (finish_removed w at key pending)
          (Counted capacity n total)
          (λ _. ⊥)
  unfolding finish_removed lift when ◌>>=◌ ◌>>◌
  finish_removed-Counted w at key pending = record {
    at = λ g (h, held).
        let pinned : is_some pending.provider_request.endpoint_instance_id ≡ true = ground (
          arith,
          count-zero is_stuck key pending g.pending_by_provider_key
              h.holds.tables.pendings_answerable held,
        ) in
        let response =
          logical_error_response-ok (unavailable_before_dispatch w pending.provider_request)
            pending.logical_request (pending-logical key pending g h.holds held) in
        rw (finish_removed, pinned, response)
          ((Ensures-bind _ _
              (Ensures-weaken {E = λ _. ⊥} {F = λ _. ⊥} _ (λ s l. l)
                (finish_held-Left key pending _ at false) Left-Counted (λ s e. e))
              (λ finished. Ensures-pure _)).at
            g (Counted-Left g h, held));
  }

  finish_each_removed-Counted :
      (w : Ambient) (at : ℕ) (keys : List CorrelationKey)
      → Ensures
          (Counted capacity n total)
          (finish_each_removed w at keys)
          (Counted capacity n total)
          (λ _. ⊥)
  unfolding finish_each_removed choose
  finish_each_removed-Counted w at [] = Ensures-pure _
  finish_each_removed-Counted w at (key ∷ keys) =
      Ensures-gets_cases _ _
        (Ensures-bind _ _
          (Ensures-weaken {E = λ _. ⊥} {F = λ _. ⊥} _ (λ g h. h.0) (Ensures-pure (0, 0)) (λ g h. h)
            (λ g e. e))
          (λ first.
            Ensures-bind _ _ (finish_each_removed-Counted w at keys) (λ rest. Ensures-pure _)))
        (λ pending. Ensures-bind _ _ (finish_removed-Counted w at key pending) (λ first.
          Ensures-bind _ _ (finish_each_removed-Counted w at keys) (λ rest. Ensures-pure _)))

  pub finish_unclaimed_for_removed-Counted :
      (w : Ambient) (removed : List RegisteredEndpoint) (at : ℕ)
      → Ensures
          (Counted capacity n total)
          (finish_unclaimed_for_removed w removed at)
          (Counted capacity n total)
          (λ _. ⊥)
  unfolding finish_unclaimed_for_removed
  finish_unclaimed_for_removed-Counted w [] at = Ensures-pure _
  finish_unclaimed_for_removed-Counted w (r ∷ rs) at =
      Ensures-bind _ _ (Ensures-gets _) (λ exchanges.
        Ensures-then _ _
          (Ensures-for_each exchanges _ (λ key.
            Ensures-then _ _ (finish_action_exchange_error-Counted key _ at _) (Ensures-pure tt)))
          (Ensures-then _ _ (Ensures-for_each (r ∷ rs) _ (forget_registration-Counted at))
            (Ensures-bind _ _ (Ensures-gets _) (finish_each_removed-Counted w at))))
