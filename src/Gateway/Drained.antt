-- ===== src/Gateway/Drained.antt =====
-- The loops of `begin_close` and `sweep`: each request under way is ended, and nothing raises.
use adapter_forge_gateway.Prelude.{nat_eq, ℕ, ◌+◌, ◌≡◌, refl, Bool, false, some, List, [], ◌∷◌}
use adapter_forge_gateway.Raise.Method.{lift, pure, ◌>>=◌, ◌>>◌, choose, for_each}
use adapter_forge_gateway.Raise.Ensures.{
  Ensures, Ensures-then, Ensures-pure, Ensures-weaken, Ends, Ensures-bind,
}
use adapter_forge_gateway.Raise.Reading.{Ensures-gets_cases}
use adapter_forge_gateway.Dict.{Dict, lookup, erase, erase_each}
use adapter_forge_gateway.Endpoint.Values.{ToolError}
use adapter_forge_gateway.Gateway.Envelope.{ToolEnvelope, CorrelationKey, correlation_eq}
use adapter_forge_gateway.Gateway.State.{PendingInvocation, ActionExchange, Gateway}
use adapter_forge_gateway.Gateway.Finish.{finish_action_exchange_error, finish_pending}
use adapter_forge_gateway.Gateway.Endings.{end_pending, end_each}
use adapter_forge_gateway.Gateway.Slots.{Holds}
use adapter_forge_gateway.Gateway.Removing.{finish_pending-Holds}
use adapter_forge_gateway.Gateway.Answered.{
  logical_error_response-ok, pending-logical, answered, answer, finish_pending-answered,
}
use adapter_forge_gateway.Gateway.Closing.{Left}
use adapter_forge_gateway.Gateway.Closed.{
  pending_gone-Left, answered-Left, finish_action_exchange_error-Left,
}

module _ {accepts : Bool} {capacity n total : ℕ} {exchanges : Dict CorrelationKey ActionExchange}
    {pendings : Dict CorrelationKey PendingInvocation} where
  finish_pending-Left :
      (key : CorrelationKey) (pending : PendingInvocation) (response : ToolEnvelope) (at : ℕ)
      (timed_out : Bool) (g : Gateway)
      → Left accepts capacity n total 0 exchanges pendings g
      → lookup key g.pending_by_provider_key ≡ some pending
      → Ends
          (Left accepts capacity n total 0 exchanges (erase key pendings))
          (λ _. ⊥)
          (finish_pending key response at timed_out g)
  finish_pending-Left key pending response at timed_out g h held =
      let done = finish_pending-answered key pending g h.holds held response at timed_out in
      let kept : Holds capacity (0 + n)
          (answered pending.future key pending (answer pending response at timed_out) g) =
        rw done at ((finish_pending-Holds key response at timed_out).at g h.holds) in
      rw done (
        answered-Left pending.future key pending (answer pending response at timed_out) g refl h
          (rw h.pending_by_provider_key at held) kept)

  pub finish_held-Left :
      (key : CorrelationKey) (pending : PendingInvocation) (response : ToolEnvelope) (at : ℕ)
      (timed_out : Bool)
      → Ensures
          (λ g.
            Left accepts capacity n total 0 exchanges pendings g
            × (lookup key g.pending_by_provider_key ≡ some pending))
          (finish_pending key response at timed_out)
          (Left accepts capacity n total 0 exchanges (erase key pendings))
          (λ _. ⊥)
  finish_held-Left key pending response at timed_out = record {
    at = λ g (h, held). finish_pending-Left key pending response at timed_out g h held;
  }

  end_pending-Left :
      (key : CorrelationKey) (pending : PendingInvocation) (error : ToolError) (at : ℕ)
      (timed_out : Bool)
      → Ensures
          (λ g.
            Left accepts capacity n total 0 exchanges pendings g
            × (lookup key g.pending_by_provider_key ≡ some pending))
          (end_pending key pending error at timed_out)
          (Left accepts capacity n total 0 exchanges (erase key pendings))
          (λ _. ⊥)
  unfolding end_pending lift ◌>>=◌
  end_pending-Left key pending error at timed_out = record {
    at = λ g (h, held).
        let response =
          logical_error_response-ok error pending.logical_request
            (pending-logical key pending g h.holds held) in
        rw (end_pending, response) (finish_pending-Left key pending _ at timed_out g h held);
  }

pub end_each-Left :
    {accepts : Bool} {capacity n total : ℕ} {exchanges : Dict CorrelationKey ActionExchange}
    (error : ToolError) (at : ℕ) (keys : List CorrelationKey)
    (pendings : Dict CorrelationKey PendingInvocation)
    → Ensures
        (Left accepts capacity n total 0 exchanges pendings)
        (end_each error at keys)
        (Left accepts capacity n total 0 exchanges (erase_each keys pendings))
        (λ _. ⊥)
unfolding end_each erase_each choose pure
end_each-Left error at [] pendings = Ensures-pure 0
end_each-Left error at (key ∷ keys) pendings =
    Ensures-gets_cases _ _
      (Ensures-bind _ _
        (Ensures-weaken {E = λ _. ⊥} {F = λ _. ⊥} _ (pending_gone-Left key) (Ensures-pure false)
          (λ g h. h) (λ g e. e))
        (λ ended.
          Ensures-bind _ _ (end_each-Left error at keys (erase key pendings))
            (λ rest. Ensures-pure _)))
      (λ pending. Ensures-bind _ _ (end_pending-Left key pending error at false) (λ ended.
        Ensures-bind _ _ (end_each-Left error at keys (erase key pendings))
          (λ rest. Ensures-pure _)))

pub fail_each-Left :
    {accepts : Bool} {capacity n total : ℕ} {pendings : Dict CorrelationKey PendingInvocation}
    (error_of : ActionExchange → ToolError) (at : ℕ) (is_ambiguous : ActionExchange → Bool)
    (keys : List CorrelationKey) (exchanges : Dict CorrelationKey ActionExchange)
    → Ensures
        (Left accepts capacity n total 0 exchanges pendings)
        (for_each keys
          (λ key. finish_action_exchange_error key error_of at is_ambiguous >> pure tt))
        (Left accepts capacity n total 0 (erase_each keys exchanges) pendings)
        (λ _. ⊥)
unfolding for_each erase_each
fail_each-Left error_of at is_ambiguous [] exchanges = record { at = λ g h. h }
fail_each-Left error_of at is_ambiguous (key ∷ keys) exchanges = record {
  at =
      (Ensures-then _ _
        (Ensures-then _ _ (finish_action_exchange_error-Left key error_of at is_ambiguous)
          (Ensures-pure tt))
        (fail_each-Left error_of at is_ambiguous keys (erase key exchanges))).at;
}
