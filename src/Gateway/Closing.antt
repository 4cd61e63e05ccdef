-- ===== src/Gateway/Closing.antt =====
-- That `begin_close` ends every request under way, and that each caller on the mailbox is answered.
use adapter_forge_gateway.Prelude.{
  Option-cases, length-append, inl, ltb, suc, inr, Bool-cases, length, arith, String, ◌≢◌, is_some,
  not, ℕ, ◌+◌, ◌≡◌, refl, Bool, true, false, Option, none, some, [], ◌∷◌,
}
use adapter_forge_gateway.Raise.{ok, err, Exception}
use adapter_forge_gateway.Raise.Method.{gets, when, choose, ◌>>=◌}
use adapter_forge_gateway.Dict.Size.{weight}
use adapter_forge_gateway.Raise.Ensures.{
  Ensures-bind, Ensures-branch, Ensures, Ensures-then, Ensures-pure,
}
use adapter_forge_gateway.Raise.Reading.{Ensures-lift_ok, Ensures-on_part_ok, Returns}
use adapter_forge_gateway.Dict.{Dict, lookup, count_values}
use adapter_forge_gateway.Invocations.Item.{
  is_terminal, ActionInvocation, ActionPhase, ActionKey, key_eq,
}
use adapter_forge_gateway.Invocations.Changes.{
  close_item, set_observation_error_item, set_cancel_status_item, set_phase_item, Change,
}
use adapter_forge_gateway.Invocations.Store.{
  ActionInvocationStore, update, set_phase, set_cancel_status, set_observation_error,
}
use adapter_forge_gateway.Endpoint.Values.{ToolError, ToolResult}
use adapter_forge_gateway.Endpoint.Responses.{ToolControlCommand}
use adapter_forge_gateway.Invocations.Soundness.{
  IsSafe as StoreIsSafe, set_phase-IsSafe, cancel-IsSafe, error-IsSafe,
}
use adapter_forge_gateway.Gateway.Envelope.{ToolEnvelope, CorrelationKey, correlation_eq}
use adapter_forge_gateway.Gateway.Finish.{answer_failed, fail_action}
use adapter_forge_gateway.Gateway.State.{
  caller_message, OutboundKind, respond, append_reserved_outbound, append_to_caller, Purpose,
  on_invocations, PendingInvocation, ActionExchange, Gateway,
}
use adapter_forge_gateway.Gateway.Slots.{
  is_logical_request, is_owed_answer, is_stuck_exchange, Holds,
}
use adapter_forge_gateway.Gateway.Answered.{logical_error_response-ok}

-- A change of one Action does not raise.
abbrev pub IsSafe : Change → Type 0
IsSafe change = (item : ActionInvocation) (x : Exception) → change item ≢ err x

pub update-Returns :
    (key : ActionKey) (change : Change)
    → IsSafe change
    → (s : ActionInvocationStore) → Returns (update key change s)
unfolding update
update-Returns key change safe s =
    elim (lookup key s.items) as (λ o. lookup key s.items ≡ o → Returns (update key change s)) [
      | none ↦ λ e. rw (update, e) tt
      | some item ↦ λ e.
          elim (change item) as (λ r. change item ≡ r → Returns (update key change s)) [
            | err x ↦ λ f. absurd (safe item x f)
            | ok none ↦ λ f. rw (update, e, f) tt
            | ok (some item') ↦ λ f. rw (update, e, f) tt
          ]
            refl
    ]
      refl

set_phase_item-IsSafe :
    (phase : ActionPhase) (now : ℕ) (result : ToolResult) (error : Option ToolError)
    (release : Bool)
    → is_terminal phase ≡ true
    → IsSafe (set_phase_item phase now (some result) error release)
unfolding set_phase_item close_item
set_phase_item-IsSafe phase now result error release ends item x h = ground (arith, ends)

set_cancel_status_item-IsSafe : (status : String) → IsSafe (set_cancel_status_item status)
unfolding set_cancel_status_item
set_cancel_status_item-IsSafe status item x h = cc

set_observation_error_item-IsSafe : (error : ToolError) → IsSafe (set_observation_error_item error)
unfolding set_observation_error_item
set_observation_error_item-IsSafe error item x h = cc

-- The caller is a Dora caller.
abbrev pub is_dora : PendingInvocation → Bool
is_dora pending = not (is_some pending.future)

-- What is left while `begin_close` or `sweep` runs: these exchanges and these pending invocations, and the
-- messages in the mailbox, with the answers that are to come, make `total`. Of those `due` are for an
-- exchange that is removed already.
pub record Left (accepts : Bool) (capacity n total due : ℕ)
    (exchanges : Dict CorrelationKey ActionExchange)
    (pendings : Dict CorrelationKey PendingInvocation) (g : Gateway) : Type 0 where
  pub holds : Holds capacity (due + n) g
  pub accepting : g.accepting ≡ accepts
  pub action_exchanges : g.action_exchanges ≡ exchanges
  pub pending_by_provider_key : g.pending_by_provider_key ≡ pendings
  pub answers :
      length g.outbound
        + count_values is_dora pendings
        + count_values is_owed_answer exchanges
        + due
      ≡ total

module _ {accepts : Bool} {capacity n total due : ℕ}
    {exchanges : Dict CorrelationKey ActionExchange}
    {pendings : Dict CorrelationKey PendingInvocation} {E : Gateway → Type 0} where
  update-Left :
      (key : ActionKey) (change : Change)
      → IsSafe change
      → StoreIsSafe (update key change)
      → Ensures
          (Left accepts capacity n total due exchanges pendings)
          (on_invocations (update key change))
          (Left accepts capacity n total due exchanges pendings)
          E
  unfolding on_invocations
  update-Left key change safe sound =
      Ensures-on_part_ok _ _ (update key change) (update-Returns key change safe) (λ g h. record {
        holds = record {
          fixed = h.holds.fixed;
          room = h.holds.room;
          covered = h.holds.covered;
          tables = h.holds.tables;
          parts = record {
            directory_valid = h.holds.parts.directory_valid;
            store_valid = sound.at g.action_invocations h.holds.parts.store_valid;
          };
        };
        accepting = h.accepting;
        action_exchanges = h.action_exchanges;
        pending_by_provider_key = h.pending_by_provider_key;
        answers = h.answers;
      })

module _ {accepts : Bool} {capacity n total due : ℕ}
    {exchanges : Dict CorrelationKey ActionExchange}
    {pendings : Dict CorrelationKey PendingInvocation} {E : Gateway → Type 0} where
  pub fail_action-Left :
      (purpose : Purpose) (key : ActionKey) (error : ToolError) (at : ℕ) (ambiguous : Bool)
      → Ensures
          (Left accepts capacity n total due exchanges pendings)
          (fail_action purpose key error at ambiguous)
          (Left accepts capacity n total due exchanges pendings)
          E
  unfolding fail_action set_phase set_cancel_status set_observation_error
  fail_action-Left Purpose.invoke key error at ambiguous =
      Ensures-branch ambiguous _ _
        (Ensures-then _ _
          (update-Left key _ (set_phase_item-IsSafe _ at _ _ false refl)
            (set_phase-IsSafe key _ at _ _ false))
          (Ensures-pure tt))
        (Ensures-then _ _
          (update-Left key _ (set_phase_item-IsSafe _ at _ _ true refl)
            (set_phase-IsSafe key _ at _ _ true))
          (Ensures-pure tt))
  fail_action-Left (Purpose.control ToolControlCommand.cancel) key error at ambiguous =
      Ensures-then _ _
        (Ensures-then _ _
          (update-Left key _ (set_cancel_status_item-IsSafe "transport_error")
            (cancel-IsSafe key "transport_error"))
          (update-Left key _ (set_observation_error_item-IsSafe error) (error-IsSafe key error)))
        (Ensures-pure tt)
  fail_action-Left _ key error at ambiguous =
      Ensures-then _ _
        (update-Left key _ (set_observation_error_item-IsSafe error) (error-IsSafe key error))
        (Ensures-pure tt)

module _ {accepts : Bool} {capacity n total due : ℕ}
    {exchanges : Dict CorrelationKey ActionExchange}
    {pendings : Dict CorrelationKey PendingInvocation} {E : Gateway → Type 0} where
  pub append_to_caller-Left :
      (kind : OutboundKind) (envelope : ToolEnvelope)
      → Ensures
          (Left accepts capacity n total (suc due) exchanges pendings)
          (append_to_caller kind envelope)
          (Left accepts capacity n total due exchanges pendings)
          E
  unfolding append_to_caller append_reserved_outbound gets ◌>>=◌
  append_to_caller-Left kind envelope = record {
    at = λ g h.
        let e : ltb g.reserved_outbound_slots 1 ≡ false = ground (arith, h.holds.covered) in
        let longer = length-append g.outbound (caller_message kind envelope g ∷ []) in
        rw (append_to_caller, e)
          (record {
            holds = record {
              fixed = h.holds.fixed;
              room = omega (arith, h.holds.room, h.holds.covered, longer);
              covered = omega (arith, h.holds.covered);
              tables = h.holds.tables;
              parts = h.holds.parts;
            };
            accepting = h.accepting;
            action_exchanges = h.action_exchanges;
            pending_by_provider_key = h.pending_by_provider_key;
            answers = omega (arith, h.answers, longer);
          });
  }

module _ {accepts : Bool} {capacity n total : ℕ} {exchanges : Dict CorrelationKey ActionExchange}
    {pendings : Dict CorrelationKey PendingInvocation} {E : Gateway → Type 0} where
  respond-Left :
      (kind : OutboundKind) (error : ToolError) (request : ToolEnvelope)
      → is_logical_request request ≡ true
      → Ensures
          (Left accepts capacity n total 1 exchanges pendings)
          (respond kind error request)
          (Left accepts capacity n total 0 exchanges pendings)
          E
  unfolding respond
  respond-Left kind error request h =
      Ensures-bind _ _ (Ensures-lift_ok _ (logical_error_response-ok error request h))
        (append_to_caller-Left kind)

  pub answer_failed-Left :
      (exchange : ActionExchange) (error : ToolError)
      → is_stuck_exchange exchange ≡ false
      → Ensures
          (Left accepts capacity n total (weight is_owed_answer exchange) exchanges pendings)
          (answer_failed exchange error)
          (Left accepts capacity n total 0 exchanges pendings)
          E
  unfolding answer_failed when choose
  answer_failed-Left exchange error h = elim (Bool-cases exchange.caller_response_reserved) [
    | inr e ↦ rw (e, answer_failed) (record { at = λ g left. left })
    | inl e ↦ elim (Option-cases exchange.logical_request) [
      | inl f ↦ absurd (ground (arith, e, f, h))
      | inr (request, f) ↦
          rw (e, answer_failed, f)
            (respond-Left OutboundKind.caller_action_response error request
              (ground (arith, e, f, h)))
    ]
  ]
