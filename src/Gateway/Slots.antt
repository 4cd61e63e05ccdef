-- ===== src/Gateway/Slots.antt =====
-- The accounting of the outbound mailbox: what the reservations of `ToolGatewayService` cover, and
-- that the three mailbox methods keep it.
use adapter_forge_gateway.Prelude.{
  not, ◌&&◌, ◌||◌, Option, none, some, is_some, ℕ, suc, ◌+◌, ◌≤◌, ◌≡◌, Bool, false, [], ◌∷◌, length,
  length-append, ltb, arith, Bool-cases, inl, inr,
}
use adapter_forge_gateway.Raise.{Action}
use adapter_forge_gateway.Raise.Method.{gets, ◌>>=◌}
use adapter_forge_gateway.Raise.Ensures.{
  Ensures, Keeps, keeps_rules, Ensures-bind, Ensures-lift, Ensures-weaken, Ensures-on_part,
  Ensures-on_part_to,
}
use adapter_forge_gateway.Dict.{Dict, count_values, IsDistinct}
use adapter_forge_gateway.Endpoint.Values.{ToolError}
use adapter_forge_gateway.Invocations.Store.{ActionInvocationStore}
use adapter_forge_gateway.Directory.State.{EndpointDirectory}
use adapter_forge_gateway.Directory.Expiry.{IsValid as DirectoryIsValid}
use adapter_forge_gateway.Directory.Soundness.{IsSafe as DirectoryIsSafe, safe_directory}
use adapter_forge_gateway.Invocations.Steps.{IsValid as StoreIsValid}
use adapter_forge_gateway.Invocations.Soundness.{IsSafe as StoreIsSafe, safe_store}
use adapter_forge_gateway.Gateway.Envelope.{
  ToolEnvelope, CorrelationKey, correlation_eq, logical_error_response,
}
use adapter_forge_gateway.Gateway.State.{
  OutboundKind, OutboundMessage, PendingInvocation, ActionExchange, Gateway, on_directory,
  on_invocations, reserve_outbound_slots, release_outbound_slots, append_reserved_outbound,
  append_to_caller, respond, caller_message, ensure_accepting,
}

abbrev pub is_owed_terminal : PendingInvocation → Bool
is_owed_terminal pending = pending.terminal_slot_reserved

abbrev pub is_owed_answer : ActionExchange → Bool
is_owed_answer exchange = exchange.caller_response_reserved

-- The IDs that `ToolEnvelope` requires of a request to a Tool.
abbrev pub has_ids : ToolEnvelope → Bool
has_ids envelope =
    is_some envelope.request_id
    && is_some envelope.invocation_id
    && is_some envelope.attempt_id
    && is_some envelope.operation

-- A caller's request that a response can be made for.
abbrev pub is_logical_request : ToolEnvelope → Bool
is_logical_request request = has_ids request && not (is_some request.endpoint_instance_id)

abbrev pub is_answerable : Option ToolEnvelope → Bool
is_answerable none = false
is_answerable (some request) = is_logical_request request

-- Nobody could be told how the invocation ended, or it waits for no instance.
abbrev pub is_stuck : PendingInvocation → Bool
is_stuck pending =
    not (is_logical_request pending.logical_request)
    || (not (is_some pending.future) && not pending.terminal_slot_reserved)
    || not (is_some pending.provider_request.endpoint_instance_id)

abbrev pub is_stuck_exchange : ActionExchange → Bool
is_stuck_exchange exchange =
    exchange.caller_response_reserved && not (is_answerable exchange.logical_request)

-- The two tables of requests under way hold no key twice, there are no more exchanges than the
-- mailbox has slots, and an answer can be made for each entry that owes one.
pub record Tables (capacity : ℕ) (pendings : Dict CorrelationKey PendingInvocation)
    (exchanges : Dict CorrelationKey ActionExchange) : Type 0 where
  pub pending_keys : IsDistinct pendings
  pub exchange_keys : IsDistinct exchanges
  pub exchange_bound : length exchanges ≤ capacity
  pub pendings_answerable : count_values is_stuck pendings ≡ 0
  pub exchanges_answerable : count_values is_stuck_exchange exchanges ≡ 0

-- The directory and the store that the service drives are sound.
pub record Parts (directory : EndpointDirectory) (store : ActionInvocationStore) : Type 0 where
  pub directory_valid : DirectoryIsValid directory
  pub store_valid : StoreIsValid store

-- The reserved slots cover the responses that are owed and `spare` more, and all fit the mailbox; and
-- the tables and the parts are as they should be.
pub record Holds (capacity spare : ℕ) (g : Gateway) : Type 0 where
  pub fixed : g.outbound_capacity ≡ capacity
  pub room : length g.outbound + g.reserved_outbound_slots ≤ capacity
  pub covered :
      count_values is_owed_terminal g.pending_by_provider_key
        + count_values is_owed_answer g.action_exchanges
        + spare
      ≤ g.reserved_outbound_slots
  pub tables : Tables capacity g.pending_by_provider_key g.action_exchanges
  pub parts : Parts g.directory g.action_invocations

pub Holds-less : {capacity m n : ℕ} (g : Gateway) → m ≤ n → Holds capacity n g → Holds capacity m g
Holds-less g less h = record {
  fixed = h.fixed;
  room = h.room;
  covered = omega (arith, h.covered);
  tables = h.tables;
  parts = h.parts;
}

module _ {capacity n : ℕ} where
  pub reserve-Holds :
      (count : ℕ)
      → Ensures
          (Holds capacity n)
          (reserve_outbound_slots count)
          (Holds capacity (count + n))
          (Holds capacity n)
  unfolding reserve_outbound_slots
  reserve-Holds count = record {
    at = λ g h.
        elim (Bool-cases
          (ltb g.outbound_capacity (length g.outbound + g.reserved_outbound_slots + count))) [
            | inl e ↦ rw (e, reserve_outbound_slots) h
            | inr e ↦
                rw (e, reserve_outbound_slots)
                  (record {
                    fixed = h.fixed;
                    room = ground (arith, h.fixed, h.room, e);
                    covered = omega (arith, h.covered);
                    tables = h.tables;
                    parts = h.parts;
                  })
          ];
  }

  pub release-Holds :
      {E : Gateway → Type 0} (count : ℕ)
      → Ensures
          (Holds capacity (suc count + n))
          (release_outbound_slots (suc count))
          (Holds capacity n)
          E
  unfolding release_outbound_slots
  release-Holds count = record {
    at = λ g h.
        let positive : ltb (suc count) 1 ≡ false = ground arith in
        let e : ltb g.reserved_outbound_slots (suc count) ≡ false = ground (arith, h.covered) in
        rw (positive, e, release_outbound_slots)
          (record {
            fixed = h.fixed;
            room = omega (arith, h.room);
            covered = omega (arith, h.covered);
            tables = h.tables;
            parts = h.parts;
          });
  }

  -- Appending takes a spare slot, and leaves the pending invocations alone.
  pub append_beside-Holds :
      {E : Gateway → Type 0} (P : Dict CorrelationKey PendingInvocation → Type 0)
      (message : OutboundMessage)
      → Ensures
          (λ g. Holds capacity (suc n) g × P g.pending_by_provider_key)
          (append_reserved_outbound message)
          (λ g. Holds capacity n g × P g.pending_by_provider_key)
          E
  unfolding append_reserved_outbound
  append_beside-Holds P message = record {
    at = λ g (h, beside).
        let e : ltb g.reserved_outbound_slots 1 ≡ false = ground (arith, h.covered) in
        rw (e, append_reserved_outbound)
          (
            record {
              fixed = h.fixed;
              room = omega (arith, h.room, h.covered, length-append g.outbound (message ∷ []));
              covered = omega (arith, h.covered);
              tables = h.tables;
              parts = h.parts;
            },
            beside,
          );
  }

  pub append-Holds :
      {E : Gateway → Type 0} (message : OutboundMessage)
      → Ensures (Holds capacity (suc n)) (append_reserved_outbound message) (Holds capacity n) E
  append-Holds message =
      Ensures-weaken _ (λ g h. (h, tt)) (append_beside-Holds {E = λ _. ⊥} (λ _. Unit {0}) message)
        (λ g h. h.0) (λ g e. absurd e)

  pub append_to_caller-Holds :
      {E : Gateway → Type 0} (kind : OutboundKind) (envelope : ToolEnvelope)
      → Ensures (Holds capacity (suc n)) (append_to_caller kind envelope) (Holds capacity n) E
  unfolding append_to_caller gets ◌>>=◌
  append_to_caller-Holds kind envelope = record {
    at = λ g h. (append-Holds (caller_message kind envelope g)).at g h;
  }

  pub on_directory-Holds :
      {A : Type 0} (m : Action EndpointDirectory A)
      → DirectoryIsSafe m
      → Keeps (Holds capacity n) (on_directory m)
  unfolding on_directory
  on_directory-Holds m safe = Ensures-on_part_to _ _ m (λ g h. record {
    fixed = h.fixed;
    room = h.room;
    covered = h.covered;
    tables = h.tables;
    parts = record {
      directory_valid = safe.at g.directory h.parts.directory_valid;
      store_valid = h.parts.store_valid;
    };
  })

  pub on_invocations-Holds :
      {A : Type 0} (m : Action ActionInvocationStore A)
      → StoreIsSafe m
      → Keeps (Holds capacity n) (on_invocations m)
  unfolding on_invocations
  on_invocations-Holds m safe = Ensures-on_part_to _ _ m (λ g h. record {
    fixed = h.fixed;
    room = h.room;
    covered = h.covered;
    tables = h.tables;
    parts = record {
      directory_valid = h.parts.directory_valid;
      store_valid = safe.at g.action_invocations h.parts.store_valid;
    };
  })

  pub ensure_accepting-Holds : Keeps (Holds capacity n) ensure_accepting
  unfolding ensure_accepting
  ensure_accepting-Holds = search keeps_rules

  -- An error's answer to a caller takes one slot, whether its envelope can be made or not.
  pub respond-Holds :
      (kind : OutboundKind) (error : ToolError) (request : ToolEnvelope)
      → Ensures
          (Holds capacity (suc n))
          (respond kind error request)
          (Holds capacity n)
          (Holds capacity (suc n))
  unfolding respond
  respond-Holds kind error request =
      Ensures-bind _ _ (Ensures-lift (logical_error_response error request))
        (append_to_caller-Holds kind)

-- A call of the directory or of the store, anywhere in a method.
pub ruleset part_rules =
    (keeps_rules, on_directory-Holds, safe_directory, on_invocations-Holds, safe_store)
