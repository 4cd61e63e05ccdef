-- ===== src/Gateway/Reporting.antt =====
-- That a provider's responses to Actions, events and readiness keep the mailbox's accounting.
use adapter_forge_gateway.Prelude.{ℕ, suc, ◌+◌, ◌≡◌, true, false, some, arith}
use adapter_forge_gateway.Prelude.Int.{ℤ}
use adapter_forge_gateway.Raise.Method.{modify}
use adapter_forge_gateway.Raise.Ensures.{
  Ensures, Keeps, Keeps-bind, Keeps-then, Keeps-modify, Ensures-then, Ensures-weaken,
  Ensures-modify, Ensures-pure, Ensures-choose, Ensures-bind, Ensures-lift, Ensures-if_so,
  Ensures-raise, Ensures-branch, Ensures-when,
}
use adapter_forge_gateway.Raise.Reading.{Ensures-find}
use adapter_forge_gateway.Dict.{lookup}
use adapter_forge_gateway.Dict.Size.{weight}
use adapter_forge_gateway.Endpoint.Values.{ToolEvent}
use adapter_forge_gateway.Endpoint.Responses.{EndpointStatus}
use adapter_forge_gateway.Invocations.Item.{ActionKey, ActionInvocation, ActionInvocationEvent}
use adapter_forge_gateway.Directory.State.{ToolProviderRouteIdentity, RegisteredEndpoint}
use adapter_forge_gateway.Gateway.Envelope.{ToolEnvelope, CorrelationKey, correlation_eq}
use adapter_forge_gateway.Gateway.State.{OutboundKind, ActionExchange, Ambient}
use adapter_forge_gateway.Gateway.Slots.{
  part_rules, is_owed_answer, Holds, Holds-less, reserve-Holds, append_to_caller-Holds,
}
use adapter_forge_gateway.Gateway.Finishing.{
  delete_exchange-Holds, finish_action_exchange_error-Holds,
}
use adapter_forge_gateway.Gateway.Removing.{finish_unclaimed_for_removed-Holds}
use adapter_forge_gateway.Gateway.Answering.{record_response-Holds, look_up_result-Holds}
use adapter_forge_gateway.Gateway.Answers.{
  answer_caller, advance_cursor, drop_cursor, queue_event, queue_past, queue_dora_events,
  settle_exchange, answer_exchange, handle_action_response,
}
use adapter_forge_gateway.Gateway.Events.{
  append_action_event, event_of_item, event_at, handle_action_event, status_of_current,
  handle_endpoint_status, put_status,
}

module _ {capacity n : ℕ} where
  -- The slot of a removed exchange is taken by its answer, or is spare.
  answer_caller-Holds :
      (exchange : ActionExchange) (response : ToolEnvelope)
      → Ensures
          (Holds capacity (weight is_owed_answer exchange + n))
          (answer_caller exchange response)
          (Holds capacity n)
          (Holds capacity n)
  unfolding answer_caller
  answer_caller-Holds exchange response =
      Ensures-choose exchange.logical_request _ _
        (Ensures-weaken {F = λ _. ⊥} _ (λ g h. h) (Ensures-pure tt)
          (λ g h. Holds-less g (omega arith) h) (λ g x. absurd x))
        (λ request.
          Ensures-then _ _
            (Ensures-if_so {Q = λ g. Holds capacity (suc n) g} _ _
              (λ e.
                Ensures-weaken _ (λ g h. Holds-less g (omega arith) h) (Ensures-raise _) (λ g h. h)
                  (λ g h. h))
              (λ g e h. Holds-less g (ground (arith, e)) h))
            (Ensures-bind _ _
              (Ensures-weaken {F = Holds capacity (suc n)} _ (λ g h. h) (Ensures-lift _) (λ g h. h)
                (λ g h. Holds-less g (omega arith) h))
              (λ answer. append_to_caller-Holds OutboundKind.caller_action_response answer)))

  pub advance_cursor-Holds :
      (key : ActionKey) (cursor : ℤ) → Keeps (Holds capacity n) (modify (advance_cursor key cursor))
  unfolding advance_cursor
  advance_cursor-Holds key cursor = Keeps-modify _ (λ g h. record {
    fixed = h.fixed;
    room = h.room;
    covered = h.covered;
    tables = h.tables;
    parts = h.parts;
  })

  pub drop_cursor-Holds : (key : ActionKey) → Keeps (Holds capacity n) (modify (drop_cursor key))
  unfolding drop_cursor
  drop_cursor-Holds key = Keeps-modify _ (λ g h. record {
    fixed = h.fixed;
    room = h.room;
    covered = h.covered;
    tables = h.tables;
    parts = h.parts;
  })

module _ {capacity n : ℕ} where
  queue_event-Holds :
      (key : ActionKey) (item : ActionInvocation) (event : ActionInvocationEvent)
      → Keeps (Holds capacity n) (queue_event key item event)
  unfolding queue_event
  queue_event-Holds key item event =
      Ensures-then _ _
        (Ensures-weaken {F = Holds capacity n} _ (λ g h. h) (reserve-Holds 1)
          (λ g h. Holds-less {n = 1 + n} g (omega arith) h) (λ g h. h))
        (Ensures-then _ _ (append_to_caller-Holds OutboundKind.caller_action_response _)
          (advance_cursor-Holds key _))

  queue_past-Holds :
      (key : ActionKey) (now : ℕ) (cursor : ℤ)
      → Keeps (Holds capacity n) (queue_past key now cursor)
  unfolding queue_past
  queue_past-Holds key now cursor =
      search (part_rules, queue_event-Holds, drop_cursor-Holds) depth 12

  queue_dora_events-Holds :
      (key : ActionKey) (now : ℕ) → Keeps (Holds capacity n) (queue_dora_events key now)
  unfolding queue_dora_events
  queue_dora_events-Holds key now = search (part_rules, queue_past-Holds)

module _ {capacity n : ℕ} where
  settle_exchange-Holds :
      (w : Ambient) (key : CorrelationKey) (exchange : ActionExchange) (response : ToolEnvelope)
      (at : ℕ)
      → Ensures
          (λ g. Holds capacity n g × (lookup key g.action_exchanges ≡ some exchange))
          (settle_exchange w key exchange response at)
          (Holds capacity n)
          (Holds capacity n)
  unfolding settle_exchange
  settle_exchange-Holds w key exchange response at =
      Ensures-then _ _ (Ensures-modify _ (delete_exchange-Holds key exchange)) (
        Ensures-then _ _
          (Ensures-weaken _ (λ g h. h) (record_response-Holds w _ _ response.payload at) (λ g h. h)
            (λ g h. Holds-less g (omega arith) h))
          (Ensures-then _ _ (answer_caller-Holds exchange response)
            (Keeps-then _ _ (queue_dora_events-Holds _ at) (Ensures-pure true))))

  answer_exchange-Holds :
      (w : Ambient) (route : ToolProviderRouteIdentity) (response : ToolEnvelope) (at : ℕ)
      (key : CorrelationKey) (exchange : ActionExchange)
      → Ensures
          (λ g. Holds capacity n g × (lookup key g.action_exchanges ≡ some exchange))
          (answer_exchange w route response at key exchange)
          (Holds capacity n)
          (Holds capacity n)
  unfolding answer_exchange
  answer_exchange-Holds w route response at key exchange =
      Ensures-then _ _
        (Ensures-weaken _ (λ g h. h) (Ensures-when _ _ (Ensures-raise _)) (λ g h. h) (λ g h. h.0))
        (Ensures-then _ _ (Ensures-weaken _ (λ g h. h) (Ensures-lift _) (λ g h. h) (λ g h. h.0)) (
          Ensures-branch _ _ _
            (Ensures-weaken _ (λ g h. h.0) (finish_action_exchange_error-Holds key _ at _)
              (λ g h. h) (λ g h. h))
            (settle_exchange-Holds w key exchange response at)))

  pub handle_action_response-Holds :
      (w : Ambient) (route : ToolProviderRouteIdentity) (response : ToolEnvelope) (at : ℕ)
      → Keeps (Holds capacity n) (handle_action_response w route response at)
  unfolding handle_action_response
  handle_action_response-Holds w route response at = Keeps-bind _ _ (Ensures-lift _) (λ key.
      Ensures-find _ _ _ (Ensures-pure false) (answer_exchange-Holds w route response at key))

  append_action_event-Holds :
      (w : Ambient) (key : ActionKey) (event : ToolEvent) (sequence : ℕ)
      → Keeps (Holds capacity n) (append_action_event w key event sequence)
  unfolding append_action_event
  append_action_event-Holds w key event sequence =
      search (part_rules, queue_dora_events-Holds, look_up_result-Holds)

  event_of_item-Holds :
      (w : Ambient) (route : ToolProviderRouteIdentity) (envelope : ToolEnvelope)
      (event : ToolEvent) (key : ActionKey) (item : ActionInvocation)
      → Keeps (Holds capacity n) (event_of_item w route envelope event key item)
  unfolding event_of_item
  event_of_item-Holds w route envelope event key item =
      search (part_rules, append_action_event-Holds)

  event_at-Holds :
      (w : Ambient) (route : ToolProviderRouteIdentity) (envelope : ToolEnvelope)
      (event : ToolEvent) (key : ActionKey)
      → Keeps (Holds capacity n) (event_at w route envelope event key)
  unfolding event_at
  event_at-Holds w route envelope event key = search (part_rules, event_of_item-Holds)

  pub handle_action_event-Holds :
      (w : Ambient) (route : ToolProviderRouteIdentity) (envelope : ToolEnvelope)
      (event : ToolEvent)
      → Keeps (Holds capacity n) (handle_action_event w route envelope event)
  unfolding handle_action_event
  handle_action_event-Holds w route envelope event = search (part_rules, event_at-Holds)

  status_of_current-Holds :
      (route : ToolProviderRouteIdentity) (envelope : ToolEnvelope) (status : EndpointStatus)
      (current : RegisteredEndpoint)
      → Keeps (Holds capacity n) (status_of_current route envelope status current)
  unfolding status_of_current put_status
  status_of_current-Holds route envelope status current =
      Keeps-then _ _ (Ensures-when _ _ (Ensures-raise _)) (
        Keeps-modify _ (λ g h. record {
          fixed = h.fixed;
          room = h.room;
          covered = h.covered;
          tables = h.tables;
          parts = h.parts;
        }))

  pub handle_endpoint_status-Holds :
      (w : Ambient) (route : ToolProviderRouteIdentity) (envelope : ToolEnvelope)
      (status : EndpointStatus) (at : ℕ)
      → Keeps (Holds capacity n) (handle_endpoint_status w route envelope status at)
  unfolding handle_endpoint_status
  handle_endpoint_status-Holds w route envelope status at =
      search (part_rules, finish_unclaimed_for_removed-Holds, status_of_current-Holds) depth 12
