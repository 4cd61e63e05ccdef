-- ===== src/Gateway/QueryTests.antt =====
-- The theorems on how a Query ends, at a concrete gateway.
use adapter_forge_gateway.Prelude.{◌≢◌, ◌⊎◌, arith, ◌≡◌, refl, true, false, none, some, [], ◌∷◌}
use adapter_forge_gateway.Gateway.Envelope.{Payload, CorrelationKey, correlation_key}
use adapter_forge_gateway.Gateway.State.{
  OutboundKind, OutboundMessage, PendingInvocation, Gateway, started,
}
use adapter_forge_gateway.Raise.{ok, Exception}
use adapter_forge_gateway.Gateway.Answered.{
  reply, timed_out_error, answered, finish_pending-answered,
}
use adapter_forge_gateway.Gateway.Finish.{finish_pending}
use adapter_forge_gateway.Dict.{count_values, lookup}
use adapter_forge_gateway.Gateway.Dispatch.{take_outbound}
use adapter_forge_gateway.Gateway.Taking.{Outcome, take_outbound-Outcome}
use adapter_forge_gateway.Directory.State.{route_beq}
use adapter_forge_gateway.Gateway.HttpQueries.{handle_provider_response}
use adapter_forge_gateway.Gateway.Responses.{handle_provider_response-Decided}
use adapter_forge_gateway.Gateway.Endings.{Ticket, cancel_http_invoke, output_failed}
use adapter_forge_gateway.Gateway.Withdrawn.{
  unsent_error, cancelled_error, failed_with, cancel_http_invoke-answered, output_failed-answered,
}
use adapter_forge_gateway.Gateway.Slots.{Parts, Holds}
use adapter_forge_gateway.Gateway.Calls.{start-Holds}
use adapter_forge_gateway.Gateway.Tests.{
  world, arm_route, small_config, new_directory, new_store, look_request, look_response,
  new_gateway, new_gateway-start,
}

abbrev look_key : CorrelationKey
look_key = record {
  request_id = "gateway-provider-p1";
  invocation_id = "inv";
  attempt_id = "att";
  endpoint_id = "arm";
  endpoint_instance_id = some "arm_1";
  operation = "look";
}

abbrev look_pending : PendingInvocation
look_pending = record {
  logical_request = look_request;
  provider_request = record look_request {
    request_id = some "gateway-provider-p1";
    endpoint_instance_id = some "arm_1";
  };
  route = arm_route;
  logical_key = record look_key { request_id = "q1"; endpoint_instance_id = none };
  provider_key = look_key;
  pending_token = "t1";
  deadline = 120;
  future = none;
  terminal_slot_reserved = true;
  dispatch_claimed = false;
}

abbrev held_gateway : Gateway
held_gateway = record new_gateway {
  reserved_outbound_slots = 1;
  pending_by_provider_key = (look_key, look_pending) ∷ [];
}

new_gateway-Parts : Parts new_directory new_store
unfolding started
new_gateway-Parts = (start-Holds small_config 8 new_gateway-start).parts

held_gateway-Holds : Holds 8 0 held_gateway
unfolding started count_values lookup
held_gateway-Holds = record {
  fixed = refl;
  room = omega arith;
  covered = omega arith;
  tables = record {
    pending_keys = (refl, tt);
    exchange_keys = tt;
    exchange_bound = omega arith;
    pendings_answerable = refl;
    exchanges_answerable = refl;
  };
  parts = new_gateway-Parts;
}

-- A response that arrives after the deadline.
finish_pending-answered_example : finish_pending look_key look_response 130 false held_gateway ≡ (
  ok true,
  answered none look_key look_pending
      (reply (Payload.tool_error timed_out_error) look_request)
      held_gateway,
)
unfolding lookup
finish_pending-answered_example =
    finish_pending-answered look_key look_pending held_gateway held_gateway-Holds refl look_response
      130 false

abbrev look_message : OutboundMessage
look_message = record {
  output_id = "arm_out";
  envelope = record look_request {
    request_id = some "gateway-provider-p1";
    endpoint_instance_id = some "arm_1";
  };
  kind = OutboundKind.provider_invoke_request;
  pending_key = some look_key;
  pending_token = some "t1";
}

-- The first message belongs to an earlier invocation under the same key.
abbrev queued_gateway : Gateway
queued_gateway = record held_gateway {
  outbound = record look_message { pending_token = some "t0" } ∷ look_message ∷ [];
}

take_outbound-Outcome_example :
    Outcome queued_gateway.outbound queued_gateway (take_outbound queued_gateway)
take_outbound-Outcome_example = take_outbound-Outcome queued_gateway

-- A response in time, and by the right route.
handle_provider_response-Decided_example :
    handle_provider_response arm_route look_response 30 held_gateway ≡ (
      ok true,
      answered none look_key look_pending (reply look_response.payload look_request) held_gateway,
    )
unfolding lookup correlation_key route_beq
handle_provider_response-Decided_example =
    handle_provider_response-Decided arm_route look_response 30 look_key look_pending held_gateway
      held_gateway-Holds refl refl

-- The provider's node refuses the message.
output_failed-answered_example :
    (look_message.pending_token ≡ some look_pending.pending_token)
      × (output_failed world look_message Exception.runtime_error 40 held_gateway
          ≡ failed_with
              (unsent_error (world.text_of Exception.runtime_error))
              40
              false
              look_key
              look_pending
              held_gateway)
    ⊎ (look_message.pending_token ≢ some look_pending.pending_token)
      × (output_failed world look_message Exception.runtime_error 40 held_gateway
          ≡ (ok false, held_gateway))
unfolding lookup
output_failed-answered_example =
    output_failed-answered look_key look_pending held_gateway held_gateway-Holds refl world
      look_message Exception.runtime_error 40 refl refl

-- The same Query of an HTTP caller, who waits for the future 7.
abbrev http_pending : PendingInvocation
http_pending = record look_pending { future = some 7; terminal_slot_reserved = false }

abbrev http_gateway : Gateway
http_gateway = record held_gateway {
  reserved_outbound_slots = 0;
  pending_by_provider_key = (look_key, http_pending) ∷ [];
}

http_gateway-Holds : Holds 8 0 http_gateway
unfolding started count_values lookup
http_gateway-Holds = record {
  fixed = refl;
  room = omega arith;
  covered = omega arith;
  tables = record {
    pending_keys = (refl, tt);
    exchange_keys = tt;
    exchange_bound = omega arith;
    pendings_answerable = refl;
    exchanges_answerable = refl;
  };
  parts = new_gateway-Parts;
}

abbrev ticket : Ticket
ticket = record { request = look_request; future = 7; pending_key = some look_key; deadline = 120 }

cancel_http_invoke-answered_example :
    (http_pending.future ≡ some ticket.future)
      × (cancel_http_invoke ticket false 40 http_gateway
          ≡ failed_with cancelled_error 40 false look_key http_pending http_gateway)
    ⊎ (http_pending.future ≢ some ticket.future)
      × (cancel_http_invoke ticket false 40 http_gateway ≡ (ok false, http_gateway))
unfolding lookup
cancel_http_invoke-answered_example =
    cancel_http_invoke-answered look_key http_pending http_gateway http_gateway-Holds refl ticket
      false 40 refl
