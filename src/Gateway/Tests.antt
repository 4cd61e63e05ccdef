-- ===== src/Gateway/Tests.antt =====
-- The theorems on src/forge_gateway/services/tool_gateway_service.py at a concrete gateway.
use adapter_forge_gateway.Prelude.{◌≡◌, ◌+◌, length, refl, true, false, none, some, List, [], ◌∷◌}
use adapter_forge_gateway.Endpoint.Json.{end}
use adapter_forge_gateway.Endpoint.Values.{ToolEndpointDescriptor, ToolSemantics, ToolResultStatus}
use adapter_forge_gateway.Endpoint.Responses.{ToolContext}
use adapter_forge_gateway.Handler.State.{InvokeOutcome, tool_endpoint_protocol}
use adapter_forge_gateway.Invocations.Store.{ActionInvocationStore, init as init_store}
use adapter_forge_gateway.Directory.State.{
  ToolProviderRouteIdentity, EndpointDirectory, init as init_directory,
}
use adapter_forge_gateway.Catalog.{ToolSpecCatalog, init as init_catalog, has_repeat, specs_from}
use adapter_forge_gateway.Gateway.Envelope.{Payload, ToolEnvelope}
use adapter_forge_gateway.Gateway.State.{Gateway, Ambient, ToolGatewayConfig, started}
use adapter_forge_gateway.Gateway.Counted.{owed}
use adapter_forge_gateway.Gateway.Shutdown.{Closed, start-perform_all-begin_close-Closed}
use adapter_forge_gateway.Raise.Ensures.{Ends}
use adapter_forge_gateway.Raise.{ok}
use adapter_forge_gateway.Gateway.Endings.{begin_close}
use adapter_forge_gateway.Gateway.Start.{start}
use adapter_forge_gateway.Gateway.Slots.{Holds}
use adapter_forge_gateway.Gateway.Calls.{Call, perform_all, start-perform_all-Holds}

abbrev pub world : Ambient
world = record {
  monotonic = λ _. 20;
  epoch_ms = 1000;
  identity = "i1";
  provider_identity = "p1";
  pending_token = "t1";
  text_of = λ x. "refused";
  quote = λ s. s;
}

abbrev pub arm_route : ToolProviderRouteIdentity
arm_route = record { endpoint_id = "arm"; input_id = "arm_in"; output_id = "arm_out" }

abbrev pub small_config : ToolGatewayConfig
small_config = record {
  enabled = true;
  invoke_timeout_ms = 100;
  request_input_id = "requests";
  response_output_id = "responses";
  providers = arm_route ∷ [];
  specs = [];
  lease_ttl_ms = 50;
  invocation_capacity = 4;
  event_capacity = 4;
  retention = 10;
}

abbrev pub new_directory : EndpointDirectory
new_directory = record { lease_ttl_ms = 50; revision = 0; current = [] }

abbrev no_specs : ToolSpecCatalog
no_specs = record { specs = [] }

abbrev pub new_store : ActionInvocationStore
new_store = record { capacity = 4; event_capacity = 4; retention = 10; items = [] }

abbrev arm_descriptor : ToolEndpointDescriptor
arm_descriptor = record {
  protocol_version = tool_endpoint_protocol;
  endpoint_id = "arm";
  operations =
      (record {
        name = "look";
        semantics = ToolSemantics.query;
        cancellable = false;
        stoppable = false;
        status_supported = false;
        max_concurrency = 2;
      })
      ∷ [];
}

abbrev register_envelope : ToolEnvelope
register_envelope = record {
  request_id = some "r1";
  invocation_id = none;
  attempt_id = none;
  endpoint_id = "arm";
  endpoint_instance_id = some "arm_1";
  operation = none;
  sequence = none;
  payload = Payload.register arm_descriptor;
}

abbrev look_context : ToolContext
look_context = record {
  execution_key = ("inv", "att");
  tool_id = "arm";
  implementation_id = "arm";
  endpoint_id = "arm";
  operation = "look";
  caller_id = none;
  deadline_ms = none;
  metadata = end;
}

abbrev pub look_request : ToolEnvelope
look_request = record {
  request_id = some "q1";
  invocation_id = some "inv";
  attempt_id = some "att";
  endpoint_id = "arm";
  endpoint_instance_id = none;
  operation = some "look";
  sequence = none;
  payload = Payload.invoke_request look_context end;
}

abbrev pub look_response : ToolEnvelope
look_response = record {
  request_id = some "gateway-provider-p1";
  invocation_id = some "inv";
  attempt_id = some "att";
  endpoint_id = "arm";
  endpoint_instance_id = some "arm_1";
  operation = some "look";
  sequence = none;
  payload = Payload.invoke_response (
      InvokeOutcome.finished
        (record { status = ToolResultStatus.succeeded; outputs = end; error = none }));
}

-- A registration, a Query of a Dora caller, the dispatch of both messages, and the response.
abbrev script : List Call
script =
    Call.input world "arm_in" register_envelope 10 10
    ∷ Call.input world "requests" look_request 20 20
    ∷ Call.take
    ∷ Call.take
    ∷ Call.input world "arm_in" look_response 30 30
    ∷ Call.sweep_at world 40
    ∷ []

abbrev pub new_gateway : Gateway
new_gateway = started small_config 8 new_directory no_specs new_store

pub new_gateway-start : start small_config 8 ≡ ok new_gateway
unfolding start init_directory init_catalog has_repeat specs_from init_store
new_gateway-start = refl

start-perform_all-Holds_example : Holds 8 0 (perform_all script new_gateway)
start-perform_all-Holds_example = start-perform_all-Holds small_config 8 script new_gateway-start

-- A Query whose caller waits: nothing is dispatched yet.
abbrev pub waiting : List Call
waiting =
    Call.input world "arm_in" register_envelope 10 10
    ∷ Call.input world "requests" look_request 20 20
    ∷ []

abbrev pub waiting_gateway : Gateway
waiting_gateway = perform_all waiting new_gateway

start-perform_all-begin_close-Closed_example :
    Ends
      (Closed (length waiting_gateway.outbound + owed waiting_gateway))
      (λ _. ⊥)
      (begin_close 40 waiting_gateway)
start-perform_all-begin_close-Closed_example =
    start-perform_all-begin_close-Closed small_config 8 waiting 40 new_gateway-start
