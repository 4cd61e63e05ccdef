-- ===== src/Gateway/Calls.antt =====
-- The methods of `ToolGatewayService` that other threads call, in any order.
use adapter_forge_gateway.Prelude.{
  inr, inl, ltb, Bool-cases, ℕ, ◌≡◌, refl, String, Bool, Option, List, [], ◌∷◌, arith,
}
use adapter_forge_gateway.Raise.{Exception, Result, ok, err, Action, >>=-eq-ok}
use adapter_forge_gateway.Raise.Method.{lift, pure, ◌>>◌}
use adapter_forge_gateway.Raise.Ensures.{Keeps-check, Ends, Keeps, Keeps-then, Ensures-pure}
use adapter_forge_gateway.Dict.{count_values}
use adapter_forge_gateway.Endpoint.Json.{Fields}
use adapter_forge_gateway.Invocations.Store.{ActionInvocationStore, init as init_store}
use adapter_forge_gateway.Directory.State.{
  RegisteredEndpoint, EndpointDirectory, init as init_directory,
}
use adapter_forge_gateway.Catalog.{ToolSpec, ToolSpecCatalog, init as init_catalog}
use adapter_forge_gateway.Gateway.Envelope.{ToolEnvelope}
use adapter_forge_gateway.Gateway.State.{
  OutboundMessage, Gateway, Ambient, on_invocations, ToolGatewayConfig, started,
}
use adapter_forge_gateway.Wire.Envelope.{check_envelope}
use adapter_forge_gateway.Directory.Soundness.{init-IsValid as directory_init-IsValid}
use adapter_forge_gateway.Invocations.History.{init-IsValid as store_init-IsValid}
use adapter_forge_gateway.Gateway.Start.{start}
use adapter_forge_gateway.Gateway.Slots.{Parts, Holds, on_invocations-Holds}
use adapter_forge_gateway.Gateway.Exchanges.{Lookup, refresh_action}
use adapter_forge_gateway.Gateway.Actions.{
  resolve_registered_endpoint, resolve_tool_spec, check_timeout, create_resolved, read_created,
}
use adapter_forge_gateway.Prelude.Int.{ℤ}
use adapter_forge_gateway.Invocations.Item.{ActionKey}
use adapter_forge_gateway.Invocations.Observe.{event_window, events_after}
use adapter_forge_gateway.Invocations.Soundness.{event_window-IsSafe, events_after-IsSafe}
use adapter_forge_gateway.Gateway.Snapshots.{
  endpoint_registrations, discovery_snapshot, tool_spec_snapshot, action_invocation_snapshot,
  action_result_snapshot,
}
use adapter_forge_gateway.Gateway.Showing.{
  endpoint_registrations-Holds, discovery_snapshot-Holds, tool_spec_snapshot-Holds,
  action_invocation_snapshot-Holds, action_result_snapshot-Holds,
}
use adapter_forge_gateway.Gateway.Controls.{cancel_action, stop_action}
use adapter_forge_gateway.Gateway.HttpQueries.{submit_http_invoke}
use adapter_forge_gateway.Gateway.Endings.{
  Ticket, cancel_http_invoke, output_failed, sweep, begin_close,
}
use adapter_forge_gateway.Gateway.Dispatch.{take_outbound}
use adapter_forge_gateway.Gateway.Inputs.{handle_input}
use adapter_forge_gateway.Gateway.Exchanging.{refresh_action-Holds}
use adapter_forge_gateway.Gateway.Acting.{
  resolve_registered_endpoint-Holds, resolve_tool_spec-Holds, check_timeout-Holds,
  create_resolved-Holds, read_created-Holds, cancel_action-Holds, stop_action-Holds,
}
use adapter_forge_gateway.Gateway.Admitting.{submit_http_invoke-Holds}
use adapter_forge_gateway.Gateway.Ending.{
  cancel_http_invoke-Holds, output_failed-Holds, sweep-Holds, begin_close-Holds,
}
use adapter_forge_gateway.Gateway.Dispatching.{take_outbound-Holds}
use adapter_forge_gateway.Gateway.Inputting.{handle_input-Holds}

-- A call, with its arguments and with what the method reads from outside. `submit_http_action` is
-- three calls, since others may fall between its resolution, its locked part with what it makes
-- before it, and its last reading. An input's envelope is made first, which checks it. The last two
-- are what a stream of events reads from the Action store.
pub data Call : Type 0 where
  resolve_endpoint : Ambient → String → String → ℕ → Call
  resolve_spec : Ambient → String → ℕ → Call
  resolve_action : Ambient → String → Option ℕ → ℕ → Call
  admit_action : Ambient → Fields → Option String → ℕ → ℕ → ToolSpec → RegisteredEndpoint → Call
  read_action : ActionKey → ℕ → Call
  submit_invoke : Ambient → ℕ → String → String → Fields → Option String → Option ℕ → ℕ → Call
  cancel : Ambient → String → ℕ → Call
  stop : Ambient → String → ℕ → Call
  refresh : Ambient → String → Lookup → ℕ → Call
  input : Ambient → String → ToolEnvelope → ℕ → ℕ → Call
  take : Call
  cancel_invoke : Ticket → Bool → ℕ → Call
  fail : Ambient → OutboundMessage → Exception → ℕ → Call
  sweep_at : Ambient → ℕ → Call
  close : ℕ → Call
  show_registrations show_discovery show_tool_specs : Ambient → ℕ → Call
  show_action show_result : String → ℕ → Call
  show_window : ActionKey → ℕ → Call
  show_events : ActionKey → ℤ → ℕ → Call

unfoldable pub perform : Call → Action Gateway (Unit {0})
perform (Call.resolve_endpoint w endpoint_id operation now) =
    resolve_registered_endpoint w endpoint_id operation now >> pure tt
perform (Call.resolve_spec w tool_id now) = resolve_tool_spec w tool_id now >> pure tt
perform (Call.resolve_action w tool_id timeout_ms now) =
    check_timeout timeout_ms >> (resolve_tool_spec w tool_id now >> pure tt)
perform (Call.admit_action w arguments caller_id timeout now spec registration) =
    create_resolved w arguments caller_id timeout now (spec, registration) >> pure tt
perform (Call.read_action k now) = read_created k now >> pure tt
perform (Call.submit_invoke w future endpoint_id operation arguments caller_id timeout_ms now) =
    submit_http_invoke w future endpoint_id operation arguments caller_id timeout_ms now >> pure tt
perform (Call.cancel w invocation_id now) = cancel_action w invocation_id now >> pure tt
perform (Call.stop w invocation_id now) = stop_action w invocation_id now >> pure tt
perform (Call.refresh w invocation_id purpose now) =
    refresh_action w invocation_id purpose now >> pure tt
perform (Call.input w input_id envelope received processed) =
    lift (check_envelope envelope) >> handle_input w input_id envelope received processed
perform Call.take = take_outbound >> pure tt
perform (Call.cancel_invoke ticket timed_out now) =
    cancel_http_invoke ticket timed_out now >> pure tt
perform (Call.fail w message error now) = output_failed w message error now >> pure tt
perform (Call.sweep_at w now) = sweep w now >> pure tt
perform (Call.close now) = begin_close now
perform (Call.show_registrations w now) = endpoint_registrations w now >> pure tt
perform (Call.show_discovery w now) = discovery_snapshot w now >> pure tt
perform (Call.show_tool_specs w now) = tool_spec_snapshot w now >> pure tt
perform (Call.show_action invocation_id now) =
    action_invocation_snapshot invocation_id now >> pure tt
perform (Call.show_result invocation_id now) = action_result_snapshot invocation_id now >> pure tt
perform (Call.show_window k now) = on_invocations (event_window k now) >> pure tt
perform (Call.show_events k cursor now) = on_invocations (events_after k cursor now) >> pure tt

abbrev pub after : {A : Type 0} → Result A × Gateway → Gateway
after (r, g) = g

-- The service after some calls, whether they return or raise.
unfoldable pub perform_all : List Call → Gateway → Gateway
perform_all [] g = g
perform_all (call ∷ calls) g = perform_all calls (after (perform call g))

module _ {capacity n : ℕ} where
  perform-Holds : (call : Call) → Keeps (Holds capacity n) (perform call)
  unfolding perform
  perform-Holds (Call.resolve_endpoint w endpoint_id operation now) =
      Keeps-then _ _ (resolve_registered_endpoint-Holds w endpoint_id operation now)
        (Ensures-pure tt)
  perform-Holds (Call.resolve_spec w tool_id now) =
      Keeps-then _ _ (resolve_tool_spec-Holds w tool_id now) (Ensures-pure tt)
  perform-Holds (Call.resolve_action w tool_id timeout_ms now) =
      Keeps-then _ _ (check_timeout-Holds timeout_ms)
        (Keeps-then _ _ (resolve_tool_spec-Holds w tool_id now) (Ensures-pure tt))
  perform-Holds (Call.admit_action w arguments caller_id timeout now spec registration) =
      Keeps-then _ _ (create_resolved-Holds w arguments caller_id timeout now (spec, registration))
        (Ensures-pure tt)
  perform-Holds (Call.read_action k now) =
      Keeps-then _ _ (read_created-Holds k now) (Ensures-pure tt)
  perform-Holds (Call.submit_invoke w future endpoint_id operation arguments caller timeout now) =
      Keeps-then _ _
        (submit_http_invoke-Holds w future endpoint_id operation arguments caller timeout now)
        (Ensures-pure tt)
  perform-Holds (Call.cancel w invocation_id now) =
      Keeps-then _ _ (cancel_action-Holds w invocation_id now) (Ensures-pure tt)
  perform-Holds (Call.stop w invocation_id now) =
      Keeps-then _ _ (stop_action-Holds w invocation_id now) (Ensures-pure tt)
  perform-Holds (Call.refresh w invocation_id purpose now) =
      Keeps-then _ _ (refresh_action-Holds w invocation_id purpose now) (Ensures-pure tt)
  perform-Holds (Call.input w input_id envelope received processed) =
      Keeps-check _ _ (handle_input-Holds w input_id envelope received processed)
  perform-Holds Call.take = Keeps-then _ _ take_outbound-Holds (Ensures-pure tt)
  perform-Holds (Call.cancel_invoke ticket timed_out now) =
      Keeps-then _ _ (cancel_http_invoke-Holds ticket timed_out now) (Ensures-pure tt)
  perform-Holds (Call.fail w message error now) =
      Keeps-then _ _ (output_failed-Holds w message error now) (Ensures-pure tt)
  perform-Holds (Call.sweep_at w now) = Keeps-then _ _ (sweep-Holds w now) (Ensures-pure tt)
  perform-Holds (Call.close now) = begin_close-Holds now
  perform-Holds (Call.show_registrations w now) =
      Keeps-then _ _ (endpoint_registrations-Holds w now) (Ensures-pure tt)
  perform-Holds (Call.show_discovery w now) =
      Keeps-then _ _ (discovery_snapshot-Holds w now) (Ensures-pure tt)
  perform-Holds (Call.show_tool_specs w now) =
      Keeps-then _ _ (tool_spec_snapshot-Holds w now) (Ensures-pure tt)
  perform-Holds (Call.show_action invocation_id now) =
      Keeps-then _ _ (action_invocation_snapshot-Holds invocation_id now) (Ensures-pure tt)
  perform-Holds (Call.show_result invocation_id now) =
      Keeps-then _ _ (action_result_snapshot-Holds invocation_id now) (Ensures-pure tt)
  perform-Holds (Call.show_window k now) =
      Keeps-then _ _ (on_invocations-Holds _ (event_window-IsSafe k now)) (Ensures-pure tt)
  perform-Holds (Call.show_events k cursor now) =
      Keeps-then _ _ (on_invocations-Holds _ (events_after-IsSafe k cursor now)) (Ensures-pure tt)

  either_way :
      {A : Type 0} (r : Result A × Gateway)
      → Ends (Holds capacity n) (Holds capacity n) r
      → Holds capacity n (after r)
  either_way (ok a, g) h = h
  either_way (err x, g) h = h

  pub perform_all-Holds :
      (calls : List Call) (g : Gateway)
      → Holds capacity n g
      → Holds capacity n (perform_all calls g)
  unfolding perform_all
  perform_all-Holds [] g h = h
  perform_all-Holds (call ∷ calls) g h =
      perform_all-Holds calls _ (either_way (perform call g) ((perform-Holds call).at g h))

started-Holds :
    (config : ToolGatewayConfig) (capacity : ℕ) (directory : EndpointDirectory)
    (catalog : ToolSpecCatalog) (store : ActionInvocationStore)
    → Parts directory store
    → Holds capacity 0 (started config capacity directory catalog store)
unfolding started count_values
started-Holds config capacity directory catalog store parts = record {
  fixed = refl;
  room = omega arith;
  covered = omega arith;
  tables = record {
    pending_keys = tt;
    exchange_keys = tt;
    exchange_bound = omega arith;
    pendings_answerable = refl;
    exchanges_answerable = refl;
  };
  parts = parts;
}

pub start-Holds :
    (config : ToolGatewayConfig) (capacity : ℕ) {g : Gateway}
    → start config capacity ≡ ok g
    → Holds capacity 0 g
unfolding start
start-Holds config capacity {g} e = elim (Bool-cases (ltb capacity 1)) [
  | inl small ↦ absurd (ground (arith, small, e))
  | inr room ↦
      let (directory, found, e1) =
        >>=-eq-ok (init_directory config.lease_ttl_ms) _ (rw room at e) in
      let (catalog, _, e2) = >>=-eq-ok (init_catalog config.specs) _ e1 in
      let (store, opened, e3) =
        >>=-eq-ok (init_store config.invocation_capacity config.event_capacity config.retention) _
          e2 in
      let same : started config capacity directory catalog store ≡ g = ground (arith, e3) in
      rw (← same) (
        started-Holds config capacity directory catalog store (record {
          directory_valid = directory_init-IsValid config.lease_ttl_ms found;
          store_valid =
              store_init-IsValid config.invocation_capacity config.event_capacity config.retention
                store opened;
        }))
]

-- From a new service, whatever calls are made, in whatever order and whether they return or raise:
-- the messages in the outbound mailbox and the slots reserved in it are at most its capacity
-- together; the reserved slots are enough for every response that is owed, one for each pending
-- invocation that keeps a terminal slot and for each exchange that keeps a slot for its caller;
-- neither table holds a key twice, and there are at most as many exchanges as the mailbox has
-- slots; and the caller of each pending invocation, and of each exchange that keeps a slot, can be
-- answered: the request has the IDs that a response needs, and a pending invocation has a future
-- or keeps a terminal slot, and its provider request names an instance. The directory is sound:
-- its revision is within the safe integers and each endpoint has one registration, under its own
-- ID. The Action store is sound: it holds at most its capacity and no key twice, its closed
-- invocations have a result and a closing time and the others neither, the others hold their
-- permits, and the events are at most as many as the event capacity and numbered without a gap.
pub start-perform_all-Holds :
    (config : ToolGatewayConfig) (capacity : ℕ) (calls : List Call) {g : Gateway}
    → start config capacity ≡ ok g
    → Holds capacity 0 (perform_all calls g)
start-perform_all-Holds config capacity calls {g} e =
    perform_all-Holds calls g (start-Holds config capacity e)
