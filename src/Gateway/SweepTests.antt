-- ===== src/Gateway/SweepTests.antt =====
-- `sweep` of src/forge_gateway/services/tool_gateway_service.py after a concrete run of the service.
use adapter_forge_gateway.Prelude.{◌+◌, ◌≡◌, refl, arith, length}
use adapter_forge_gateway.Raise.Ensures.{Ends}
use adapter_forge_gateway.Gateway.Counted.{owed}
use adapter_forge_gateway.Gateway.Endings.{sweep, is_late_pending}
use adapter_forge_gateway.Gateway.Sweeping.{start-perform_all-sweep-Swept, Swept}
use adapter_forge_gateway.Gateway.Tests.{
  waiting_gateway, waiting, world, small_config, new_gateway-start,
}
use adapter_forge_gateway.Catalog.{find_operation, validate_binding}
use adapter_forge_gateway.Dict.{
  count_values, elem, erase, erase_each, insert, keys_where, lookup, map_values,
}
use adapter_forge_gateway.Directory.Manage.{
  is_blank, is_space, resolve, snapshot, unregister_checked, unregister_with_change,
  validate_identifier,
}
use adapter_forge_gateway.Directory.Register.{
  accept_with, additional_revision, leased, register_checked, register_new, register_over,
  register_with_change, reject_with, renewed, unexpired,
}
use adapter_forge_gateway.Directory.State.{
  apply_expired, delete, ensure_revision_capacity, expire, expired, expired_entries, next_revision,
  route_beq,
}
use adapter_forge_gateway.Gateway.Actions.{
  action_context, discard_invocation, invoke_request_envelope, new_invocation,
}
use adapter_forge_gateway.Gateway.Controls.{control_item}
use adapter_forge_gateway.Gateway.Calls.{perform, perform_all}
use adapter_forge_gateway.Gateway.Dora.{
  admit_dora_action, forget_created, handle_caller_invoke, invoke_as_query, invoke_registered,
  or_answer,
}
use adapter_forge_gateway.Gateway.Envelope.{
  correlation_eq, correlation_key, logical_envelope, logical_error_response,
  logical_provider_response, validate_correlation,
}
use adapter_forge_gateway.Gateway.Exchanges.{is_pending, mark_unpinned, or_release}
use adapter_forge_gateway.Gateway.Finish.{
  finish_unclaimed_for_removed, forget_registration, is_removed, release_terminal, remove_pending,
  settle, timeout_response,
}
use adapter_forge_gateway.Gateway.Inputs.{
  accept_provider_input, answer_registry, change_registry, handle_input, handle_provider_input,
  input_of_caller, input_of_provider, make_registry_response, provider_response, query_response,
  registry_envelope, unrouted_input, validate_management,
}
use adapter_forge_gateway.Gateway.Locals.{
  inside, release_provider, release_terminal_slot, reserve_provider, with_locals,
}
use adapter_forge_gateway.Gateway.Queries.{
  admit_body, admit_invoke, admit_keys, admit_registered, admit_reserved, admit_resolved,
  admit_routed, commit, complete, invoke_request_from_envelope, put_pending, refuse,
}
use adapter_forge_gateway.Gateway.HttpQueries.{
  end_query, handle_provider_response, http_context, logical_invoke_request, submit_http_invoke,
}
use adapter_forge_gateway.Gateway.State.{
  append_reserved_outbound, append_to_caller, caller_message, ensure_accepting, on_directory,
  on_invocations, release_outbound_slots, reserve_outbound_slots, respond, started,
}
use adapter_forge_gateway.Raise.Method.{
  branch, choose, for_each, gets, lift, modify, on_part, pure, raise, try_else, try_except,
  try_finally, when, ◌>>=◌, ◌>>◌,
}
use adapter_forge_gateway.Sorted.{place, sorted}
use adapter_forge_gateway.Wire.Envelope.{check_envelope, check_management_ids, check_tool_ids}
use adapter_forge_gateway.Wire.Text.{
  has_surrogate, is_blank as is_blank_2, is_surrogate, is_whitespace, require_nonempty,
}

-- At 200 the Query is late and the lease has run out.
waiting_gateway-late :
    (waiting_gateway.directory.revision + length (expired 200 waiting_gateway.directory) ≡ 2)
    × (count_values (is_late_pending 200) waiting_gateway.pending_by_provider_key ≡ 1)
unfolding find_operation validate_binding count_values elem erase erase_each insert keys_where
    lookup map_values is_blank is_space resolve snapshot unregister_checked unregister_with_change
    validate_identifier accept_with additional_revision leased register_checked register_new
    register_over register_with_change reject_with renewed unexpired apply_expired delete
    ensure_revision_capacity expire expired expired_entries next_revision route_beq action_context
    control_item discard_invocation invoke_request_envelope new_invocation perform perform_all
    admit_dora_action forget_created handle_caller_invoke invoke_as_query invoke_registered
    or_answer correlation_key logical_envelope logical_error_response logical_provider_response
    validate_correlation is_pending mark_unpinned or_release finish_unclaimed_for_removed
    forget_registration is_removed release_terminal remove_pending settle timeout_response
    accept_provider_input answer_registry change_registry handle_input handle_provider_input
    input_of_caller input_of_provider make_registry_response provider_response query_response
    registry_envelope unrouted_input validate_management inside release_provider
    release_terminal_slot reserve_provider with_locals admit_body admit_invoke admit_keys
    admit_registered admit_reserved admit_resolved admit_routed commit complete end_query
    handle_provider_response http_context invoke_request_from_envelope logical_invoke_request
    put_pending refuse submit_http_invoke append_reserved_outbound append_to_caller caller_message
    ensure_accepting on_directory on_invocations release_outbound_slots reserve_outbound_slots
    respond started branch choose for_each gets lift modify on_part pure raise try_else try_except
    try_finally when ◌>>=◌ ◌>>◌ place sorted check_envelope check_management_ids check_tool_ids
    has_surrogate is_blank_2 is_surrogate is_whitespace require_nonempty
waiting_gateway-late = (refl, refl)

start-perform_all-sweep-Swept_example :
    Ends
      (Swept 200 (length waiting_gateway.outbound + owed waiting_gateway))
      (λ _. ⊥)
      (sweep world 200 waiting_gateway)
start-perform_all-sweep-Swept_example =
    start-perform_all-sweep-Swept small_config 8 waiting world 200 new_gateway-start
      (omega (arith, waiting_gateway-late.0))
