-- ===== src/Gateway/Controls.antt =====
-- `cancel_action` and `stop_action` of `ToolGatewayService` in
-- src/forge_gateway/services/tool_gateway_service.py.
use adapter_forge_gateway.Prelude.{
  ℕ, ◌+◌, String, Bool, false, not, ◌&&◌, ◌||◌, Option, none, some, ◌==◌, string_eq, if◌then◌else◌,
}
use adapter_forge_gateway.Raise.{key_error, stop_iteration, Action}
use adapter_forge_gateway.Raise.Method.{pure, raise, gets, ◌>>=◌, ◌>>◌, choose, branch}
use adapter_forge_gateway.Endpoint.Values.{ToolOperationDescriptor}
use adapter_forge_gateway.Endpoint.Responses.{ToolControlCommand}
use adapter_forge_gateway.Invocations.Item.{ActionKey, ActionInvocation, is_terminal, is_unknown}
use adapter_forge_gateway.Invocations.Store.{
  get, resolve_http_key, set_cancel_status, set_stop_status,
}
use adapter_forge_gateway.Directory.State.{RegisteredEndpoint}
use adapter_forge_gateway.Catalog.{find_operation}
use adapter_forge_gateway.Gateway.Envelope.{Payload}
use adapter_forge_gateway.Gateway.State.{
  Purpose, Gateway, Ambient, on_invocations, reserve_outbound_slots,
}
use adapter_forge_gateway.Gateway.Exchanges.{
  queue_action_exchange, or_release, is_pending, resolve_pinned, mark_unpinned, provider_request,
}

-- What `cancel_action` and `stop_action` read and write differs by the command.
abbrev pub status_of : ToolControlCommand → ActionInvocation → Option String
status_of ToolControlCommand.cancel item = item.cancel_status
status_of ToolControlCommand.stop item = item.stop_status

abbrev pub is_over : ToolControlCommand → ActionInvocation → Bool
is_over ToolControlCommand.cancel item =
    is_terminal item.phase
    && not (is_unknown item.phase && item.occupies_concurrency && not item.terminal_event_seen)
is_over ToolControlCommand.stop item = is_terminal item.phase

abbrev pub control_purpose : ToolControlCommand → Purpose
control_purpose ToolControlCommand.cancel = Purpose.cancel
control_purpose ToolControlCommand.stop = Purpose.stop

abbrev pub supports : ToolControlCommand → ToolOperationDescriptor → Bool
supports ToolControlCommand.cancel operation = operation.cancellable
supports ToolControlCommand.stop operation = operation.stoppable

unfoldable pub set_status : ToolControlCommand → ActionKey → String → Action Gateway (Unit {0})
set_status ToolControlCommand.cancel k value = on_invocations (set_cancel_status k value) >> pure tt
set_status ToolControlCommand.stop k value = on_invocations (set_stop_status k value) >> pure tt

-- `status in ("requested", "accepted", "terminal", "unsupported")`
abbrev pub is_settled_status : Option String → Bool
is_settled_status none = false
is_settled_status (some status) =
    status == "requested" || status == "accepted" || status == "terminal" || status == "unsupported"

-- `status or "requested"`: Python's `or` skips an empty text as it does `None`.
abbrev pub or_requested : Option String → String
or_requested none = "requested"
or_requested (some status) = if status == "" then "requested" else status

-- The reservation and the exchange of a control request.
unfoldable pub request_control :
    Ambient
    → ToolControlCommand
    → ActionKey
    → ActionInvocation
    → ℕ
    → RegisteredEndpoint
    → Action Gateway String
request_control w command k item now registration =
    choose (find_operation item.operation registration.descriptor.operations) (raise stop_iteration)
      (λ operation. branch (not (supports command operation)) (pure "unsupported") (do
        timeout ← gets (λ g. g.invoke_timeout_ms)
        reserve_outbound_slots 1
        or_release 1
            (set_status command k "requested"
              >> queue_action_exchange k
                  (provider_request w item (Payload.control_request command none))
                  registration.route (control_purpose command) (now + timeout) none false)
            (set_status command k "transport_error")
        pure "requested"))

unfoldable pub control_item :
    Ambient → ToolControlCommand → ActionKey → ℕ → ActionInvocation → Action Gateway String
control_item w command k now item = branch (is_over command item) (pure "terminal") (
    branch (is_settled_status (status_of command item))
      (pure (or_requested (status_of command item)))
      (do
        busy ← gets (is_pending k (control_purpose command))
        branch busy (pure (or_requested (status_of command item))) (do
          registration ← resolve_pinned w item now
          choose registration (mark_unpinned item now >> pure "unknown")
              (request_control w command k item now))))

unfoldable pub control_action : Ambient → ToolControlCommand → String → ℕ → Action Gateway String
control_action w command invocation_id now = do
  found ← on_invocations (resolve_http_key invocation_id now)
  choose found (raise key_error) (λ k. do
    held ← on_invocations (get k now)
    choose held (raise key_error) (control_item w command k now))

unfoldable pub cancel_action : Ambient → String → ℕ → Action Gateway String
cancel_action w invocation_id now = control_action w ToolControlCommand.cancel invocation_id now

unfoldable pub stop_action : Ambient → String → ℕ → Action Gateway String
stop_action w invocation_id now = control_action w ToolControlCommand.stop invocation_id now
