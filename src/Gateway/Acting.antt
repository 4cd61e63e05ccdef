-- ===== src/Gateway/Acting.antt =====
-- That the HTTP side of Actions keeps the mailbox's accounting.
use adapter_forge_gateway.Prelude.{some, refl, ℕ, String, false, Option, arith}
use adapter_forge_gateway.Raise.Ensures.{
  Keeps, keeps_rules, Ensures-then, Ensures-weaken, Ensures-pure, Keeps-bind, Keeps-then,
  Ensures-gets, Ensures-branch, Ensures-choose, Keeps-raise, Ensures-when,
}
use adapter_forge_gateway.Endpoint.Json.{Fields}
use adapter_forge_gateway.Endpoint.Responses.{ToolContext, ToolControlCommand}
use adapter_forge_gateway.Invocations.Item.{ActionKey, ActionInvocation}
use adapter_forge_gateway.Directory.State.{RegisteredEndpoint}
use adapter_forge_gateway.Catalog.{ToolSpec}
use adapter_forge_gateway.Invocations.Steps.{IsFresh}
use adapter_forge_gateway.Directory.Soundness.{resolve-IsSafe}
use adapter_forge_gateway.Invocations.Soundness.{create-IsSafe, discard-IsSafe}
use adapter_forge_gateway.Gateway.Envelope.{ToolEnvelope}
use adapter_forge_gateway.Gateway.State.{Ambient}
use adapter_forge_gateway.Gateway.Slots.{
  part_rules, Holds, Holds-less, reserve-Holds, on_directory-Holds, on_invocations-Holds,
  ensure_accepting-Holds,
}
use adapter_forge_gateway.Gateway.Removing.{finish_unclaimed_for_removed-Holds}
use adapter_forge_gateway.Gateway.Exchanging.{
  queue_action_exchange-Holds, or_release-Holds, resolve_pinned-Holds, mark_unpinned-Holds,
}
use adapter_forge_gateway.Gateway.Actions.{
  new_invocation, resolve_registered_endpoint, resolve_spec, resolve_tool_spec, check_timeout,
  discard_invocation, admit_http_action, create_resolved, read_created, submit_http_action,
}
use adapter_forge_gateway.Gateway.Controls.{
  set_status, request_control, control_item, control_action, cancel_action, stop_action,
}

pub new_invocation-IsFresh :
    (w : Ambient) (context : ToolContext) (instance_id : String)
    → IsFresh (new_invocation w context instance_id)
unfolding new_invocation
new_invocation-IsFresh w context instance_id = record {
  phase = refl;
  result = refl;
  terminal_at = refl;
  occupies_concurrency = refl;
  next_event_sequence = refl;
  last_provider_sequence = refl;
}

module _ {capacity n : ℕ} where
  pub resolve_registered_endpoint-Holds :
      (w : Ambient) (endpoint_id operation : String) (now : ℕ)
      → Keeps (Holds capacity n) (resolve_registered_endpoint w endpoint_id operation now)
  unfolding resolve_registered_endpoint
  resolve_registered_endpoint-Holds w endpoint_id operation now =
      search (part_rules, finish_unclaimed_for_removed-Holds) depth 12

  resolve_spec-Holds :
      (w : Ambient) (now : ℕ) (spec : ToolSpec) → Keeps (Holds capacity n) (resolve_spec w now spec)
  unfolding resolve_spec
  resolve_spec-Holds w now spec = search (keeps_rules, resolve_registered_endpoint-Holds) depth 12

  pub resolve_tool_spec-Holds :
      (w : Ambient) (tool_id : String) (now : ℕ)
      → Keeps (Holds capacity n) (resolve_tool_spec w tool_id now)
  unfolding resolve_tool_spec
  resolve_tool_spec-Holds w tool_id now = search (keeps_rules, resolve_spec-Holds) depth 12

  pub check_timeout-Holds :
      (timeout_ms : Option ℕ) → Keeps (Holds capacity n) (check_timeout timeout_ms)
  unfolding check_timeout
  check_timeout-Holds timeout_ms = search keeps_rules depth 12

  pub discard_invocation-Holds : (k : ActionKey) → Keeps (Holds capacity n) (discard_invocation k)
  unfolding discard_invocation
  discard_invocation-Holds k = on_invocations-Holds _ (discard-IsSafe k)

  pub set_status-Holds :
      (command : ToolControlCommand) (k : ActionKey) (value : String)
      → Keeps (Holds capacity n) (set_status command k value)
  unfolding set_status
  set_status-Holds ToolControlCommand.cancel k value = search part_rules
  set_status-Holds ToolControlCommand.stop k value = search part_rules

module _ {capacity n : ℕ} where
  admit_http_action-Holds :
      (registration : RegisteredEndpoint) (invocation : ActionInvocation) (request : ToolEnvelope)
      (limit timeout now : ℕ)
      → IsFresh invocation
      → Keeps
          (Holds capacity n)
          (admit_http_action registration invocation request limit timeout now)
  unfolding admit_http_action
  admit_http_action-Holds registration invocation request limit timeout now fresh =
      Keeps-then _ _ ensure_accepting-Holds (
        Keeps-bind _ _ (on_directory-Holds _ (resolve-IsSafe _ _ now)) (λ current.
          Keeps-then _ _ (Ensures-when _ _ (Keeps-raise _)) (
            Ensures-then _ _ (reserve-Holds 1) (
              or_release-Holds 0 _ _
                (Ensures-then _ _
                  (on_invocations-Holds _ (create-IsSafe invocation now (some limit) fresh))
                  (Ensures-weaken _ (λ g h. Holds-less g (omega arith) h)
                    (queue_action_exchange-Holds _ request _ _ _ _ false refl) (λ g h. h)
                    (λ g h. Holds-less g (omega arith) h)))
                (discard_invocation-Holds _)))))

  pub create_resolved-Holds :
      (w : Ambient) (arguments : Fields) (caller_id : Option String) (timeout now : ℕ)
      (resolved : ToolSpec × RegisteredEndpoint)
      → Keeps (Holds capacity n) (create_resolved w arguments caller_id timeout now resolved)
  unfolding create_resolved
  create_resolved-Holds w arguments caller_id timeout now (spec, registration) =
      search (part_rules, admit_http_action-Holds, new_invocation-IsFresh) depth 16

  pub read_created-Holds : (k : ActionKey) (now : ℕ) → Keeps (Holds capacity n) (read_created k now)
  unfolding read_created
  read_created-Holds k now = search part_rules depth 12

  pub submit_http_action-Holds :
      (w : Ambient) (tool_id : String) (arguments : Fields) (caller_id : Option String)
      (timeout_ms : Option ℕ) (now : ℕ)
      → Keeps (Holds capacity n) (submit_http_action w tool_id arguments caller_id timeout_ms now)
  unfolding submit_http_action
  submit_http_action-Holds w tool_id arguments caller_id timeout_ms now =
      search
        (
          keeps_rules, check_timeout-Holds, resolve_tool_spec-Holds, create_resolved-Holds,
          read_created-Holds,
        )
        depth 12

  request_control-Holds :
      (w : Ambient) (command : ToolControlCommand) (k : ActionKey) (item : ActionInvocation)
      (now : ℕ) (registration : RegisteredEndpoint)
      → Keeps (Holds capacity n) (request_control w command k item now registration)
  unfolding request_control
  request_control-Holds w command k item now registration =
      Ensures-choose _ _ _ (Keeps-raise _) (λ operation. Ensures-branch _ _ _ (Ensures-pure _) (
        Keeps-bind _ _ (Ensures-gets _) (λ timeout. Ensures-then _ _ (reserve-Holds 1) (
          Ensures-then _ _
            (or_release-Holds 0 _ _
              (Ensures-then _ _ (set_status-Holds command k "requested") (
                Ensures-weaken _ (λ g h. Holds-less g (omega arith) h)
                  (queue_action_exchange-Holds k _ _ _ _ _ false refl) (λ g h. h)
                  (λ g h. Holds-less g (omega arith) h)))
              (set_status-Holds command k "transport_error"))
            (Ensures-pure _)))))

  control_item-Holds :
      (w : Ambient) (command : ToolControlCommand) (k : ActionKey) (now : ℕ)
      (item : ActionInvocation)
      → Keeps (Holds capacity n) (control_item w command k now item)
  unfolding control_item
  control_item-Holds w command k now item =
      search (keeps_rules, resolve_pinned-Holds, mark_unpinned-Holds, request_control-Holds) depth
        16

  control_action-Holds :
      (w : Ambient) (command : ToolControlCommand) (invocation_id : String) (now : ℕ)
      → Keeps (Holds capacity n) (control_action w command invocation_id now)
  unfolding control_action
  control_action-Holds w command invocation_id now =
      search (part_rules, control_item-Holds) depth 12

  pub cancel_action-Holds :
      (w : Ambient) (invocation_id : String) (now : ℕ)
      → Keeps (Holds capacity n) (cancel_action w invocation_id now)
  unfolding cancel_action
  cancel_action-Holds w invocation_id now = control_action-Holds w _ invocation_id now

  pub stop_action-Holds :
      (w : Ambient) (invocation_id : String) (now : ℕ)
      → Keeps (Holds capacity n) (stop_action w invocation_id now)
  unfolding stop_action
  stop_action-Holds w invocation_id now = control_action-Holds w _ invocation_id now
