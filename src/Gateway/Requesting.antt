-- ===== src/Gateway/Requesting.antt =====
-- That the status, result and control requests of a Dora caller keep the mailbox's accounting.
use adapter_forge_gateway.Prelude.{◌≡◌, String, ℕ, suc, true, false, Option, some, arith}
use adapter_forge_gateway.Raise.{Exception}
use adapter_forge_gateway.Raise.Method.{◌>>◌}
use adapter_forge_gateway.Raise.Ensures.{
  Keeps-guard, Keeps, Keeps-then, Keeps-bind, Ensures-then, Ensures-weaken, Ensures-choose,
  Ensures-branch, Ensures-gets, Ensures-when, Ensures-try_else, Ensures-raise, Ensures-pure,
}
use adapter_forge_gateway.Endpoint.Values.{ToolError}
use adapter_forge_gateway.Endpoint.Responses.{ToolControlCommand}
use adapter_forge_gateway.Invocations.Item.{ActionKey, ActionInvocation}
use adapter_forge_gateway.Directory.State.{RegisteredEndpoint}
use adapter_forge_gateway.Invocations.Soundness.{get-IsSafe}
use adapter_forge_gateway.Gateway.Envelope.{Payload, ToolEnvelope}
use adapter_forge_gateway.Gateway.State.{OutboundKind, Ambient}
use adapter_forge_gateway.Gateway.Slots.{
  part_rules, has_ids, Holds, Holds-less, reserve-Holds, respond-Holds, on_invocations-Holds,
}
use adapter_forge_gateway.Gateway.Exchanges.{Lookup}
use adapter_forge_gateway.Gateway.Exchanging.{
  IsPromised, refresh_action_key-Holds, resolve_pinned-Holds, mark_unpinned-Holds,
}
use adapter_forge_gateway.Gateway.Acting.{set_status-Holds}
use adapter_forge_gateway.Gateway.Locals.{inside-Known}
use adapter_forge_gateway.Gateway.Callers.{
  respond_error, lookup_unavailable, look_up_for_caller, queue_control, forward_control,
  control_registered, control_for_caller, request_of_item, request_of_held, request_at,
  handle_caller_action_request,
}
use adapter_forge_gateway.Gateway.Bodies.{Body, inside-Body, reserve-Body, queue-Body}
use adapter_forge_gateway.Gateway.Calling.{answered-Holds, reserved-Holds}

module _ {capacity n : ℕ} where
  respond_error-Holds :
      (request : ToolEnvelope) (error : ToolError)
      → Keeps (Holds capacity n) (respond_error request error)
  unfolding respond_error
  respond_error-Holds request error = Ensures-then _ _ (reserve-Holds 1) (
      reserved-Holds _ (
        Ensures-weaken _ (λ g h. h)
          (respond-Holds OutboundKind.caller_action_response error request) (λ g h. h)
          (λ g h. Holds-less {n = suc n} g (omega arith) h)))

module _ {capacity n : ℕ} (w : Ambient) (request : ToolEnvelope) (k : ActionKey)
    (promised : IsPromised true (some request)) where
  lookup_unavailable-Holds :
      (x : Exception) → Keeps (Holds capacity n) (lookup_unavailable w request k x)
  unfolding lookup_unavailable
  lookup_unavailable-Holds x = search (part_rules, respond_error-Holds)

  look_up_for_caller-Holds :
      (purpose : Lookup) → Keeps (Holds capacity n) (look_up_for_caller w request k purpose)
  unfolding look_up_for_caller
  look_up_for_caller-Holds purpose = Keeps-bind _ _ (Ensures-gets _) (λ busy.
      Ensures-branch _ _ _ (respond_error-Holds request _) (
        Ensures-try_else _ _ _
          (refresh_action_key-Holds w k purpose (w.monotonic 0) (some request) true promised)
          lookup_unavailable-Holds (λ queued. Ensures-when _ _ (respond_error-Holds request _))))

  queue_control-Body :
      (command : ToolControlCommand) (reason : Option String) (item : ActionInvocation)
      (registration : RegisteredEndpoint)
      → Body capacity n false (queue_control w request k command reason item registration)
  unfolding queue_control ◌>>◌
  queue_control-Body command reason item registration = reserve-Body _ (
      inside-Body _ _ (λ _. set_status-Holds command k "requested")
        (λ _. inside-Body _ _ (λ _. Ensures-gets _) (λ timeout. queue-Body k _ _ _ _ _ promised)))

  forward_control-Holds :
      (command : ToolControlCommand) (reason : Option String) (item : ActionInvocation)
      (registration : RegisteredEndpoint)
      → Keeps (Holds capacity n) (forward_control w request k command reason item registration)
  unfolding forward_control
  forward_control-Holds command reason item registration = Ensures-then _ _ (reserve-Holds 1) (
      reserved-Holds _ (
        answered-Holds _ _ _ _ request _
          (λ t. inside-Known _ (set_status-Holds command k "transport_error"))
          (λ t. Ensures-pure tt) (queue_control-Body command reason item registration)))

  control_registered-Holds :
      (command : ToolControlCommand) (reason : Option String) (item : ActionInvocation)
      (registration : RegisteredEndpoint)
      → Keeps (Holds capacity n) (control_registered w request k command reason item registration)
  unfolding control_registered
  control_registered-Holds command reason item registration =
      Ensures-choose _ _ _ (Ensures-raise _) (λ operation.
        Ensures-branch _ _ _ (respond_error-Holds request _) (
          Keeps-bind _ _ (Ensures-gets _) (λ busy.
            Ensures-branch _ _ _ (respond_error-Holds request _)
              (forward_control-Holds command reason item registration))))

  control_for_caller-Holds :
      (command : ToolControlCommand) (reason : Option String) (item : ActionInvocation)
      → Keeps (Holds capacity n) (control_for_caller w request k command reason item)
  unfolding control_for_caller
  control_for_caller-Holds command reason item =
      Keeps-bind _ _ (resolve_pinned-Holds w item (w.monotonic 0)) (λ found.
        Ensures-choose found _ _
          (Keeps-then _ _ (mark_unpinned-Holds item (w.monotonic 0))
            (respond_error-Holds request _))
          (control_registered-Holds command reason item))

  request_of_item-Holds :
      (item : ActionInvocation) (payload : Payload)
      → Keeps (Holds capacity n) (request_of_item w request k item payload)
  unfolding request_of_item
  request_of_item-Holds item Payload.status_request = look_up_for_caller-Holds Lookup.status
  request_of_item-Holds item Payload.result_request = look_up_for_caller-Holds Lookup.result
  request_of_item-Holds item (Payload.control_request command reason) =
      control_for_caller-Holds command reason item
  request_of_item-Holds item _ = Ensures-raise _

  request_at-Holds : Keeps (Holds capacity n) (request_at w request k)
  unfolding request_at request_of_held
  request_at-Holds =
      Keeps-bind _ _ (on_invocations-Holds _ (get-IsSafe k (w.monotonic 0))) (λ found.
        Ensures-choose found _ _ (respond_error-Holds request _) (λ item.
          Ensures-branch _ _ _ (respond_error-Holds request _)
            (request_of_item-Holds item request.payload)))

module _ {capacity n : ℕ} (w : Ambient) (request : ToolEnvelope) where
  pub handle_caller_action_request-Holds :
      has_ids request ≡ true → Keeps (Holds capacity n) (handle_caller_action_request w request)
  unfolding handle_caller_action_request
  handle_caller_action_request-Holds ids = Keeps-guard _ _ _ (λ absent.
      Ensures-choose _ _ _ (Ensures-raise _) (λ invocation_id.
        Ensures-choose _ _ _ (Ensures-raise _) (λ attempt_id.
          request_at-Holds w request (invocation_id, attempt_id) (ground (arith, ids, absent)))))
