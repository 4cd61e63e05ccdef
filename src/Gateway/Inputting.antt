-- ===== src/Gateway/Inputting.antt =====
-- That every input keeps the mailbox's accounting.
use adapter_forge_gateway.Prelude.{refl, true, false, ◌≡◌, ℕ, suc, ◌+◌, String, arith}
use adapter_forge_gateway.Raise.{ok, Action}
use adapter_forge_gateway.Raise.Ensures.{
  Ensures, Keeps, keeps_rules, Keeps-then, Keeps-bind, Ensures-bind, Ensures-then, Ensures-weaken,
  Ensures-choose, Ensures-branch, Ensures-gets, Ensures-lift, Ensures-raise, Ensures-pure,
}
use adapter_forge_gateway.Directory.State.{ToolProviderRouteIdentity, EndpointDirectory}
use adapter_forge_gateway.Directory.Register.{EndpointDirectoryMutation}
use adapter_forge_gateway.Directory.Soundness.{IsSafe, register-IsSafe, unregister-IsSafe}
use adapter_forge_gateway.Gateway.Envelope.{Payload, ToolEnvelope}
use adapter_forge_gateway.Gateway.State.{Gateway, Ambient}
use adapter_forge_gateway.Wire.Envelope.{check_envelope, is_management, is_event, has_ids-check}
use adapter_forge_gateway.Gateway.Slots.{
  has_ids, Holds, Holds-less, reserve-Holds, append-Holds, on_directory-Holds,
  ensure_accepting-Holds,
}
use adapter_forge_gateway.Gateway.Removing.{finish_unclaimed_for_removed-Holds}
use adapter_forge_gateway.Gateway.Exchanging.{or_release-Holds}
use adapter_forge_gateway.Gateway.Admitting.{handle_provider_response-Holds}
use adapter_forge_gateway.Gateway.Reporting.{
  handle_action_response-Holds, handle_action_event-Holds, handle_endpoint_status-Holds,
}
use adapter_forge_gateway.Gateway.Calling.{handle_caller_invoke-Holds}
use adapter_forge_gateway.Gateway.Requesting.{handle_caller_action_request-Holds}
use adapter_forge_gateway.Gateway.Inputs.{
  answer_registry, change_registry, handle_provider_input, accept_provider_input, provider_response,
  query_response, input_of_provider, input_of_caller, unrouted_input, handle_input,
}

module _ {capacity n : ℕ} (w : Ambient) (route : ToolProviderRouteIdentity)
    (envelope : ToolEnvelope) (received processed : ℕ) where
  answer_registry-Holds :
      (change : Action EndpointDirectory EndpointDirectoryMutation)
      → IsSafe change
      → Ensures
          (Holds capacity (1 + n))
          (answer_registry w route envelope received processed change)
          (Holds capacity n)
          (Holds capacity (1 + n))
  unfolding answer_registry
  answer_registry-Holds change safe = Ensures-bind _ _ (on_directory-Holds _ safe) (λ mutation.
      Ensures-bind _ _ (Ensures-lift _) (λ answer.
        Ensures-then _ _
          (Ensures-weaken _ (λ g h. Holds-less {m = suc n} g (omega arith) h) (append-Holds _)
            (λ g h. h) (λ g h. h))
          (Ensures-pure mutation)))

  change_registry-Holds :
      (change : Action EndpointDirectory EndpointDirectoryMutation)
      → IsSafe change
      → Keeps (Holds capacity n) (change_registry w route envelope received processed change)
  unfolding change_registry
  change_registry-Holds change safe = Ensures-then _ _ (reserve-Holds 1) (
      Ensures-bind _ _
        (or_release-Holds 0 _ _ (answer_registry-Holds change safe) (Ensures-pure tt))
        (λ mutation.
          Keeps-then _ _ (finish_unclaimed_for_removed-Holds w mutation.removed processed)
            (Ensures-pure tt)))

  ruleset input_rules = (
    keeps_rules, handle_provider_response-Holds, handle_action_response-Holds,
    handle_action_event-Holds, handle_endpoint_status-Holds, ensure_accepting-Holds,
  )

  handle_provider_input-Holds :
      (payload : Payload)
      → Keeps (Holds capacity n) (handle_provider_input w route envelope received processed payload)
  unfolding handle_provider_input
  handle_provider_input-Holds (Payload.register descriptor) =
      change_registry-Holds _ (register-IsSafe _ route received)
  handle_provider_input-Holds Payload.unregister =
      change_registry-Holds _ (unregister-IsSafe _ route received)
  handle_provider_input-Holds (Payload.tool_event event) =
      handle_action_event-Holds w route envelope event
  handle_provider_input-Holds (Payload.endpoint_status status) =
      handle_endpoint_status-Holds w route envelope status received
  handle_provider_input-Holds _ = search input_rules

  accept_provider_input-Holds :
      Keeps (Holds capacity n) (accept_provider_input w route envelope received processed)
  unfolding accept_provider_input
  accept_provider_input-Holds =
      Keeps-then _ _ ensure_accepting-Holds (handle_provider_input-Holds envelope.payload)

  provider_response-Holds :
      (rest : Action Gateway (Unit {0}))
      → Keeps (Holds capacity n) rest
      → Keeps (Holds capacity n) (provider_response w route envelope received processed rest)
  unfolding provider_response
  provider_response-Holds rest h = Keeps-bind _ _ (Ensures-lift _) (λ key.
      Keeps-bind _ _ (Ensures-gets _) (λ of_action.
        Ensures-branch _ _ _
          (Keeps-then _ _ (handle_action_response-Holds w route envelope processed)
            (Ensures-pure tt))
          h))

  query_response-Holds :
      Keeps (Holds capacity n) (query_response w route envelope received processed)
  unfolding query_response
  query_response-Holds =
      Keeps-then _ _ (handle_provider_response-Holds route envelope processed) (Ensures-pure tt)

  input_of_provider-Holds :
      (payload : Payload)
      → Keeps (Holds capacity n) (input_of_provider w route envelope received processed payload)
  unfolding input_of_provider
  input_of_provider-Holds (Payload.tool_event event) =
      handle_action_event-Holds w route envelope event
  input_of_provider-Holds (Payload.endpoint_status status) =
      handle_endpoint_status-Holds w route envelope status received
  input_of_provider-Holds (Payload.invoke_response _) =
      provider_response-Holds _ query_response-Holds
  input_of_provider-Holds (Payload.tool_error _) = provider_response-Holds _ query_response-Holds
  input_of_provider-Holds (Payload.status_response _) =
      provider_response-Holds _ accept_provider_input-Holds
  input_of_provider-Holds (Payload.result_response _) =
      provider_response-Holds _ accept_provider_input-Holds
  input_of_provider-Holds (Payload.control_response _) =
      provider_response-Holds _ accept_provider_input-Holds
  input_of_provider-Holds _ = accept_provider_input-Holds

-- The envelope could be made: it has the fields of its message type.
abbrev pub IsMade : ToolEnvelope → Type 0
IsMade envelope = check_envelope envelope ≡ ok tt

module _ {capacity n : ℕ} (w : Ambient) (envelope : ToolEnvelope) (processed : ℕ) where
  input_of_caller-Holds :
      (payload : Payload)
      → (is_management payload ≡ false → is_event payload ≡ false → has_ids envelope ≡ true)
      → Keeps (Holds capacity n) (input_of_caller w envelope processed payload)
  unfolding input_of_caller
  input_of_caller-Holds (Payload.invoke_request _ _) ids =
      handle_caller_invoke-Holds w envelope processed (ids refl refl)
  input_of_caller-Holds Payload.status_request ids =
      handle_caller_action_request-Holds w envelope (ids refl refl)
  input_of_caller-Holds Payload.result_request ids =
      handle_caller_action_request-Holds w envelope (ids refl refl)
  input_of_caller-Holds (Payload.control_request _ _) ids =
      handle_caller_action_request-Holds w envelope (ids refl refl)
  input_of_caller-Holds _ ids = Ensures-raise _

  unrouted_input-Holds :
      (input_id : String)
      → IsMade envelope
      → Keeps (Holds capacity n) (unrouted_input w input_id envelope processed)
  unfolding unrouted_input
  unrouted_input-Holds input_id made = Keeps-then _ _ ensure_accepting-Holds (
      Keeps-bind _ _ (Ensures-gets _) (λ public.
        Ensures-branch _ _ _
          (input_of_caller-Holds envelope.payload
            (λ managed event. has_ids-check envelope managed event made))
          (Ensures-raise _)))

pub handle_input-Holds :
    {capacity n : ℕ} (w : Ambient) (input_id : String) (envelope : ToolEnvelope)
    (received processed : ℕ)
    → IsMade envelope
    → Keeps (Holds capacity n) (handle_input w input_id envelope received processed)
unfolding handle_input
handle_input-Holds w input_id envelope received processed made =
    Keeps-bind _ _ (Ensures-gets _) (λ route.
      Ensures-choose route _ _ (unrouted_input-Holds w envelope processed input_id made)
        (λ found. input_of_provider-Holds w found envelope received processed envelope.payload))
