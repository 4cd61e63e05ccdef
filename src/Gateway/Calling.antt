-- ===== src/Gateway/Calling.antt =====
-- That the requests of a Dora caller keep the mailbox's accounting.
use adapter_forge_gateway.Prelude.{
  some, arith, true, false, ◌≡◌, ℕ, suc, ◌+◌, Bool, false, none, arith,
}
use adapter_forge_gateway.Raise.{Exception, operation_not_found, Action}
use adapter_forge_gateway.Raise.Method.{◌>>◌}
use adapter_forge_gateway.Raise.Ensures.{
  Keeps-guard, Ensures, Keeps, Keeps-then, Keeps-bind, Ensures-then, Ensures-weaken, Ensures-choose,
  Ensures-branch, Ensures-gets, Ensures-lift, Ensures-when, Ensures-try, Ensures-raise,
  Ensures-pure,
}
use adapter_forge_gateway.Endpoint.Json.{Fields}
use adapter_forge_gateway.Endpoint.Values.{ToolError, ToolOperationDescriptor}
use adapter_forge_gateway.Endpoint.Responses.{ToolContext}
use adapter_forge_gateway.Invocations.Item.{ActionKey}
use adapter_forge_gateway.Directory.State.{RegisteredEndpoint}
use adapter_forge_gateway.Directory.Soundness.{expire-IsSafe, resolve-IsSafe}
use adapter_forge_gateway.Invocations.Soundness.{create-IsSafe}
use adapter_forge_gateway.Gateway.Acting.{new_invocation-IsFresh, discard_invocation-Holds}
use adapter_forge_gateway.Gateway.Envelope.{ToolEnvelope}
use adapter_forge_gateway.Gateway.State.{Gateway, Ambient}
use adapter_forge_gateway.Gateway.Slots.{
  has_ids, is_logical_request, Holds, Holds-less, reserve-Holds, on_directory-Holds,
  on_invocations-Holds,
}
use adapter_forge_gateway.Gateway.Removing.{finish_unclaimed_for_removed-Holds}
use adapter_forge_gateway.Gateway.Exchanging.{IsPromised}
use adapter_forge_gateway.Gateway.Locals.{Locals, with_locals, Known, inside-Known}
use adapter_forge_gateway.Gateway.Admitting.{with_locals-Ensures, admit_invoke-Holds}
use adapter_forge_gateway.Gateway.Reporting.{drop_cursor-Holds, advance_cursor-Holds}
use adapter_forge_gateway.Gateway.Dora.{
  or_answer, forget_created, start_action, start_spec, start_dora_action, admit_dora_action,
  no_operation, invoke_as_query, invoke_registered, handle_caller_invoke,
}
use adapter_forge_gateway.Gateway.Bodies.{
  Body, raise-Body, inside-Body, modify-Body, when-Body, lift-Body, reserve-Body, queue-Body,
  or_answer-Holds,
}

module _ {capacity n : ℕ} where
  -- The caller's slot, reserved first, and then the `try`.
  pub answered-Holds :
      (is_expected : Exception → Bool) (undo clean : Action Locals (Unit {0}))
      (error_of : Exception → ToolError) (request : ToolEnvelope) (m : Action Locals (Unit {0}))
      → ((t : Bool) → Keeps (Known t false (Holds capacity (suc n))) undo)
      → ((t : Bool) → Keeps (Known t false (Holds capacity n)) clean)
      → Body capacity n false m
      → Ensures
          (Holds capacity (suc n))
          (with_locals false (or_answer is_expected undo clean error_of request m))
          (Holds capacity n)
          (Holds capacity n)
  answered-Holds is_expected undo clean error_of request m hu hc hm =
      with_locals-Ensures false _
        (or_answer-Holds is_expected undo clean error_of request m hu hc hm)

  pub reserved-Holds :
      (m : Action Gateway (Unit {0}))
      → Ensures (Holds capacity (suc n)) m (Holds capacity n) (Holds capacity n)
      → Ensures (Holds capacity (1 + n)) m (Holds capacity n) (Holds capacity n)
  reserved-Holds m h =
      Ensures-weaken _ (λ g k. Holds-less {m = suc n} g (omega arith) k) h (λ g k. k) (λ g k. k)

module _ {capacity n : ℕ} {t : Bool} where
  forget_created-Known :
      (k : ActionKey) → Keeps (Known t false (Holds capacity n)) (forget_created k)
  unfolding forget_created
  forget_created-Known k = Keeps-bind _ _ (Ensures-gets _) (λ created. Ensures-when _ _ (
      Keeps-then _ _ (inside-Known _ (discard_invocation-Holds k))
        (inside-Known _ (drop_cursor-Holds k))))

module _ {capacity n : ℕ} (w : Ambient) (request : ToolEnvelope) (context : ToolContext)
    (registration : RegisteredEndpoint) (now : ℕ) (promised : IsPromised true (some request)) where
  start_action-Body :
      (arguments : Fields) (operation : ToolOperationDescriptor)
      → Body capacity n false (start_action w request context registration now arguments operation)
  unfolding start_action ◌>>◌
  start_action-Body arguments operation =
      inside-Body _ _
        (λ k. on_invocations-Holds _ (create-IsSafe _ _ _ (new_invocation-IsFresh w context _)))
        (λ _.
          modify-Body _ _
            (λ l k. record {
              terminal_is = k.terminal_is;
              provider_is = k.provider_is;
              holds = k.holds;
            })
            (inside-Body _ _ (λ k. advance_cursor-Holds context.execution_key _)
              (λ _. reserve-Body _ (
                inside-Body _ _ (λ k. Ensures-gets _)
                  (λ timeout. queue-Body context.execution_key _ _ _ _ _ promised)))))

  start_dora_action-Body :
      Body capacity n false (start_dora_action w request context registration now)
  unfolding start_dora_action start_spec ◌>>◌
  start_dora_action-Body =
      inside-Body _ _ (λ k. Ensures-gets _)
        (λ found. Ensures-choose found _ _ (raise-Body _) (λ spec. when-Body _ _ _ (
          lift-Body _ _ (λ _.
            lift-Body _ _
              (λ decoded. Ensures-choose _ _ _ (raise-Body _) (start_action-Body decoded.0))))))

  pub admit_dora_action-Holds :
      Keeps (Holds capacity n) (admit_dora_action w request context registration now)
  unfolding admit_dora_action
  admit_dora_action-Holds = Ensures-then _ _ (reserve-Holds 1) (
      reserved-Holds _ (
        answered-Holds _ _ _ _ request _ (λ t. forget_created-Known context.execution_key)
          (λ t. forget_created-Known context.execution_key) start_dora_action-Body))

module _ {capacity n : ℕ} (w : Ambient) (request : ToolEnvelope) (now : ℕ)
    (logical : is_logical_request request ≡ true) where
  invoke_as_query-Holds :
      (context : ToolContext) → Keeps (Holds capacity n) (invoke_as_query w request now context)
  unfolding invoke_as_query
  invoke_as_query-Holds context = Keeps-bind _ _ (Ensures-gets _) (λ timeout.
      Keeps-then _ _ (admit_invoke-Holds w request now _ logical none) (Ensures-pure tt))

  invoke_registered-Holds :
      (context : ToolContext) (registration : RegisteredEndpoint)
      → Keeps (Holds capacity n) (invoke_registered w request now context registration)
  unfolding invoke_registered
  invoke_registered-Holds context registration =
      Ensures-choose _ _ _ (Ensures-raise _) (λ operation.
        Ensures-branch _ _ _ (invoke_as_query-Holds context)
          (admit_dora_action-Holds w request context registration now (ground (arith, logical))))

module _ {capacity n : ℕ} where
  no_operation-Holds : (x : Exception) → Keeps (Holds capacity n) (no_operation x)
  no_operation-Holds operation_not_found = Ensures-pure none
  no_operation-Holds _ = Ensures-raise _

  pub handle_caller_invoke-Holds :
      (w : Ambient) (request : ToolEnvelope) (now : ℕ)
      → has_ids request ≡ true
      → Keeps (Holds capacity n) (handle_caller_invoke w request now)
  unfolding handle_caller_invoke
  handle_caller_invoke-Holds w request now ids = Keeps-guard _ _ _ (λ absent.
      let logical : is_logical_request request ≡ true = ground (arith, ids, absent) in
      Keeps-bind _ _ (Ensures-lift _) (λ decoded.
        Keeps-bind _ _ (on_directory-Holds _ (expire-IsSafe now)) (λ expired.
          Keeps-then _ _ (finish_unclaimed_for_removed-Holds w expired now) (
            Keeps-bind _ _
              (Ensures-try _ _ (on_directory-Holds _ (resolve-IsSafe _ _ now)) no_operation-Holds)
              (λ found.
                Ensures-choose found _ _ (invoke_as_query-Holds w request now logical decoded.1)
                  (invoke_registered-Holds w request now logical decoded.1))))))
