-- ===== src/Gateway/Admitting.antt =====
-- That the whole admission of a Query, and the response that ends it, keep the mailbox's accounting.
use adapter_forge_gateway.Prelude.{
  ◌≡◌, not, ◌&&◌, is_some, ℕ, ◌+◌, refl, String, Bool, true, false, Option, none, some, arith,
}
use adapter_forge_gateway.Raise.{
  Exception, mailbox_full, gateway_unavailable, operation_not_found, Action, Result, ok, err,
}
use adapter_forge_gateway.Raise.Method.{◌>>◌, try_finally}
use adapter_forge_gateway.Raise.Ensures.{
  Ends, Ensures, Keeps, keeps_rules, Ensures-then, Ensures-weaken, Ensures-try, Ensures-try_else,
  Ensures-finally, Ensures-pure, Ensures-choose, Ensures-branch, Ensures-branch_if, Ensures-gets,
  Ensures-if_so, Ensures-raise, Keeps-bind, Keeps-then, Ensures-lift, Ensures-when, Keeps-raise,
}
use adapter_forge_gateway.Endpoint.Json.{Fields}
use adapter_forge_gateway.Endpoint.Responses.{ToolContext}
use adapter_forge_gateway.Directory.State.{ToolProviderRouteIdentity, RegisteredEndpoint}
use adapter_forge_gateway.Directory.Soundness.{expire-IsSafe, resolve-IsSafe}
use adapter_forge_gateway.Gateway.Envelope.{ToolEnvelope, CorrelationKey}
use adapter_forge_gateway.Gateway.State.{PendingInvocation, Gateway, Ambient}
use adapter_forge_gateway.Gateway.Slots.{
  is_logical_request, Holds, Holds-less, reserve-Holds, on_directory-Holds, ensure_accepting-Holds,
}
use adapter_forge_gateway.Gateway.Removing.{
  finish_pending-Holds, finish_unclaimed_for_removed-Holds, complete_future-Holds,
}
use adapter_forge_gateway.Gateway.Acting.{check_timeout-Holds}
use adapter_forge_gateway.Gateway.Actions.{invoke_request_envelope}
use adapter_forge_gateway.Gateway.Locals.{
  Locals, forget, with_locals, slot, Known, Admits, Ensures-flags, inside-Known, read-Known,
  reserve_provider, release_provider, release_terminal_slot, reserve_provider-Known,
  release_provider-Known, release_terminal_slot-Known,
}
use adapter_forge_gateway.Gateway.Queries.{
  admit_keys, admit_registered, admit_resolved, admit_routed, unresolved, unreserved,
  admit_reserved, admit_body, admit_invoke, is_provider_held,
}
use adapter_forge_gateway.Gateway.HttpQueries.{
  logical_invoke_request, unavailable, submit_http_invoke, end_query, handle_provider_response,
}
use adapter_forge_gateway.Gateway.Querying.{
  EndsAdmission, enough, refuse-Admits, refuse-Reserved, raise-Reserved, inside-Reserved,
  lift-Reserved, commit-Reserved,
}

module _ {capacity n : ℕ} {t : Bool} (w : Ambient) (request : ToolEnvelope) (now deadline : ℕ)
    (future : Option ℕ) (logical : is_logical_request request ≡ true)
    (waits : (not (is_some future) && not t) ≡ false) where
  admit_keys-Reserved :
      (route : ToolProviderRouteIdentity) (sent : ToolEnvelope)
      (logical_key provider_key : CorrelationKey)
      → is_some sent.endpoint_instance_id ≡ true
      → EndsAdmission capacity n t
          (admit_keys w request now deadline future route sent logical_key provider_key)
  unfolding admit_keys
  admit_keys-Reserved route sent logical_key provider_key pinned =
      inside-Reserved _ _ (λ k. Ensures-gets _)
        (λ repeated. Ensures-branch _ _ _ (refuse-Reserved request future _) (
          read-Known (is_provider_held provider_key) _ (λ held.
            Ensures-branch_if held _ _
              (λ e.
                Ensures-weaken _
                  (λ l k. record {
                    terminal_is = k.terminal_is;
                    provider_is = k.provider_is;
                    holds = k.holds.0;
                  })
                  (refuse-Reserved request future _) (λ l a. a) (λ l a. a))
              (λ e.
                Ensures-weaken _
                  (λ l k. record {
                    terminal_is = k.terminal_is;
                    provider_is = k.provider_is;
                    holds = (k.holds.0, ground (arith, k.holds.1, e));
                  })
                  (commit-Reserved provider_key _ (ground (arith, logical, waits, pinned)))
                  (λ l a. a) (λ l a. a)))))

  admit_registered-Reserved :
      (route : ToolProviderRouteIdentity) (registration : RegisteredEndpoint)
      → EndsAdmission capacity n t
          (admit_registered w request now deadline future route registration)
  unfolding admit_registered invoke_request_envelope
  admit_registered-Reserved route registration = lift-Reserved _ _ (λ decoded.
      lift-Reserved _ _ (λ logical_key.
        lift-Reserved _ _
          (λ provider_key. admit_keys-Reserved route _ logical_key provider_key refl)))

  unresolved-Reserved :
      (x : Exception) → EndsAdmission capacity n t (unresolved w request now deadline future x)
  unresolved-Reserved operation_not_found = refuse-Reserved request future _
  unresolved-Reserved _ = raise-Reserved _

  admit_routed-Reserved :
      (operation : String) (route : ToolProviderRouteIdentity)
      → EndsAdmission capacity n t (admit_routed w request now deadline future operation route)
  unfolding admit_routed admit_resolved ◌>>◌
  admit_routed-Reserved operation route =
      inside-Reserved _ _ (λ k. on_directory-Holds _ (expire-IsSafe now))
        (λ expired.
          inside-Reserved _ _ (λ k. finish_unclaimed_for_removed-Holds w expired now)
            (λ _.
              Ensures-try_else _ _ _
                (inside-Known _ (on_directory-Holds _ (resolve-IsSafe _ operation now)))
                unresolved-Reserved
                (λ resolved.
                  Ensures-choose resolved _ _ (refuse-Reserved request future _)
                    (admit_registered-Reserved route))))

  admit_reserved-Reserved :
      EndsAdmission capacity n t (admit_reserved w request now deadline future)
  unfolding admit_reserved
  admit_reserved-Reserved = Ensures-branch _ _ _ (refuse-Reserved request future _) (
      inside-Reserved _ _ (λ k. Ensures-gets _)
        (λ route. Ensures-choose request.operation _ _ (raise-Reserved _) (λ operation.
          Ensures-choose route _ _ (refuse-Reserved request future _)
            (admit_routed-Reserved operation))))

-- The variables before the provider slot is reserved.
abbrev Started : ℕ → ℕ → Bool → Locals → Type 0
Started capacity n t = Known t false (Holds capacity (slot t + n))

module _ {capacity n : ℕ} {t : Bool} (w : Ambient) (request : ToolEnvelope) (now deadline : ℕ)
    (future : Option ℕ) (logical : is_logical_request request ≡ true)
    (waits : (not (is_some future) && not t) ≡ false) where
  Started-Admits : (l : Locals) → Started capacity n t l → Admits capacity n l
  Started-Admits l k = enough t false (slot t + n) l (omega arith) k

  unreserved-Started :
      (x : Exception)
      → Ensures
          (Started capacity n t)
          (unreserved w request now deadline future x)
          (Admits capacity n)
          (Admits capacity n)
  unreserved-Started mailbox_full =
      Ensures-weaken _ Started-Admits (refuse-Admits request future _) (λ l a. a) (λ l a. a)
  unreserved-Started _ = Ensures-weaken _ Started-Admits (Ensures-raise _) (λ l a. a) (λ l a. a)

  admit_body-Admits :
      Ensures
        (Started capacity n t)
        (admit_body w request now deadline future)
        (Admits capacity n)
        (Admits capacity n)
  unfolding admit_body
  admit_body-Admits = read-Known _ _ (λ full.
      Ensures-weaken {M = Started capacity n t} _
        (λ l k. record {
          terminal_is = k.terminal_is;
          provider_is = k.provider_is;
          holds = k.holds.0;
        })
        (Ensures-branch _ _ _
          (Ensures-weaken _ Started-Admits (refuse-Admits request future _) (λ l a. a) (λ l a. a))
          (Ensures-try_else reserve_provider _ _ reserve_provider-Known unreserved-Started (λ _.
            Ensures-weaken _
              (λ l k. record {
                terminal_is = k.terminal_is;
                provider_is = k.provider_is;
                holds = Holds-less l.gateway (omega arith) k.holds;
              })
              (admit_reserved-Reserved {n = n} w request now deadline future logical waits)
              (λ l a. a) (λ l a. a))))
        (λ l a. a) (λ l a. a))

-- What the `finally` of an admission gives back.
give_back-Known :
    {capacity n : ℕ} {E : Locals → Type 0}
    → Ensures
        (Admits capacity n)
        (release_provider >> release_terminal_slot)
        (Known false false (Holds capacity n))
        E
give_back-Known {capacity} {n} = Ensures-flags _ (λ t p.
    Ensures-then _ _
      (Ensures-weaken {F = λ _. ⊥} _
        (λ l k. record {
          terminal_is = k.terminal_is;
          provider_is = k.provider_is;
          holds = Holds-less {n = slot t + slot p + n} l.gateway (omega arith) k.holds;
        })
        (release_provider-Known {n = slot t + n} t p) (λ l k. k) (λ l x. absurd x))
      (release_terminal_slot-Known t false))

pub with_locals-Ensures :
    {A : Type 0} {P Q E : Gateway → Type 0} (t : Bool) (m : Action Locals A)
    → Ensures (Known t false P) m (λ l. Q l.gateway) (λ l. E l.gateway)
    → Ensures P (with_locals t m) Q E
unfolding with_locals
with_locals-Ensures {A} {P} {Q} {E} t m h = record {
  at = λ g p. after (m _) (h.at _ (record { terminal_is = refl; provider_is = refl; holds = p }));
}
  where
    after :
        (r : Result A × Locals) → Ends (λ l. Q l.gateway) (λ l. E l.gateway) r → Ends Q E (forget r)
    after (ok a, l) q = q
    after (err x, l) e = e

module _ {capacity n : ℕ} (w : Ambient) (request : ToolEnvelope) (now deadline : ℕ)
    (logical : is_logical_request request ≡ true) where
  admit_within-Holds :
      (t : Bool) (future : Option ℕ)
      → (not (is_some future) && not t) ≡ false
      → Ensures
          (Holds capacity (slot t + n))
          (with_locals t (
            try_finally
              (admit_body w request now deadline future)
              (release_provider >> release_terminal_slot)))
          (Holds capacity n)
          (Holds capacity n)
  admit_within-Holds t future waits = with_locals-Ensures t _ (
      Ensures-weaken _ (λ l k. k)
        (Ensures-finally _ _ (admit_body-Admits w request now deadline future logical waits)
          give_back-Known give_back-Known)
        (λ l k. k.holds) (λ l k. k.holds))

  pub admit_invoke-Holds :
      (future : Option ℕ) → Keeps (Holds capacity n) (admit_invoke w request now deadline future)
  unfolding admit_invoke
  admit_invoke-Holds none = Ensures-then _ _ ensure_accepting-Holds (
      Ensures-then _ _ (Ensures-if_so _ _ (λ e. reserve-Holds 1) (λ g e h. absurd (cc)))
        (admit_within-Holds true none refl))
  admit_invoke-Holds (some id) = Ensures-then _ _ ensure_accepting-Holds (
      Ensures-then _ _ (Ensures-if_so _ _ (λ e. absurd (cc)) (λ g e h. h)) (
        Ensures-weaken _ (λ g h. Holds-less g (omega arith) h)
          (admit_within-Holds false (some id) refl) (λ g h. h) (λ g h. h)))

is_logical_request-http :
    (arguments : Fields) (context : ToolContext) (request_id : String)
    → is_logical_request (logical_invoke_request arguments context request_id) ≡ true
unfolding logical_invoke_request
is_logical_request-http arguments context request_id = refl

module _ {capacity n : ℕ} (w : Ambient) (request : ToolEnvelope) where
  unavailable-Holds :
      (future : ℕ) (x : Exception) → Keeps (Holds capacity n) (unavailable w request future x)
  unavailable-Holds future gateway_unavailable =
      Ensures-then _ _ (complete_future-Holds request _ future) (Ensures-pure _)
  unavailable-Holds future mailbox_full =
      Ensures-then _ _ (complete_future-Holds request _ future) (Ensures-pure _)
  unavailable-Holds future _ = Ensures-raise _

module _ {capacity n : ℕ} where
  pub submit_http_invoke-Holds :
      (w : Ambient) (future : ℕ) (endpoint_id operation : String) (arguments : Fields)
      (caller_id : Option String) (timeout_ms : Option ℕ) (now : ℕ)
      → Keeps
          (Holds capacity n)
          (submit_http_invoke w future endpoint_id operation arguments caller_id timeout_ms now)
  unfolding submit_http_invoke
  submit_http_invoke-Holds w future endpoint_id operation arguments caller_id timeout_ms now =
      Keeps-then _ _ (Ensures-when _ _ (Keeps-raise _)) (
        Keeps-bind _ _ (check_timeout-Holds timeout_ms) (λ timeout.
          Keeps-bind _ _ (Ensures-lift _) (λ context. Keeps-bind _ _ (Ensures-lift _) (λ copied.
            Keeps-bind _ _
              (Ensures-try _ _
                (admit_invoke-Holds w _ now _ (is_logical_request-http copied context _)
                  (some future))
                (unavailable-Holds w _ future))
              (λ key. Ensures-pure _)))))

  end_query-Holds :
      (route : ToolProviderRouteIdentity) (response : ToolEnvelope) (at : ℕ) (key : CorrelationKey)
      (pending : PendingInvocation)
      → Keeps (Holds capacity n) (end_query route response at key pending)
  unfolding end_query
  end_query-Holds route response at key pending =
      search (keeps_rules, finish_pending-Holds) depth 12

  pub handle_provider_response-Holds :
      (route : ToolProviderRouteIdentity) (response : ToolEnvelope) (at : ℕ)
      → Keeps (Holds capacity n) (handle_provider_response route response at)
  unfolding handle_provider_response
  handle_provider_response-Holds route response at = search (keeps_rules, end_query-Holds) depth 12
