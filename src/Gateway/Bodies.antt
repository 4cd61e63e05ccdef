-- ===== src/Gateway/Bodies.antt =====
-- Rules for the requests of a Dora caller that end in an exchange with the provider: the caller's slot
-- is reserved before, and the `try` reserves that of the provider's request.
use adapter_forge_gateway.Prelude.{ℕ, suc, ◌+◌, Bool, true, false, Option, arith}
use adapter_forge_gateway.Raise.{Exception, Result, Action}
use adapter_forge_gateway.Raise.Method.{raise, lift, ◌>>=◌, ◌>>◌, modify, when}
use adapter_forge_gateway.Raise.Ensures.{
  Ensures, Keeps, Ensures-bind, Ensures-then, Ensures-weaken, Ensures-lift, Ensures-raise,
  Ensures-when, Ensures-modify, Ensures-try, Ensures-branch,
}
use adapter_forge_gateway.Endpoint.Values.{ToolError}
use adapter_forge_gateway.Invocations.Item.{ActionKey}
use adapter_forge_gateway.Directory.State.{ToolProviderRouteIdentity}
use adapter_forge_gateway.Gateway.Envelope.{ToolEnvelope}
use adapter_forge_gateway.Gateway.State.{OutboundKind, Purpose, Gateway}
use adapter_forge_gateway.Gateway.Slots.{Holds, Holds-less, release-Holds, respond-Holds}
use adapter_forge_gateway.Gateway.Exchanges.{queue_action_exchange}
use adapter_forge_gateway.Gateway.Exchanging.{IsPromised, queue_action_exchange-Holds}
use adapter_forge_gateway.Gateway.Locals.{
  Locals, inside, slot, Known, Admits, Ensures-flags, inside-Known, set_provider, reserve_provider,
  reserve_provider-Known, release_provider-Known,
}
use adapter_forge_gateway.Gateway.Querying.{enough}
use adapter_forge_gateway.Gateway.Dora.{or_answer}

-- The `try` with its slots: the caller's, and the provider's if it is reserved. It succeeds with both
-- used, and raises with those accounted for that the variables say are reserved.
abbrev pub Body : {A : Type 0} → ℕ → ℕ → Bool → Action Locals A → Type 0
Body capacity n p m =
    Ensures (Known false p (Holds capacity (slot p + suc n))) m (λ l. Holds capacity n l.gateway)
      (Admits capacity (suc n))

module _ {capacity n : ℕ} {p : Bool} where
  Known-Admits :
      (l : Locals) → Known false p (Holds capacity (slot p + suc n)) l → Admits capacity (suc n) l
  Known-Admits l k = enough false p (slot p + suc n) l (omega arith) k

  pub raise-Body : {A : Type 0} (x : Exception) → Body capacity n p (raise {A = A} x)
  raise-Body x = Ensures-weaken _ (λ l k. k) (Ensures-raise x) (λ l h. h) Known-Admits

  pub inside-Body :
      {A B : Type 0} (m : Action Gateway A) (f : A → Action Locals B)
      → ((k : ℕ) → Keeps (Holds capacity k) m)
      → ((a : A) → Body capacity n p (f a))
      → Body capacity n p (inside m >>= f)
  inside-Body m f hm hf =
      Ensures-bind _ _ (Ensures-weaken _ (λ l k. k) (inside-Known m (hm _)) (λ l k. k) Known-Admits)
        hf

  pub modify-Body :
      {B : Type 0} (f : Locals → Locals) (m : Action Locals B)
      → ((l : Locals)
          → Known false p (Holds capacity (slot p + suc n)) l
          → Known false p (Holds capacity (slot p + suc n)) (f l))
      → Body capacity n p m
      → Body capacity n p (modify f >> m)
  modify-Body f m keep h = Ensures-then _ _ (Ensures-modify f keep) h

  pub when-Body :
      {B : Type 0} (b : Bool) (x : Exception) (m : Action Locals B)
      → Body capacity n p m
      → Body capacity n p (when b (raise x) >> m)
  when-Body b x m h =
      Ensures-then _ _
        (Ensures-weaken _ (λ l k. k) (Ensures-when b _ (Ensures-raise x)) (λ l k. k) Known-Admits) h

  pub lift-Body :
      {A B : Type 0} (r : Result A) (f : A → Action Locals B)
      → ((a : A) → Body capacity n p (f a))
      → Body capacity n p (lift r >>= f)
  lift-Body r f hf =
      Ensures-bind _ _ (Ensures-weaken _ (λ l k. k) (Ensures-lift r) (λ l k. k) Known-Admits) hf

module _ {capacity n : ℕ} where
  pub reserve-Body :
      {B : Type 0} (m : Action Locals B)
      → Body capacity n true m
      → Body capacity n false (reserve_provider >> m)
  reserve-Body m h =
      Ensures-then _ _
        (Ensures-weaken _
          (λ l k. record {
            terminal_is = k.terminal_is;
            provider_is = k.provider_is;
            holds = Holds-less {m = suc n} l.gateway (omega arith) k.holds;
          })
          (reserve_provider-Known {t = false})
          (λ l k. record {
            terminal_is = k.terminal_is;
            provider_is = k.provider_is;
            holds = Holds-less {n = 1 + suc n} l.gateway (omega arith) k.holds;
          })
          (λ l k. enough false false (suc n) l (omega arith) k))
        h

  pub queue-Body :
      (key : ActionKey) (request : ToolEnvelope) (route : ToolProviderRouteIdentity)
      (purpose : Purpose) (deadline : ℕ) (logical : Option ToolEnvelope)
      → IsPromised true logical
      → Body capacity n true (
          inside (queue_action_exchange key request route purpose deadline logical true)
          >> modify (set_provider false))
  queue-Body key request route purpose deadline logical promised =
      Ensures-then {M = Known false true (Holds capacity n)} _ _
        (Ensures-weaken _ (λ l k. k)
          (inside-Known _
            (queue_action_exchange-Holds key request route purpose deadline logical true promised))
          (λ l k. k) (λ l k. enough false true _ l (omega arith) k))
        (Ensures-modify _ (λ l k. k.holds))

  -- The handlers find the slots that the body left, and use or release the caller's.
  pub or_answer-Holds :
      (is_expected : Exception → Bool) (undo clean : Action Locals (Unit {0}))
      (error_of : Exception → ToolError) (request : ToolEnvelope) (m : Action Locals (Unit {0}))
      → ((t : Bool) → Keeps (Known t false (Holds capacity (suc n))) undo)
      → ((t : Bool) → Keeps (Known t false (Holds capacity n)) clean)
      → Body capacity n false m
      → Ensures
          (Known false false (Holds capacity (suc n)))
          (or_answer is_expected undo clean error_of request m)
          (λ l. Holds capacity n l.gateway)
          (λ l. Holds capacity n l.gateway)
  unfolding or_answer
  or_answer-Holds is_expected undo clean error_of request m hu hc hm =
      Ensures-try _ _
        (Ensures-weaken _
          (λ l k. record {
            terminal_is = k.terminal_is;
            provider_is = k.provider_is;
            holds = Holds-less {n = suc n} l.gateway (omega arith) k.holds;
          })
          hm (λ l h. h) (λ l a. a))
        (λ x. Ensures-flags _ (λ t p.
          Ensures-then _ _
            (Ensures-weaken {F = λ _. ⊥} _
              (λ l k. record {
                terminal_is = k.terminal_is;
                provider_is = k.provider_is;
                holds = Holds-less {n = slot t + slot p + suc n} l.gateway (omega arith) k.holds;
              })
              (release_provider-Known {n = suc n} t p) (λ l k. k) (λ l e. absurd e))
            (Ensures-branch _ _ _
              (Ensures-then _ _
                (Ensures-weaken _ (λ l k. k) (hu t) (λ l k. k)
                  (λ l k. Holds-less {n = suc n} l.gateway (omega arith) k.holds))
                (Ensures-weaken _ (λ l k. k)
                  (inside-Known _
                    (respond-Holds OutboundKind.caller_action_response (error_of x) request))
                  (λ l k. k.holds) (λ l k. Holds-less {n = suc n} l.gateway (omega arith) k.holds)))
              (Ensures-then _ _
                (Ensures-weaken {F = Known t false (λ _. ⊥)} _
                  (λ l k. record {
                    terminal_is = k.terminal_is;
                    provider_is = k.provider_is;
                    holds = Holds-less {n = suc n} l.gateway (omega arith) k.holds;
                  })
                  (inside-Known {E = λ _. ⊥} _ (release-Holds {n = n} 0)) (λ l k. k)
                  (λ l k. absurd k.holds))
                (Ensures-then _ _ (Ensures-weaken _ (λ l k. k) (hc t) (λ l k. k) (λ l k. k.holds))
                  (Ensures-weaken _ (λ l k. k) (Ensures-raise x) (λ l k. k) (λ l k. k.holds)))))))
