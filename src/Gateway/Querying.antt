-- ===== src/Gateway/Querying.antt =====
-- That the admission of Queries and their providers' responses keep the mailbox's accounting.
use adapter_forge_gateway.Prelude.{
  ℕ, suc, ◌+◌, ◌≤◌, ◌≡◌, refl, Bool, true, false, not, Option, none, arith,
}
use adapter_forge_gateway.Raise.{Exception, Result, Action}
use adapter_forge_gateway.Raise.Method.{raise, lift, ◌>>=◌}
use adapter_forge_gateway.Raise.Ensures.{
  Ensures, Keeps, keeps_rules, Ensures-bind, Ensures-then, Ensures-if_so, Ensures-raise,
  Ensures-lift, Ensures-modify, Ensures-weaken, Ensures-pure, Ensures-choose,
}
use adapter_forge_gateway.Raise.Reading.{Ensures-read}
use adapter_forge_gateway.Dict.{lookup}
use adapter_forge_gateway.Dict.Size.{count-insert_new}
use adapter_forge_gateway.Dict.Distinct.{insert-IsDistinct}
use adapter_forge_gateway.Endpoint.Values.{ToolError}
use adapter_forge_gateway.Gateway.Envelope.{ToolEnvelope, CorrelationKey, correlation_eq}
use adapter_forge_gateway.Gateway.State.{OutboundKind, PendingInvocation, Gateway}
use adapter_forge_gateway.Gateway.Slots.{
  is_stuck, is_owed_terminal, Holds, Holds-less, append_beside-Holds, append_to_caller-Holds,
}
use adapter_forge_gateway.Gateway.Finish.{complete_without_pending}
use adapter_forge_gateway.Gateway.Finishing.{settle-Holds}
use adapter_forge_gateway.Gateway.Locals.{
  Locals, inside, slot, Known, Admits, Ensures-flags, inside-Known, read_terminal-Known,
  terminal_flag, release_provider-Known,
}
use adapter_forge_gateway.Gateway.Queries.{complete, refuse, commit, put_pending}

module _ {capacity n : ℕ} where
  complete_without_pending-Holds :
      (request : ToolEnvelope) (error : ToolError) (future : Option ℕ) (t : Bool)
      → Ensures
          (Holds capacity (slot t + n))
          (complete_without_pending request error future t)
          (Holds capacity n)
          (Holds capacity (slot t + n))
  unfolding complete_without_pending
  complete_without_pending-Holds request error future t =
      Ensures-bind _ _ (Ensures-lift _) (λ response.
        Ensures-choose future _ _
          (Ensures-then _ _
            (Ensures-if_so {Q = λ g. Holds capacity (suc n) g} (not t) _ (λ e. Ensures-raise _)
              (λ g e h. Holds-less g (ground (arith, e)) h))
            (append_to_caller-Holds OutboundKind.caller_invoke_response response))
          (λ id.
            Ensures-modify _ (λ g h. settle-Holds id response g (Holds-less g (omega arith) h))))

  -- What the accounting asks of known variables.
  pub enough :
      (t p : Bool) (m : ℕ) (l : Locals)
      → slot t + slot p + n ≤ m
      → Known t p (Holds capacity m) l
      → Admits capacity n l
  enough t p m l less k = record {
    accounted = Holds-less l.gateway (ground (arith, k.terminal_is, k.provider_is, less)) k.holds;
  }

  complete-Admits :
      (request : ToolEnvelope) (future : Option ℕ) (error : ToolError)
      → Keeps (Admits capacity n) (complete request future error)
  unfolding complete
  complete-Admits request future error = Ensures-flags _ (λ t p.
      Ensures-then _ _
        (Ensures-weaken {M = Known t p (Holds capacity (slot p + (slot t + n)))} _
          (λ l k. record {
            terminal_is = k.terminal_is;
            provider_is = k.provider_is;
            holds = Holds-less l.gateway (omega arith) k.holds;
          })
          (release_provider-Known t p) (λ l k. k) (λ l k. k))
        (Ensures-read terminal_flag _ (λ terminal.
          Ensures-weaken {M = Known terminal false (Holds capacity (slot terminal + n))} _
            (λ l (k, f). record {
              terminal_is = f;
              provider_is = k.provider_is;
              holds = Holds-less l.gateway (ground (arith, f, k.terminal_is)) k.holds;
            })
            (Ensures-then _ _
              (Ensures-weaken _ (λ l k. k)
                (inside-Known _ (complete_without_pending-Holds request error future terminal))
                (λ l k. k) (λ l k. enough terminal false (slot terminal + n) l (omega arith) k))
              (Ensures-modify _ (λ l k. record {
                accounted = Holds-less l.gateway (ground (arith, k.provider_is)) k.holds;
              })))
            (λ l a. a) (λ l a. a))))

  pub refuse-Admits :
      (request : ToolEnvelope) (future : Option ℕ) (error : ToolError)
      → Keeps (Admits capacity n) (refuse request future error)
  unfolding refuse
  refuse-Admits request future error = search (keeps_rules, complete-Admits)

-- The variables once a provider slot is reserved.
abbrev pub Reserved : ℕ → ℕ → Bool → Locals → Type 0
Reserved capacity n t = Known t true (Holds capacity (slot t + 1 + n))

-- A part of an admission that ends with all that it reserved accounted for.
abbrev pub EndsAdmission : {A : Type 0} → ℕ → ℕ → Bool → Action Locals A → Type 0
EndsAdmission capacity n t m =
    Ensures (Reserved capacity n t) m (Admits capacity n) (Admits capacity n)

module _ {capacity n : ℕ} {t : Bool} where
  pub Reserved-Admits : (l : Locals) → Reserved capacity n t l → Admits capacity n l
  Reserved-Admits l k = enough t true (slot t + 1 + n) l (omega arith) k

  pub refuse-Reserved :
      (request : ToolEnvelope) (future : Option ℕ) (error : ToolError)
      → EndsAdmission capacity n t (refuse request future error)
  refuse-Reserved request future error =
      Ensures-weaken _ Reserved-Admits (refuse-Admits request future error) (λ l a. a) (λ l a. a)

  pub raise-Reserved : {A : Type 0} (x : Exception) → EndsAdmission capacity n t (raise {A = A} x)
  raise-Reserved x = Ensures-weaken _ Reserved-Admits (Ensures-raise x) (λ l a. a) (λ l a. a)

  pub inside-Reserved :
      {A B : Type 0} (m : Action Gateway A) (f : A → Action Locals B)
      → ((k : ℕ) → Keeps (Holds capacity k) m)
      → ((a : A) → EndsAdmission capacity n t (f a))
      → EndsAdmission capacity n t (inside m >>= f)
  inside-Reserved m f hm hf =
      Ensures-bind _ _
        (Ensures-weaken _ (λ l k. k) (inside-Known m (hm _)) (λ l k. k) Reserved-Admits) hf

  pub lift-Reserved :
      {A B : Type 0} (r : Result A) (f : A → Action Locals B)
      → ((a : A) → EndsAdmission capacity n t (f a))
      → EndsAdmission capacity n t (lift r >>= f)
  lift-Reserved r f hf =
      Ensures-bind _ _ (Ensures-weaken _ (λ l k. k) (Ensures-lift r) (λ l k. k) Reserved-Admits) hf

module _ {capacity n : ℕ} where
  put_pending-Holds :
      (key : CorrelationKey) (pending : PendingInvocation) (g : Gateway)
      → Holds capacity (slot pending.terminal_slot_reserved + n) g
        × (lookup key g.pending_by_provider_key ≡ none)
      → is_stuck pending ≡ false
      → Holds capacity n (put_pending key pending g)
  unfolding put_pending
  put_pending-Holds key pending g (h, absent) answerable = record {
    fixed = h.fixed;
    room = h.room;
    covered = ground (
      arith,
      h.covered,
      count-insert_new is_owed_terminal key pending g.pending_by_provider_key absent,
    );
    parts = h.parts;
    tables = record {
      pending_keys = insert-IsDistinct key pending g.pending_by_provider_key h.tables.pending_keys;
      exchange_keys = h.tables.exchange_keys;
      exchange_bound = h.tables.exchange_bound;
      pendings_answerable = ground (
        arith,
        h.tables.pendings_answerable,
        answerable,
        count-insert_new is_stuck key pending g.pending_by_provider_key absent,
      );
      exchanges_answerable = h.tables.exchanges_answerable;
    };
  }

module _ {capacity n : ℕ} {t : Bool} where
  -- The request takes the provider slot, and the pending invocation the terminal one.
  pub commit-Reserved :
      (key : CorrelationKey) (pending : PendingInvocation)
      → is_stuck (record pending { terminal_slot_reserved = t }) ≡ false
      → Ensures
          (Known t true (λ g.
            Holds capacity (slot t + 1 + n) g × (lookup key g.pending_by_provider_key ≡ none)))
          (commit key pending)
          (Admits capacity n)
          (Admits capacity n)
  unfolding commit
  commit-Reserved key pending answerable = read_terminal-Known _ (
      Ensures-then
        {M = Known t true
          (λ g. Holds capacity (slot t + n) g × (lookup key g.pending_by_provider_key ≡ none))}
        _ _
        (Ensures-weaken _
          (λ l k. record {
            terminal_is = k.terminal_is;
            provider_is = k.provider_is;
            holds =
                (Holds-less {m = suc (slot t + n)} l.gateway (omega arith) k.holds.0, k.holds.1);
          })
          (inside-Known {E = λ _. ⊥} _ (append_beside-Holds (λ d. lookup key d ≡ none) _))
          (λ l k. k) (λ l k. absurd k.holds))
        (Ensures-then
          {M = Known t false
            (λ g. Holds capacity (slot t + n) g × (lookup key g.pending_by_provider_key ≡ none))}
          _ _
          (Ensures-modify _
            (λ l k. record { terminal_is = k.terminal_is; provider_is = refl; holds = k.holds }))
          (Ensures-then _ _
            (Ensures-weaken _ (λ l k. k)
              (inside-Known {E = λ _. ⊥} _
                (Ensures-modify _ (λ g h. put_pending-Holds key _ g h answerable)))
              (λ l k. k) (λ l k. absurd k.holds))
            (Ensures-then _ _
              (Ensures-modify _ (λ l k. record {
                accounted = Holds-less {n = n} l.gateway (ground (arith, k.provider_is)) k.holds;
              }))
              (Ensures-pure _)))))
