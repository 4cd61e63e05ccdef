-- ===== src/Gateway/Locals.antt =====
-- The local variables of an admission in src/forge_gateway/services/tool_gateway_service.py beside the
-- service: which slots it has reserved for itself, and whether it has made an invocation.
use adapter_forge_gateway.Prelude.{
  subst, sym, ℕ, ◌+◌, ◌≡◌, refl, Bool, true, false, arith, ◌∙◌, if◌then◌else◌,
}
use adapter_forge_gateway.Raise.{Result, ok, err, Action}
use adapter_forge_gateway.Raise.Method.{on_part, put_back, modify, gets, when, ◌>>=◌, ◌>>◌}
use adapter_forge_gateway.Raise.Ensures.{
  Ends, Ensures, Keeps, Ensures-then, Ensures-modify, Ensures-weaken, Ensures-if_so,
}
use adapter_forge_gateway.Raise.Reading.{Ensures-read}
use adapter_forge_gateway.Gateway.State.{Gateway, reserve_outbound_slots, release_outbound_slots}
use adapter_forge_gateway.Gateway.Slots.{Holds, Holds-less, reserve-Holds, release-Holds}

pub record Locals : Type 0 where
  pub gateway : Gateway
  pub terminal_reserved : Bool
  pub provider_reserved : Bool
  pub invocation_created : Bool

-- A method of the service under these variables.
unfoldable pub inside : {A : Type 0} → Action Gateway A → Action Locals A
inside m = on_part (λ l. l.gateway) (λ l g. record l { gateway = g }) m

abbrev pub forget : {A : Type 0} → Result A × Locals → Result A × Gateway
forget (r, l) = (r, l.gateway)

-- A body that declares the variables.
unfoldable pub with_locals : {A : Type 0} → Bool → Action Locals A → Action Gateway A
with_locals terminal m g = forget (
    m (record {
      gateway = g;
      terminal_reserved = terminal;
      provider_reserved = false;
      invocation_created = false;
    }))

abbrev pub set_provider : Bool → Locals → Locals
set_provider value l = record l { provider_reserved = value }

abbrev pub set_terminal : Bool → Locals → Locals
set_terminal value l = record l { terminal_reserved = value }

-- `self._reserve_outbound_slots_locked(); provider_reserved = True`
unfoldable pub reserve_provider : Action Locals (Unit {0})
reserve_provider = inside (reserve_outbound_slots 1) >> modify (set_provider true)

abbrev pub provider_flag : Locals → Bool
provider_flag l = l.provider_reserved

abbrev pub terminal_flag : Locals → Bool
terminal_flag l = l.terminal_reserved

abbrev pub created_flag : Locals → Bool
created_flag l = l.invocation_created

-- `if provider_reserved: self._release_outbound_slots_locked(); provider_reserved = False`
unfoldable pub release_provider : Action Locals (Unit {0})
release_provider = gets provider_flag >>= λ reserved.
    when reserved (inside (release_outbound_slots 1) >> modify (set_provider false))

-- `if terminal_reserved: self._release_outbound_slots_locked()`
unfoldable pub release_terminal_slot : Action Locals (Unit {0})
release_terminal_slot = gets terminal_flag >>= λ reserved.
    when reserved (inside (release_outbound_slots 1) >> modify (set_terminal false))

abbrev pub slot : Bool → ℕ
slot reserved = if reserved then 1 else 0

-- The variables are known, and a predicate holds of the service.
pub record Known (terminal provider : Bool) (P : Gateway → Type 0) (l : Locals) : Type 0 where
  pub terminal_is : l.terminal_reserved ≡ terminal
  pub provider_is : l.provider_reserved ≡ provider
  pub holds : P l.gateway

-- The accounting, with the slots that the variables say are reserved and `n` more.
pub record Admits (capacity n : ℕ) (l : Locals) : Type 0 where
  pub accounted : Holds capacity (slot l.terminal_reserved + slot l.provider_reserved + n) l.gateway

module _ {capacity n : ℕ} where
  pub Ensures-flags :
      {A : Type 0} {Q E : Locals → Type 0} (m : Action Locals A)
      → ((t p : Bool) → Ensures (Known t p (Holds capacity (slot t + slot p + n))) m Q E)
      → Ensures (Admits capacity n) m Q E
  Ensures-flags m h = record {
    at = λ l a.
        (h l.terminal_reserved l.provider_reserved).at l
          (record { terminal_is = refl; provider_is = refl; holds = a.accounted });
  }

  pub Known-Admits :
      (t p : Bool) (l : Locals)
      → Known t p (Holds capacity (slot t + slot p + n)) l
      → Admits capacity n l
  Known-Admits t p l k = record { accounted = rw (k.terminal_is, k.provider_is) k.holds }

  pub inside-Admits :
      {A : Type 0} (m : Action Gateway A)
      → ((k : ℕ) → Keeps (Holds capacity k) m)
      → Keeps (Admits capacity n) (inside m)
  unfolding inside on_part
  inside-Admits {A} m h = record {
    at = λ l a.
        after l (m l.gateway)
          ((h (slot l.terminal_reserved + slot l.provider_reserved + n)).at l.gateway a.accounted);
  }
    where
      after :
          (l : Locals) (r : Result A × Gateway)
          → (let k = slot l.terminal_reserved + slot l.provider_reserved + n in
              Ends (Holds capacity k) (Holds capacity k) r)
          → Ends
              (Admits capacity n)
              (Admits capacity n)
              (put_back (λ (x : Locals) g. record x { gateway = g }) l r)
      after l (ok a, g) q = record { accounted = q }
      after l (err x, g) q = record { accounted = q }

pub inside-Known :
    {t p : Bool} {P Q E : Gateway → Type 0} {A : Type 0} (m : Action Gateway A)
    → Ensures P m Q E
    → Ensures (Known t p P) (inside m) (Known t p Q) (Known t p E)
unfolding inside on_part
inside-Known {t} {p} {P} {Q} {E} {A} m h = record {
  at = λ l k. after l k (m l.gateway) (h.at l.gateway k.holds);
}
  where
    after :
        (l : Locals)
        → Known t p P l
        → (r : Result A × Gateway) → Ends Q E r
        → Ends
            (Known t p Q)
            (Known t p E)
            (put_back (λ (x : Locals) g. record x { gateway = g }) l r)
    after l k (ok a, g) q = record {
      terminal_is = k.terminal_is;
      provider_is = k.provider_is;
      holds = q;
    }
    after l k (err x, g) q = record {
      terminal_is = k.terminal_is;
      provider_is = k.provider_is;
      holds = q;
    }

module _ {capacity n : ℕ} where
  pub reserve_provider-Known :
      {t : Bool}
      → Ensures
          (Known t false (Holds capacity n))
          reserve_provider
          (Known t true (Holds capacity (1 + n)))
          (Known t false (Holds capacity n))
  unfolding reserve_provider
  reserve_provider-Known = Ensures-then _ _ (inside-Known _ (reserve-Holds 1)) (
      Ensures-modify _
        (λ l k. record { terminal_is = k.terminal_is; provider_is = refl; holds = k.holds }))

  -- A slot that was reserved is given back, and one that was not is not.
  pub release_provider-Known :
      (t p : Bool) {E : Locals → Type 0}
      → Ensures
          (Known t p (Holds capacity (slot p + n)))
          release_provider
          (Known t false (Holds capacity n))
          E
  unfolding release_provider
  release_provider-Known t p = Ensures-read provider_flag _ (λ r.
      Ensures-if_so r _
        (λ e.
          Ensures-weaken {M = Known t true (Holds capacity (1 + n))} _
            (λ l (k, f). record {
              terminal_is = k.terminal_is;
              provider_is = f ∙ e;
              holds = Holds-less l.gateway (ground (arith, k.provider_is, f, e)) k.holds;
            })
            (Ensures-then _ _ (inside-Known {E = λ _. ⊥} _ (release-Holds 0)) (
              Ensures-modify _ (λ l k. record {
                terminal_is = k.terminal_is;
                provider_is = refl;
                holds = k.holds;
              })))
            (λ l k. k) (λ l k. absurd k.holds))
        (λ l e (k, f). record {
          terminal_is = k.terminal_is;
          provider_is = f ∙ e;
          holds = Holds-less l.gateway (omega arith) k.holds;
        }))

  pub release_terminal_slot-Known :
      (t p : Bool) {E : Locals → Type 0}
      → Ensures
          (Known t p (Holds capacity (slot t + n)))
          release_terminal_slot
          (Known false p (Holds capacity n))
          E
  unfolding release_terminal_slot
  release_terminal_slot-Known t p = Ensures-read terminal_flag _ (λ r.
      Ensures-if_so r _
        (λ e.
          Ensures-weaken {M = Known true p (Holds capacity (1 + n))} _
            (λ l (k, f). record {
              terminal_is = f ∙ e;
              provider_is = k.provider_is;
              holds = Holds-less l.gateway (ground (arith, k.terminal_is, f, e)) k.holds;
            })
            (Ensures-then _ _ (inside-Known {E = λ _. ⊥} _ (release-Holds 0)) (
              Ensures-modify _ (λ l k. record {
                terminal_is = refl;
                provider_is = k.provider_is;
                holds = k.holds;
              })))
            (λ l k. k) (λ l k. absurd k.holds))
        (λ l e (k, f). record {
          terminal_is = f ∙ e;
          provider_is = k.provider_is;
          holds = Holds-less l.gateway (omega arith) k.holds;
        }))

pub read-Known :
    {t p : Bool} {P : Gateway → Type 0} {Q E : Locals → Type 0} {A B : Type 0} (f : Gateway → A)
    (next : A → Action Locals B)
    → ((a : A) → Ensures (Known t p (λ g. P g × (f g ≡ a))) (next a) Q E)
    → Ensures (Known t p P) (inside (gets f) >>= next) Q E
unfolding inside on_part gets ◌>>=◌
read-Known f next h = record {
  at = λ l k. (h (f l.gateway)).at l (record {
    terminal_is = k.terminal_is;
    provider_is = k.provider_is;
    holds = (k.holds, refl);
  });
}

-- The terminal variable, once it is known, is read as what it is.
pub read_terminal-Known :
    {t p : Bool} {P : Gateway → Type 0} {Q E : Locals → Type 0} {B : Type 0}
    (next : Bool → Action Locals B)
    → Ensures (Known t p P) (next t) Q E
    → Ensures (Known t p P) (gets terminal_flag >>= next) Q E
unfolding gets ◌>>=◌
read_terminal-Known {t} {p} {P} {Q} {E} next h = record {
  at = λ l k. subst (λ b. Ends Q E (next b l)) (sym k.terminal_is) (h.at l k);
}
