-- ===== src/Invocations/History.antt =====
-- What any sequence of calls on an `ActionInvocationStore` keeps.
use adapter_forge_gateway.Prelude.{ℕ, ◌≡◌, ◌≢◌, some, List, [], ◌∷◌, arith, inl, inr, subst, All}
use adapter_forge_gateway.Raise.{ok}
use adapter_forge_gateway.Dict.{lookup}
use adapter_forge_gateway.Dict.Inversion.{
  lookup-insert_inv, lookup-erase_inv, lookup-erase_each_inv, lookup-map_values_inv,
}
use adapter_forge_gateway.Invocations.Item.{ActionKey, key_eq, ActionInvocation, key}
use adapter_forge_gateway.Invocations.Store.{ActionInvocationStore, init, purge, discard}
use adapter_forge_gateway.Invocations.Evolution.{Evolves, Evolves-refl, Evolves-trans}
use adapter_forge_gateway.Invocations.Steps.{IsValid, IsFresh, Step, Steps, Steps-IsValid, stored}
use adapter_forge_gateway.Invocations.Calls.{Call, perform, perform_all}
use adapter_forge_gateway.Invocations.Methods.{Admits, perform-Steps}

abbrev pub Always : ActionKey → Type 0
Always _ = Unit

-- Only invocations as the constructor makes them are created.
abbrev pub CreatesFresh : List Call → Type 0
CreatesFresh = All (Admits IsFresh Always)

init-items :
    (capacity event_capacity retention : ℕ) (s : ActionInvocationStore)
    → init capacity event_capacity retention ≡ ok s
    → s.items ≡ []
unfolding init
init-items capacity event_capacity retention s e = ground arith

pub init-IsValid :
    (capacity event_capacity retention : ℕ) (s : ActionInvocationStore)
    → init capacity event_capacity retention ≡ ok s
    → IsValid s
unfolding lookup
init-IsValid capacity event_capacity retention s e =
    let no_items = init-items capacity event_capacity retention s e in
    record {
      size = rw no_items (omega arith);
      distinct = rw no_items tt;
      entries = λ k item h. absurd (ground (arith, no_items, h));
    }

perform_all-IsValid :
    (cs : List Call) (s : ActionInvocationStore)
    → CreatesFresh cs
    → IsValid s
    → IsValid (perform_all cs s)
unfolding perform_all
perform_all-IsValid [] s f v = v
perform_all-IsValid (c ∷ cs) s f v =
    perform_all-IsValid cs (perform c s) f.1
      (Steps-IsValid IsFresh Always (λ _ m. m) v (perform-Steps IsFresh Always c s v f.0))

-- From a new store, any calls that create only new invocations leave a store that holds at most its
-- capacity, no key twice, and sound invocations only: the closed ones have a result and a closing
-- time and the others neither, the others hold their permits, and the events are at most as many as
-- the event capacity, numbered without a gap up to the next number.
pub init-perform_all-IsValid :
    (capacity event_capacity retention : ℕ) (cs : List Call) (s : ActionInvocationStore)
    → init capacity event_capacity retention ≡ ok s
    → CreatesFresh cs
    → IsValid (perform_all cs s)
init-perform_all-IsValid capacity event_capacity retention cs s e f =
    perform_all-IsValid cs s f (init-IsValid capacity event_capacity retention s e)

-- The invocation at `j` after a step comes from one before it.
module _ (j : ActionKey) where
  abbrev Comes : ActionInvocationStore → ActionInvocationStore → Type 0
  Comes s t =
      (b : ActionInvocation)
      → lookup j t.items ≡ some b
      → (a : ActionInvocation) × (lookup j s.items ≡ some a) × Evolves a b

  abbrev pub Other : ActionInvocation → Type 0
  Other item = IsFresh item × (key item ≢ j)

  Step-Comes : {s t : ActionInvocationStore} → Step Other Always s t → Comes s t
  unfolding purge discard
  Step-Comes {s} (Step.purged now) b h =
      (b, (lookup-erase_each_inv j b _ s.items h).1, Evolves-refl b)
  Step-Comes {s} (Step.discarded k _) b h =
      (b, (lookup-erase_inv k j b s.items h).1, Evolves-refl b)
  Step-Comes {s} (Step.evicted k _) b h = (b, (lookup-erase_inv k j b s.items h).1, Evolves-refl b)
  Step-Comes {s} (Step.created item m new room) b h =
      elim (lookup-insert_inv (key item) j (stored s item) b s.items h) [
        | inl (at_key, _) ↦ absurd (m.1 at_key)
        | inr (_, held) ↦ (b, held, Evolves-refl b)
      ]
  Step-Comes {s} (Step.changed k change item item' p held done) b h =
      elim (lookup-insert_inv k j item' b s.items h) [
        | inl (at_key, same) ↦ (
          item,
          subst (λ (x : ActionKey). lookup x s.items ≡ some item) at_key held,
          subst (λ (x : ActionInvocation). Evolves item x) same (p.advances item item' done),
        )
        | inr (_, old) ↦ (b, old, Evolves-refl b)
      ]
  Step-Comes {s} (Step.swept f p) b h =
      let (old, held, same) = lookup-map_values_inv f j b s.items h in
      (old, held, subst (λ (x : ActionInvocation). Evolves old x) same (p.evolves old))

  Steps-Comes : {s t : ActionInvocationStore} → Steps Other Always s t → Comes s t
  Steps-Comes Steps.here b h = (b, h, Evolves-refl b)
  Steps-Comes (Steps.next r st) b h =
      let (m, held, late) = Step-Comes st b h in
      let (a, first, early) = Steps-Comes r m held in (a, first, Evolves-trans a m b early late)

  perform_all-Comes :
      (cs : List Call) (s : ActionInvocationStore)
      → IsValid s
      → All (Admits Other Always) cs
      → Comes s (perform_all cs s)
  unfolding perform_all
  perform_all-Comes [] s v f b h = (b, h, Evolves-refl b)
  perform_all-Comes (c ∷ cs) s v f b h =
      let st = perform-Steps Other Always c s v f.0 in
      let (m, held, late) =
        perform_all-Comes cs (perform c s) (Steps-IsValid Other Always (λ _ o. o.0) v st) f.1 b h in
      let (a, first, early) = Steps-Comes st m held in (a, first, Evolves-trans a m b early late)

-- While no call creates an invocation under its key, an invocation that is there before and after
-- some calls has the same identity, endpoint instance, operation and deadline; its phase has not
-- moved back; its acceptance is not lost; and if it was closed with a known outcome, its phase,
-- result, error, closing time and events are what they were. Nor can one appear there.
pub perform_all-Evolves :
    (j : ActionKey) (cs : List Call) (s : ActionInvocationStore) (b : ActionInvocation)
    → IsValid s
    → All (Admits (Other j) Always) cs
    → lookup j (perform_all cs s).items ≡ some b
    → (a : ActionInvocation) × (lookup j s.items ≡ some a) × Evolves a b
perform_all-Evolves j cs s b v f h = perform_all-Comes j cs s v f b h
